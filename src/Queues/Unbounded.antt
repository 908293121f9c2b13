-- ===== src/Queues/Unbounded.antt =====
-- `UnboundedQueue` of base/unbounded_queue.h, one call at a time: a chain of nodes in the heap, each
-- with a count of the references to it. `new` gives an address that it has not given before. `none` is
-- an access to a node that is not there, or a loop whose fuel ends.
pub mod Chain
pub mod Holds
pub mod Refine
use hnu_middleware.Base.{
  ℕ, zero, suc, ◌+◌, ◌-◌, ◌%◌, ◌^◌, Bool, Option, none, some, update, ◌==◌, ◌>>=◌, if◌then◌else◌,
}

pub record Node (A : Type 0) : Type 0 where
  pub item : A
  pub ref_count : ℕ
  pub next : Option ℕ

-- The heap with the next new address, and the members of the queue
pub record Queue (A : Type 0) : Type 0 where
  pub nodes : ℕ → Option (Node A)
  pub fresh : ℕ
  pub head : ℕ
  pub tail : ℕ
  pub size : ℕ

module _ {A : Type 0} where
  -- `new Node()`, with `data` as given
  unfoldable pub new_node : A → ℕ → (ℕ → Option (Node A)) → ℕ → Option (Node A)
  new_node x p nodes = update nodes p (some (record { item = x; ref_count = 2; next = none }))

  -- `release` of a node that is there
  unfoldable pub released : ℕ → Node A → (ℕ → Option (Node A)) → ℕ → Option (Node A)
  released p n nodes =
      let count = (n.ref_count + 2 ^ 32 - 1) % 2 ^ 32 in
      if count == 0
      then update nodes p none
      else update nodes p (some (record n { ref_count = count }))

  unfoldable pub release : ℕ → Queue A → Option (Queue A)
  release p q = do n ← q.nodes p; some (record q { nodes = released p n q.nodes })

  unfoldable pub set_next : ℕ → ℕ → Queue A → Option (Queue A)
  set_next p next q = do
    n ← q.nodes p
    some (record q { nodes = update q.nodes p (some (record n { next = some next })) })

  unfoldable pub enqueue : A → Queue A → Option (Queue A)
  enqueue x q = do
    let node = q.fresh
    let old_tail = q.tail
    linked ←
        set_next old_tail node
          (record q { nodes = new_node x node q.nodes; fresh = suc node; tail = node })
    r ← release old_tail linked
    some (record r { size = (r.size + 1) % 2 ^ 64 })

  -- `Dequeue` from the node behind the head
  unfoldable pub dequeue_next : Option ℕ → Queue A → Option (Option A × Queue A)
  dequeue_next none q = some (none, q)
  dequeue_next (some next) q = do
    n ← q.nodes next
    r ← release q.head (record q { head = next; size = (q.size + 2 ^ 64 - 1) % 2 ^ 64 })
    some (some n.item, r)

  unfoldable pub dequeue : Queue A → Option (Option A × Queue A)
  dequeue q = do n ← q.nodes q.head; dequeue_next n.next q

  -- The first node is made with an item that no call reads.
  unfoldable pub reset : A → Queue A → Queue A
  reset x q =
      let node = q.fresh in
      record {
        nodes = new_node x node q.nodes;
        fresh = suc node;
        head = node;
        tail = node;
        size = 0;
      }

  unfoldable pub new_queue : A → Queue A
  new_queue x = reset x (record { nodes = λ p. none; fresh = 0; head = 0; tail = 0; size = 0 })

  -- The loop of `Destroy`
  unfoldable pub destroy_from : ℕ → Option ℕ → (ℕ → Option (Node A)) → Option (ℕ → Option (Node A))
  destroy_from fuel none nodes = some nodes
  destroy_from zero (some p) nodes = none
  destroy_from (suc fuel) (some p) nodes = do
    n ← nodes p
    destroy_from fuel n.next (update nodes p none)

  unfoldable pub destroy : ℕ → Queue A → Option (Queue A)
  destroy fuel q = do
    nodes ← destroy_from fuel (some q.head) q.nodes
    some (record q { nodes = nodes })

  unfoldable pub clear : ℕ → A → Queue A → Option (Queue A)
  clear fuel x q = do left ← destroy fuel q; some (reset x left)

  unfoldable pub is_empty : Queue A → Bool
  is_empty q = q.size == 0
