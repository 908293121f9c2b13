-- ===== src/Queues/Unbounded/Chain.antt =====
-- The chain of nodes of an `UnboundedQueue`, and what each call does to it.
use hnu_middleware.Base.{
  ℕ, zero, suc, ◌+◌, ◌-◌, ◌%◌, ◌^◌, ◌<◌, ◌≤◌, ◌≡◌, ◌≢◌, sym, ap, subst, ◌∙◌, List, [], ◌∷◌, ◌++◌,
  length, Option, none, some, update, update_self, update-other, ℕ_discrete, ◌>>=◌, ◌⊎◌, inl, inr,
  arith,
}
use hnu_middleware.Queues.Unbounded.{
  Node, Queue, new_node, released, release, set_next, enqueue, dequeue_next, dequeue, destroy_from,
}

module _ {A : Type 0} where
  abbrev pub node : A → ℕ → Option ℕ → Option (Node A)
  node x count next = some (record { item = x; ref_count = count; next = next })

  -- The nodes from an address on: the first has an item of its own, and each further one an item of the
  -- list. The last has two references, and the others one.
  abbrev pub Chain : (ℕ → Option (Node A)) → ℕ → A → List A → Type 0
  Chain nodes p first [] = nodes p ≡ node first 2 none
  Chain nodes p first (x ∷ xs) = (nodes p ≡ node first 1 (some (suc p))) × Chain nodes (suc p) x xs

  abbrev pub last_item : A → List A → A
  last_item first [] = first
  last_item first (x ∷ xs) = last_item x xs

  pub tail_node :
      (nodes : ℕ → Option (Node A)) (p t : ℕ) (first : A) (xs : List A)
      → Chain nodes p first xs
      → p + length xs ≡ t
      → nodes t ≡ node (last_item first xs) 2 none
  tail_node nodes p t first [] c e = subst (λ k. nodes k ≡ node first 2 none) (omega (arith, e)) c
  tail_node nodes p t first (x ∷ xs) c e = tail_node nodes (suc p) t x xs c.1 (omega (arith, e))

  -- A node in front of the chain is no part of it.
  pub Chain-update :
      (nodes : ℕ → Option (Node A)) (q p : ℕ) (v : Option (Node A)) (first : A) (xs : List A)
      → q < p
      → Chain nodes p first xs
      → Chain (update nodes q v) p first xs
  Chain-update nodes q p v first [] before c = update-other nodes q p v (omega arith) ∙ c
  Chain-update nodes q p v first (x ∷ xs) before c = (
    update-other nodes q p v (omega arith) ∙ c.0,
    Chain-update nodes q (suc p) v x xs (omega arith) c.1,
  )

  pub Chain-snoc :
      (nodes nodes' : ℕ → Option (Node A)) (p t : ℕ) (first x : A) (xs : List A)
      → Chain nodes p first xs
      → p + length xs ≡ t
      → ((a : ℕ) → a < t → nodes' a ≡ nodes a)
      → nodes' t ≡ node (last_item first xs) 1 (some (suc t))
      → nodes' (suc t) ≡ node x 2 none
      → Chain nodes' p first (xs ++ x ∷ [])
  Chain-snoc nodes nodes' p t first x [] c e same linked new =
      let here : t ≡ p = omega (arith, e) in
      (
        subst (λ k. nodes' k ≡ node first 1 (some (suc k))) here linked,
        subst (λ k. nodes' (suc k) ≡ node x 2 none) here new,
      )
  Chain-snoc nodes nodes' p t first x (y ∷ xs) c e same linked new = (
    same p (omega (arith, e)) ∙ c.0,
    Chain-snoc nodes nodes' (suc p) t y x xs c.1 (omega (arith, e)) same linked new,
  )

  -- The queue after an `Enqueue` behind a node with some item
  abbrev pub after_enqueue : A → A → Queue A → Queue A
  after_enqueue e x q =
      let made = new_node x q.fresh q.nodes in
      let linked = update made q.tail (node e 2 (some q.fresh)) in
      record {
        nodes = update linked q.tail (node e 1 (some q.fresh));
        fresh = suc q.fresh;
        head = q.head;
        tail = q.fresh;
        size = (q.size + 1) % 2 ^ 64;
      }

  pub enqueue_lem :
      (e x : A) (q : Queue A)
      → q.nodes q.tail ≡ node e 2 none
      → q.fresh ≢ q.tail
      → enqueue x q ≡ some (after_enqueue e x q)
  unfolding enqueue set_next release released new_node
  enqueue_lem e x q there apart =
      let made = new_node x q.fresh q.nodes in
      let mid : Queue A = record q { nodes = made; fresh = suc q.fresh; tail = q.fresh } in
      let linked = update made q.tail (node e 2 (some q.fresh)) in
      let mid' : Queue A = record mid { nodes = linked } in
      let rest : Queue A → Option (Queue A) =
        λ l. release q.tail l >>= λ r. some (record r { size = (r.size + 1) % 2 ^ 64 }) in
      ap
        (λ o.
          (o >>= λ n.
          some
            (record mid { nodes = update made q.tail (some (record n { next = some q.fresh })) }))
          >>= rest)
        (update-other q.nodes q.fresh q.tail _ apart ∙ there)
      ∙ ap
          (λ o. (o >>= λ n. some (record mid' { nodes = released q.tail n linked })) >>= λ r.
            some (record r { size = (r.size + 1) % 2 ^ 64 }))
          (update_self made q.tail (node e 2 (some q.fresh)))

  pub dequeue_lem :
      (first x : A) (n : ℕ) (count : ℕ) (next : Option ℕ) (q : Queue A)
      → q.nodes q.head ≡ node first 1 (some n)
      → q.nodes n ≡ node x count next
      → dequeue q
        ≡ some (
          some x,
          record q {
            nodes = update q.nodes q.head none;
            head = n;
            size = (q.size + 2 ^ 64 - 1) % 2 ^ 64;
          },
        )
  unfolding dequeue dequeue_next release released
  dequeue_lem first x n count next q here there =
      let size = (q.size + 2 ^ 64 - 1) % 2 ^ 64 in
      let moved : Queue A = record q { head = n; size = size } in
      ap (λ o. o >>= λ m. dequeue_next m.next q) here
      ∙ ap (λ o. o >>= λ m. (release q.head moved >>= λ r. some (some m.item, r))) there
      ∙ ap
          (λ o. (o >>= λ m. some (record moved { nodes = released q.head m q.nodes })) >>= λ r.
            some (some x, r))
          here

  pub dequeue_nothing :
      (first : A) (q : Queue A) → q.nodes q.head ≡ node first 2 none → dequeue q ≡ some (none, q)
  unfolding dequeue dequeue_next
  dequeue_nothing first q here = ap (λ o. o >>= λ m. dequeue_next m.next q) here

  gone_at :
      (nodes : ℕ → Option (Node A)) (p a : ℕ)
      → (nodes a ≡ none) ⊎ (a ≡ p)
      → update nodes p none a ≡ none
  gone_at nodes p a h = elim (ℕ_discrete p a) [
    | yes e ↦ subst (λ k. update nodes p none k ≡ none) e (update_self nodes p none)
    | no ne ↦ elim h [ inl e ↦ update-other nodes p a none ne ∙ e | inr e ↦ absurd (ne (sym e)) ]
  ]

  deeper :
      (nodes : ℕ → Option (Node A)) (p a n : ℕ)
      → (nodes a ≡ none) ⊎ ((p ≤ a) × (a ≤ p + suc n))
      → (update nodes p none a ≡ none) ⊎ ((suc p ≤ a) × (a ≤ suc p + n))
  deeper nodes p a n h = elim (ℕ_discrete p a) [
    | yes e ↦ inl (gone_at nodes p a (inr (sym e)))
    | no ne ↦ elim h [
      | inl e ↦ inl (gone_at nodes p a (inl e))
      | inr r ↦ inr (omega (arith, r.0, r.1, ne), omega (arith, r.0, r.1, ne))
    ]
  ]

  -- `Destroy` deletes every node of a chain, and no other is there if it was not.
  pub destroy_from-total :
      (fuel p : ℕ) (first : A) (xs : List A) (nodes : ℕ → Option (Node A))
      → Chain nodes p first xs
      → length xs < fuel
      → (left : ℕ → Option (Node A)) × (destroy_from fuel (some p) nodes ≡ some left)
        × ((a : ℕ) → (nodes a ≡ none) ⊎ ((p ≤ a) × (a ≤ p + length xs)) → left a ≡ none)
  unfolding destroy_from
  destroy_from-total zero p first xs nodes c enough = absurd (omega arith)
  destroy_from-total (suc fuel) p first [] nodes c enough = (
    update nodes p none,
    ap (λ o. o >>= λ n. destroy_from fuel n.next (update nodes p none)) c,
    λ a h. gone_at nodes p a (elim h [ inl e ↦ inl e | inr r ↦ inr (omega (arith, r.0, r.1)) ]),
  )
  destroy_from-total (suc fuel) p first (x ∷ xs) nodes c enough =
      let (left, e, gone) =
        destroy_from-total fuel (suc p) x xs (update nodes p none)
          (Chain-update nodes p (suc p) none x xs (omega arith) c.1) (omega arith) in
      (
        left,
        ap (λ o. o >>= λ n. destroy_from fuel n.next (update nodes p none)) c.0 ∙ e,
        λ a h. gone a (deeper nodes p a (length xs) h),
      )
