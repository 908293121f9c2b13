-- ===== src/Queues/Unbounded/Holds.antt =====
-- That a call on an `UnboundedQueue` whose nodes hold a list leaves nodes that hold the list after it.
use hnu_middleware.Base.{
  ℕ, suc, ◌+◌, ◌-◌, ◌%◌, ◌^◌, ◌<◌, ◌≤◌, ◌≡◌, ◌≢◌, refl, sym, ap, subst, ◌∙◌, List, [], ◌∷◌, ◌++◌,
  length, length-append, Option, none, some, update, update_self, update-other, ℕ_discrete, dec_lt,
  ◌>>=◌, ◌⊎◌, inl, inr, arith,
}
use hnu_middleware.Queues.Unbounded.{
  Node, Queue, new_node, enqueue, dequeue, reset, new_queue, destroy, clear,
}
use hnu_middleware.Queues.Unbounded.Chain.{
  node, Chain, last_item, tail_node, Chain-update, Chain-snoc, after_enqueue, enqueue_lem,
  dequeue_lem, destroy_from-total,
}

module _ {A : Type 0} where
  -- A queue holds a list: its chain has the list's items, and no other node is in the heap.
  pub record Holds (q : Queue A) (xs : List A) : Type 0 where
    pub first : A
    pub chain : Chain q.nodes q.head first xs
    pub tail_at : q.head + length xs ≡ q.tail
    pub fresh_at : q.fresh ≡ suc q.tail
    pub counted_as : q.size ≡ length xs % 2 ^ 64
    pub clean : (a : ℕ) → (a < q.head) ⊎ (q.tail < a) → q.nodes a ≡ none

  -- `Enqueue` changes the old tail and the new node alone.
  enqueue-elsewhere :
      (e y : A) (q : Queue A) (a : ℕ)
      → a ≢ q.tail
      → a ≢ q.fresh
      → (after_enqueue e y q).nodes a ≡ q.nodes a
  unfolding new_node
  enqueue-elsewhere e y q a not_tail not_fresh =
      let made = new_node y q.fresh q.nodes in
      let linked = update made q.tail (node e 2 (some q.fresh)) in
      update-other linked q.tail a (node e 1 (some q.fresh)) (λ p. not_tail (sym p))
      ∙ update-other made q.tail a (node e 2 (some q.fresh)) (λ p. not_tail (sym p))
      ∙ update-other q.nodes q.fresh a (node y 2 none) (λ p. not_fresh (sym p))

  enqueue-new :
      (e y : A) (q : Queue A)
      → q.fresh ≢ q.tail
      → (after_enqueue e y q).nodes q.fresh ≡ node y 2 none
  unfolding new_node
  enqueue-new e y q apart =
      let made = new_node y q.fresh q.nodes in
      let linked = update made q.tail (node e 2 (some q.fresh)) in
      update-other linked q.tail q.fresh (node e 1 (some q.fresh)) (λ p. apart (sym p))
      ∙ update-other made q.tail q.fresh (node e 2 (some q.fresh)) (λ p. apart (sym p))
      ∙ update_self q.nodes q.fresh (node y 2 none)

  enqueue-clean :
      (e y : A) (xs : List A) (q : Queue A) (a : ℕ)
      → Holds q xs
      → (a < q.head) ⊎ (q.fresh < a)
      → (after_enqueue e y q).nodes a ≡ none
  enqueue-clean e y xs q a h (inl l) =
      enqueue-elsewhere e y q a (omega (arith, l, h.tail_at))
        (omega (arith, l, h.tail_at, h.fresh_at))
      ∙ h.clean a (inl l)
  enqueue-clean e y xs q a h (inr g) =
      enqueue-elsewhere e y q a (omega (arith, g, h.fresh_at)) (omega (arith, g))
      ∙ h.clean a (inr (omega (arith, g, h.fresh_at)))

  pub enqueue-Holds :
      (y : A) (xs : List A) (q : Queue A)
      → Holds q xs
      → (r : Queue A) × (enqueue y q ≡ some r) × Holds r (xs ++ y ∷ [])
  enqueue-Holds y xs q h =
      let e = last_item h.first xs in
      let there = tail_node q.nodes q.head q.tail h.first xs h.chain h.tail_at in
      let apart : q.fresh ≢ q.tail = omega (arith, h.fresh_at) in
      let linked = update (new_node y q.fresh q.nodes) q.tail (node e 2 (some q.fresh)) in
      let r = after_enqueue e y q in
      let longer : length (xs ++ y ∷ []) ≡ length xs + 1 = length-append xs (y ∷ []) in
      (
        r,
        enqueue_lem e y q there apart,
        record {
          first = h.first;
          chain =
              Chain-snoc q.nodes r.nodes q.head q.tail h.first y xs h.chain h.tail_at
                (λ a lt.
                  enqueue-elsewhere e y q a (omega (arith, lt)) (omega (arith, lt, h.fresh_at)))
                (update_self linked q.tail (node e 1 (some q.fresh))
                  ∙ ap (λ k. node e 1 (some k)) h.fresh_at)
                (subst (λ k. r.nodes k ≡ node y 2 none) h.fresh_at (enqueue-new e y q apart));
          tail_at = omega (arith, h.tail_at, h.fresh_at, longer);
          fresh_at = refl;
          counted_as = omega (arith, h.counted_as, longer);
          clean = λ a out. enqueue-clean e y xs q a h out;
        },
      )

  front_node :
      (nodes : ℕ → Option (Node A)) (p : ℕ) (x : A) (xs : List A)
      → Chain nodes p x xs
      → (count : ℕ) × (next : Option ℕ) × (nodes p ≡ node x count next)
  front_node nodes p x [] c = (2, none, c)
  front_node nodes p x (y ∷ xs) c = (1, some (suc p), c.0)

  pub dequeue-Holds :
      (x : A) (xs : List A) (q : Queue A)
      → Holds q (x ∷ xs)
      → (r : Queue A) × (dequeue q ≡ some (some x, r)) × Holds r xs
  dequeue-Holds x xs q h =
      let c = h.chain in
      let (count, next, there) = front_node q.nodes (suc q.head) x xs c.1 in
      let size = (q.size + 2 ^ 64 - 1) % 2 ^ 64 in
      let r : Queue A = record q {
        nodes = update q.nodes q.head none;
        head = suc q.head;
        size = size;
      } in
      (
        r,
        dequeue_lem h.first x (suc q.head) count next q c.0 there,
        record {
          first = x;
          chain = Chain-update q.nodes q.head (suc q.head) none x xs (omega arith) c.1;
          tail_at = omega (arith, h.tail_at);
          fresh_at = h.fresh_at;
          counted_as = omega (arith, h.counted_as);
          clean = λ a out. elim (ℕ_discrete q.head a) [
            | yes e ↦
                subst (λ k. update q.nodes q.head none k ≡ none) e (update_self q.nodes q.head none)
            | no ne ↦
                update-other q.nodes q.head a none ne
                ∙ h.clean a (elim out [ inl l ↦ inl (omega (arith, l, ne)) | inr g ↦ inr g ])
          ];
        },
      )

  inside :
      (nodes : ℕ → Option (Node A)) (head tail n a : ℕ)
      → head + n ≡ tail
      → ((a : ℕ) → (a < head) ⊎ (tail < a) → nodes a ≡ none)
      → (nodes a ≡ none) ⊎ ((head ≤ a) × (a ≤ head + n))
  inside nodes head tail n a e clean = elim (dec_lt a head) [
    | yes l ↦ inl (clean a (inl l))
    | no nl ↦ elim (dec_lt tail a) [
      | yes g ↦ inl (clean a (inr g))
      | no ng ↦ inr (omega (arith, nl), omega (arith, ng, e))
    ]
  ]

  pub clear-Holds :
      (fuel : ℕ) (x : A) (xs : List A) (q : Queue A)
      → Holds q xs
      → length xs < fuel
      → (r : Queue A) × (clear fuel x q ≡ some r) × Holds r []
  unfolding clear destroy reset new_node
  clear-Holds fuel x xs q h enough =
      let (left, e, gone) = destroy_from-total fuel q.head h.first xs q.nodes h.chain enough in
      let old : Queue A = record q { nodes = left } in
      let all_gone : (a : ℕ) → left a ≡ none =
        λ a. gone a (inside q.nodes q.head q.tail (length xs) a h.tail_at h.clean) in
      (
        reset x old,
        ap (λ o. (o >>= λ nodes. some (record q { nodes = nodes })) >>= λ l. some (reset x l)) e,
        record {
          first = x;
          chain = update_self left q.fresh (node x 2 none);
          tail_at = omega arith;
          fresh_at = refl;
          counted_as = refl;
          clean = λ a out.
              let ne : q.fresh ≢ a = elim out [
                | inl l ↦ omega (arith, l)
                | inr g ↦ omega (arith, g)
              ] in
              update-other left q.fresh a (node x 2 none) ne ∙ all_gone a;
        },
      )

  pub new_queue-Holds : (x : A) → Holds (new_queue x) []
  unfolding new_queue reset new_node
  new_queue-Holds x = record {
    first = x;
    chain = update_self (λ p. none) 0 (node x 2 none);
    tail_at = refl;
    fresh_at = refl;
    counted_as = refl;
    clean = λ a out.
        let ne : 0 ≢ a = elim out [ inl l ↦ omega (arith, l) | inr g ↦ omega (arith, g) ] in
        update-other (λ p. none) 0 a (node x 2 none) ne;
  }

  -- `Destroy` of a queue that holds a list deletes every node of the heap, and ends with a fuel above the number
  -- of elements.
  pub destroy-clean :
      (fuel : ℕ) (xs : List A) (q : Queue A) (a : ℕ)
      → Holds q xs
      → length xs < fuel
      → (r : Queue A) × (destroy fuel q ≡ some r) × (r.nodes a ≡ none)
  unfolding destroy
  destroy-clean fuel xs q a h enough =
      let (left, e, gone) = destroy_from-total fuel q.head h.first xs q.nodes h.chain enough in
      (
        record q { nodes = left },
        ap (λ o. o >>= λ nodes. some (record q { nodes = nodes })) e,
        gone a (inside q.nodes q.head q.tail (length xs) a h.tail_at h.clean),
      )
