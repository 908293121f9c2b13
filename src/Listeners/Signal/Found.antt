-- ===== src/Listeners/Signal/Found.antt =====
-- The loop of `Signal::Disconnect`.
use hnu_middleware.Base.{
  zero, get_elem?, ℕ, suc, ◌≡◌, ◌≢◌, refl, sym, ap, ◌∙◌, subst, true, false, some, List, [], ◌∷◌,
  update, update_self, update-other, ℕ_discrete, ==_refl, ne→==_false,
}
use mathlib.Core.Option.{some-injective}
use hnu_middleware.Listeners.Signal.{
  Slot, Heap, connection, has_slot, disconnect_slot, call_all, emit, is_connected, disconnect_found,
  disconnect_each, disconnect_all_slots,
}
use hnu_middleware.Listeners.Signal.Laws.{All2, Entry}

module _ {A W : Type 0} where
  disconnect_found-hit :
      (p s : ℕ) (ps : List ℕ) (slots : ℕ → Slot A W)
      → disconnect_found (connection p s) (p ∷ ps) slots ≡ (
        true,
        (disconnect_found (connection p s) ps (update slots p (disconnect_slot (slots p)))).1,
      )
  unfolding disconnect_found has_slot connection
  disconnect_found-hit p s ps slots = rw (==_refl p) refl

  disconnect_found-pass :
      (p s x : ℕ) (ps : List ℕ) (slots : ℕ → Slot A W)
      → p ≢ x
      → disconnect_found (connection p s) (x ∷ ps) slots
        ≡ disconnect_found (connection p s) ps slots
  unfolding disconnect_found has_slot connection
  disconnect_found-pass p s x ps slots ne = rw (ne→==_false p x ne) refl

  pub disconnect_found-other :
      (p s : ℕ) (ps : List ℕ) (slots : ℕ → Slot A W) (q : ℕ)
      → p ≢ q
      → (disconnect_found (connection p s) ps slots).1 q ≡ slots q
  unfolding disconnect_found
  disconnect_found-other p s [] slots q ne = refl
  disconnect_found-other p s (x ∷ ps) slots q ne = elim (ℕ_discrete p x) [
    | yes same ↦
        let off = update slots p (disconnect_slot (slots p)) in
        subst (λ y. (disconnect_found (connection p s) (y ∷ ps) slots).1 q ≡ slots q) same
          (ap (λ r. r.1 q) (disconnect_found-hit p s ps slots)
            ∙ disconnect_found-other p s ps off q ne
            ∙ update-other slots p q (disconnect_slot (slots p)) ne)
    | no other ↦
        ap (λ r. r.1 q) (disconnect_found-pass p s x ps slots other)
        ∙ disconnect_found-other p s ps slots q ne
  ]

  disconnect_found-stays :
      (p s : ℕ) (ps : List ℕ) (slots : ℕ → Slot A W)
      → (slots p).connected ≡ false
      → ((disconnect_found (connection p s) ps slots).1 p).connected ≡ false
  unfolding disconnect_found disconnect_slot
  disconnect_found-stays p s [] slots off = off
  disconnect_found-stays p s (x ∷ ps) slots off = elim (ℕ_discrete p x) [
    | yes same ↦
        subst (λ y. ((disconnect_found (connection p s) (y ∷ ps) slots).1 p).connected ≡ false) same
          (ap (λ r. (r.1 p).connected) (disconnect_found-hit p s ps slots)
            ∙ disconnect_found-stays p s ps (update slots p (disconnect_slot (slots p)))
                (ap (λ t. t.connected) (update_self slots p (disconnect_slot (slots p)))))
    | no other ↦
        ap (λ r. (r.1 p).connected) (disconnect_found-pass p s x ps slots other)
        ∙ disconnect_found-stays p s ps slots off
  ]

  -- A slot that is found is left disconnected.
  pub disconnect_found_self :
      (p s : ℕ) (ps : List ℕ) (slots : ℕ → Slot A W)
      → (disconnect_found (connection p s) ps slots).0 ≡ true
      → ((disconnect_found (connection p s) ps slots).1 p).connected ≡ false
  unfolding disconnect_found disconnect_slot
  disconnect_found_self p s [] slots f = cc
  disconnect_found_self p s (x ∷ ps) slots f = elim (ℕ_discrete p x) [
    | yes same ↦
        subst (λ y. ((disconnect_found (connection p s) (y ∷ ps) slots).1 p).connected ≡ false) same
          (ap (λ r. (r.1 p).connected) (disconnect_found-hit p s ps slots)
            ∙ disconnect_found-stays p s ps (update slots p (disconnect_slot (slots p)))
                (ap (λ t. t.connected) (update_self slots p (disconnect_slot (slots p)))))
    | no other ↦
        let pass = disconnect_found-pass p s x ps slots other in
        ap (λ r. (r.1 p).connected) pass
        ∙ disconnect_found_self p s ps slots (sym (ap (λ r. r.0) pass) ∙ f)
  ]

  disconnect_found-missing_head :
      (p s x : ℕ) (ps : List ℕ) (slots : ℕ → Slot A W)
      → (disconnect_found (connection p s) (x ∷ ps) slots).0 ≡ false
      → p ≢ x
  disconnect_found-missing_head p s x ps slots f same =
      let hit : true ≡ false =
        sym (ap (λ r. r.0) (disconnect_found-hit p s ps slots))
        ∙ ap (λ y. (disconnect_found (connection p s) (y ∷ ps) slots).0) same
        ∙ f in
      cc

  -- A slot that is not found is none of the list.
  pub disconnect_found-missing :
      (R : ℕ → Entry A W → Type 0) (p s : ℕ) (ps : List ℕ) (es : List (Entry A W))
      (slots : ℕ → Slot A W)
      → (disconnect_found (connection p s) ps slots).0 ≡ false
      → All2 R ps es
      → All2 (λ q e. (p ≢ q) × R q e) ps es
  disconnect_found-missing R p s [] [] slots f h = tt
  disconnect_found-missing R p s [] (e ∷ es) slots f h = elim h [ ]
  disconnect_found-missing R p s (q ∷ ps) [] slots f h = elim h [ ]
  disconnect_found-missing R p s (q ∷ ps) (e ∷ es) slots f h =
      let ne = disconnect_found-missing_head p s q ps slots f in
      (
        (ne, h.0),
        disconnect_found-missing R p s ps es slots
            (sym (ap (λ r. r.0) (disconnect_found-pass p s q ps slots ne)) ∙ f) h.1,
      )

  disconnect_each-stays :
      (ps : List ℕ) (slots : ℕ → Slot A W) (p : ℕ)
      → (slots p).connected ≡ false
      → (disconnect_each ps slots p).connected ≡ false
  unfolding disconnect_each disconnect_slot
  disconnect_each-stays [] slots p off = off
  disconnect_each-stays (q ∷ ps) slots p off =
      disconnect_each-stays ps (update slots q (disconnect_slot (slots q))) p
        (elim (ℕ_discrete q p) [
          | yes same ↦
              subst (λ x. (update slots q (disconnect_slot (slots q)) x).connected ≡ false) same
                (ap (λ t. t.connected) (update_self slots q (disconnect_slot (slots q))))
          | no other ↦
              ap (λ t. t.connected) (update-other slots q p (disconnect_slot (slots q)) other) ∙ off
        ])

  disconnect_each-listed :
      (ps : List ℕ) (slots : ℕ → Slot A W) (i p : ℕ)
      → get_elem? ps i ≡ some p
      → (disconnect_each ps slots p).connected ≡ false
  unfolding disconnect_each disconnect_slot
  disconnect_each-listed [] slots i p at = cc
  disconnect_each-listed (q ∷ ps) slots zero p at =
      let off : (ℕ → Slot A W) = update slots q (disconnect_slot (slots q)) in
      disconnect_each-stays ps off p (
        subst (λ x. (off x).connected ≡ false) (some-injective q p at)
          (ap (λ t. t.connected) (update_self slots q (disconnect_slot (slots q)))))
  disconnect_each-listed (q ∷ ps) slots (suc i) p at =
      disconnect_each-listed ps (update slots q (disconnect_slot (slots q))) i p at

  -- After `DisconnectAllSlots`, which the destructor runs, every connection of the signal's list says
  -- that it is not connected, and a call of the signal calls nobody.
  pub disconnect_all_slots-emit :
      (s : ℕ) (h : Heap A W) (i p : ℕ) (a : A) (w : W)
      → get_elem? (h.signals s) i ≡ some p
      → (is_connected (connection p s) (disconnect_all_slots s h) ≡ false)
        × ((emit s a (disconnect_all_slots s h) w).1 ≡ w)
  unfolding is_connected connection disconnect_all_slots emit call_all
  disconnect_all_slots-emit s h i p a w at = (
    disconnect_each-listed (h.signals s) h.slots i p at,
    ap (λ ps. call_all (disconnect_each (h.signals s) h.slots) ps a w) (update_self h.signals s []),
  )
