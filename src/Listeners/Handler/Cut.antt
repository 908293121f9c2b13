-- ===== src/Listeners/Handler/Cut.antt =====
-- `Disconnect` on one signal of a listener handler.
use hnu_middleware.Base.{
  ℕ, ◌<◌, ◌≡◌, ◌≢◌, refl, sym, ap, ◌∙◌, subst, Bool, true, false, none, some, List, [], ◌∷◌, update,
  update_self, update-other, ℕ_discrete, inl, inr, Bool-cases, ne→==_false,
}
use mathlib.Core.Option.{some-injective, none-ne-some}
use hnu_middleware.Listeners.Signal
use hnu_middleware.Listeners.Signal.{
  Slot, Connection, Heap, connection, connected_only, clear_disconnected_slots, emit,
  disconnect_found,
}
use hnu_middleware.Listeners.Signal.Laws.{
  All2, All2-map, Entry, remove, Calls, connected_only_all, connected_only-remove,
}
use hnu_middleware.Listeners.Signal.Found.{
  disconnect_found-other, disconnect_found_self, disconnect_found-missing,
}
use hnu_middleware.Listeners.Handler.{ConnectionMap}
use hnu_middleware.Listeners.Handler.Channel.{Owners, Listed, Fits, Channel}

module _ {A W : Type 0} (g : Owners) (h : Heap A W) where
  slot_of : (p q s : ℕ) → some (connection p s) ≡ some (connection q s) → p ≡ q
  unfolding connection
  slot_of p q s e =
      some-injective p q (ap (λ c. c.slot) (some-injective (connection p s) (connection q s) e))

  Fits-owner :
      (s : ℕ) (conns : ConnectionMap) (j p : ℕ)
      → Fits g h s conns
      → conns j ≡ some (connection p s)
      → (p < h.next) × (g.id_of p ≡ j) × (g.signal_of p ≡ s)
  Fits-owner s conns j p fits at =
      let (q, is, lt, id, of) = fits j (connection p s) at in
      let same : p ≡ q = slot_of p q s (ap some is) in
      (subst (λ x. x < h.next) (sym same) lt, ap g.id_of same ∙ id, ap g.signal_of same ∙ of)

  -- What is left where one slot `p` of `s` is cut off.
  record Cut (k : Heap A W) (s p : ℕ) : Type 0 where
    next : k.next ≡ h.next
    slots : (q : ℕ) → p ≢ q → k.slots q ≡ h.slots q
    signals : (s' : ℕ) → s ≢ s' → k.signals s' ≡ h.signals s'

  abbrev found : ℕ → ℕ → Bool × (ℕ → Slot A W)
  found p s = disconnect_found (connection p s) (h.signals s) h.slots

  abbrev with_slots : ℕ → ℕ → Heap A W
  with_slots p s = record h { slots = (found p s).1 }

  after_found :
      (p s : ℕ)
      → (found p s).0 ≡ true
      → (Signal.disconnect (connection p s) h).0 ≡ clear_disconnected_slots s (with_slots p s)
  unfolding Signal.disconnect connection
  after_found p s f = rw f refl

  after_missing :
      (p s : ℕ) → (found p s).0 ≡ false → (Signal.disconnect (connection p s) h).0 ≡ with_slots p s
  unfolding Signal.disconnect connection
  after_missing p s f = rw f refl

  disconnect-Cut : (p s : ℕ) → Cut (Signal.disconnect (connection p s) h).0 s p
  unfolding clear_disconnected_slots
  disconnect-Cut p s = elim (Bool-cases (found p s).0) [
    | inl f ↦
        subst (λ k. Cut k s p) (sym (after_found p s f))
          record {
            next = refl;
            slots = disconnect_found-other p s (h.signals s) h.slots;
            signals = λ s' ne.
                update-other h.signals s s' (connected_only (found p s).1 (h.signals s)) ne;
          }
    | inr f ↦
        subst (λ k. Cut k s p) (sym (after_missing p s f))
          record {
            next = refl;
            slots = disconnect_found-other p s (h.signals s) h.slots;
            signals = λ s' ne. refl;
          }
  ]

  module _ (s : ℕ) (conns : ConnectionMap) (id p : ℕ) (at : conns id ≡ some (connection p s)) where
    -- The entry of another slot
    Listed-kept :
        (k : Heap A W) (q : ℕ) (e : Entry A W)
        → Cut k s p
        → p ≢ q
        → Listed g h s conns q e
        → (e.id ≢ id) × Listed g k s (update conns id none) q e
    Listed-kept k q e cut ne (lt, calls, held, of) =
        let other : e.id ≢ id = λ same. ne (slot_of p q s (sym at ∙ ap conns (sym same) ∙ held)) in
        (
          other,
          (
            subst (λ n. q < n) (sym cut.next) lt,
            subst (λ slot. (slot.connected ≡ true) × (slot.cb ≡ e.listener)) (sym (cut.slots q ne))
                calls,
            update-other conns id e.id none (λ eq. other (sym eq)) ∙ held,
            of,
          ),
        )

    Fits-disconnect :
        (k : Heap A W) → Cut k s p → Fits g h s conns → Fits g k s (update conns id none)
    Fits-disconnect k cut fits j c held = elim (ℕ_discrete id j) [
      | yes same ↦
          let no : none ≡ some c =
            sym (update_self conns id none) ∙ ap (update conns id none) same ∙ held in
          absurd (none-ne-some c no)
      | no other ↦
          let (q, is, lt, own, of) = fits j c (sym (update-other conns id j none other) ∙ held) in
          (q, is, subst (λ n. q < n) (sym cut.next) lt, own, of)
    ]

    abbrev Remains : Heap A W → ℕ → Entry A W → Type 0
    Remains k = Listed g k s (update conns id none)

    found-listed :
        (es : List (Entry A W))
        → (found p s).0 ≡ true
        → Channel g h s conns es
        → All2
            (Remains (clear_disconnected_slots s (with_slots p s)))
            ((clear_disconnected_slots s (with_slots p s)).signals s)
            (remove id es)
    unfolding clear_disconnected_slots
    found-listed es f ch =
        let slots = (found p s).1 in
        let k = clear_disconnected_slots s (with_slots p s) in
        let cut : Cut k s p = subst (λ k. Cut k s p) (after_found p s f) (disconnect-Cut p s) in
        subst (λ ps. All2 (Remains k) ps (remove id es))
          (sym (update_self h.signals s (connected_only slots (h.signals s))))
          (connected_only-remove (Listed g h s conns) (Remains k) slots id (h.signals s) es
            (λ q e l. elim (ℕ_discrete p q) [
              | yes same ↦ inl (
                ap (λ x. (slots x).connected) (sym same)
                    ∙ disconnect_found_self p s (h.signals s) h.slots f,
                sym (Fits-owner s conns e.id q ch.fits l.2).1
                    ∙ ap g.id_of (sym same)
                    ∙ (Fits-owner s conns id p ch.fits at).1,
              )
              | no other ↦
                  let kept = Listed-kept k q e cut other l in
                  inr (ap (λ slot. slot.connected) (cut.slots q other) ∙ l.1.0, kept.0, kept.1)
            ])
            ch.listed)

    missing-listed :
        (es : List (Entry A W))
        → (found p s).0 ≡ false
        → Channel g h s conns es
        → All2 (Remains (with_slots p s)) (h.signals s) (remove id es)
    missing-listed es f ch =
        let k = with_slots p s in
        let cut : Cut k s p = subst (λ k. Cut k s p) (after_missing p s f) (disconnect-Cut p s) in
        let apart =
          disconnect_found-missing (Listed g h s conns) p s (h.signals s) es h.slots f ch.listed in
        subst (λ ps. All2 (Remains k) ps (remove id es))
          (connected_only_all h.slots (h.signals s) es (
            All2-map (Listed g h s conns) (Calls h.slots) (h.signals s) es (λ q e l. l.1)
              ch.listed))
          (connected_only-remove (λ q e. (p ≢ q) × Listed g h s conns q e) (Remains k) h.slots id
            (h.signals s) es
            (λ q e l. let kept = Listed-kept k q e cut l.0 l.1 in inr (l.1.1.0, kept.0, kept.1))
            apart)

    -- `Disconnect` takes the id's listener out of its signal.
    pub disconnect-Channel :
        (es : List (Entry A W))
        → Channel g h s conns es
        → Channel g (Signal.disconnect (connection p s) h).0 s (update conns id none) (remove id es)
    disconnect-Channel es ch = record {
      listed = elim (Bool-cases (found p s).0) [
        | inl f ↦
            subst (λ k. All2 (Remains k) (k.signals s) (remove id es)) (sym (after_found p s f))
              (found-listed es f ch)
        | inr f ↦
            subst (λ k. All2 (Remains k) (k.signals s) (remove id es)) (sym (after_missing p s f))
              (missing-listed es f ch)
      ];
      fits = Fits-disconnect (Signal.disconnect (connection p s) h).0 (disconnect-Cut p s) ch.fits;
    }

  pub disconnect-next : (p s : ℕ) → (Signal.disconnect (connection p s) h).0.next ≡ h.next
  disconnect-next p s = (disconnect-Cut p s).next

  -- An id without a connection has no listener.
  pub remove_missing :
      (s : ℕ) (conns : ConnectionMap) (id : ℕ) (ps : List ℕ) (es : List (Entry A W))
      → conns id ≡ none
      → All2 (Listed g h s conns) ps es
      → remove id es ≡ es
  unfolding remove
  remove_missing s conns id [] [] none_yet l = refl
  remove_missing s conns id [] (e ∷ es) none_yet l = elim l [ ]
  remove_missing s conns id (p ∷ ps) [] none_yet l = elim l [ ]
  remove_missing s conns id (p ∷ ps) (e ∷ es) none_yet l =
      let other : e.id ≢ id =
        λ same. none-ne-some (connection p s) (sym none_yet ∙ ap conns (sym same) ∙ l.0.2) in
      rw (ne→==_false e.id id other, remove_missing s conns id ps es none_yet l.1) refl

  -- It leaves the other signals their listeners.
  pub disconnect-other :
      (s s' : ℕ) (conns : ConnectionMap) (p : ℕ) (es : List (Entry A W))
      → s ≢ s'
      → g.signal_of p ≡ s
      → Channel g h s' conns es
      → Channel g (Signal.disconnect (connection p s) h).0 s' conns es
  disconnect-other s s' conns p es ne own ch =
      let cut = disconnect-Cut p s in
      let k = (Signal.disconnect (connection p s) h).0 in
      record {
        listed =
            subst (λ ps. All2 (Listed g k s' conns) ps es) (sym (cut.signals s' ne))
              (All2-map (Listed g h s' conns) (Listed g k s' conns) (h.signals s') es
                (λ q e (lt, calls, held, of).
                  let apart : p ≢ q = λ same. ne (sym own ∙ ap g.signal_of same ∙ of) in
                  (
                    subst (λ n. q < n) (sym cut.next) lt,
                    subst (λ slot. (slot.connected ≡ true) × (slot.cb ≡ e.listener))
                        (sym (cut.slots q apart)) calls,
                    held,
                    of,
                  ))
                ch.listed);
        fits = λ j c at.
            let (q, is, lt, id, of) = ch.fits j c at in
            (q, is, subst (λ n. q < n) (sym cut.next) lt, id, of);
      }
