-- ===== src/Listeners/Signal/Laws.antt =====
-- The operations of a signal, on a list that stands beside its list of slots.
use hnu_middleware.Base.{
  ℕ, ◌≡◌, ◌≢◌, refl, ap, ◌∙◌, true, false, Option, List, [], ◌∷◌, ◌++◌, ◌==◌, if◌then◌else◌, ◌⊎◌,
  inl, inr, ==_refl, ne→==_false, arith,
}
use hnu_middleware.Listeners.Signal.{Slot, call_cb, call, call_all, connected_only}

-- Two lists of one length whose items are related place by place.
abbrev pub All2 : {P E : Type 0} → (P → E → Type 0) → List P → List E → Type 0
All2 R [] [] = Unit
All2 R [] (e ∷ es) = ⊥
All2 R (p ∷ ps) [] = ⊥
All2 R (p ∷ ps) (e ∷ es) = R p e × All2 R ps es

module _ {P E : Type 0} where
  pub All2-map :
      (R S : P → E → Type 0) (ps : List P) (es : List E)
      → ((p : P) (e : E) → R p e → S p e)
      → All2 R ps es
      → All2 S ps es
  All2-map R S [] [] f h = tt
  All2-map R S [] (e ∷ es) f h = elim h [ ]
  All2-map R S (p ∷ ps) [] f h = elim h [ ]
  All2-map R S (p ∷ ps) (e ∷ es) f h = (f p e h.0, All2-map R S ps es f h.1)

  pub All2-snoc :
      (R : P → E → Type 0) (ps : List P) (es : List E) (p : P) (e : E)
      → All2 R ps es
      → R p e
      → All2 R (ps ++ p ∷ []) (es ++ e ∷ [])
  All2-snoc R [] [] p e h r = (r, tt)
  All2-snoc R [] (x ∷ es) p e h r = elim h [ ]
  All2-snoc R (x ∷ ps) [] p e h r = elim h [ ]
  All2-snoc R (x ∷ ps) (y ∷ es) p e h r = (h.0, All2-snoc R ps es p e h.1 r)

-- What a listener list promises: who listens, in order of registration.
pub record Entry (A W : Type 0) : Type 0 where
  pub id : ℕ
  pub listener : Option (A → W → W)

module _ {A W : Type 0} where
  -- The call of every listener, in order
  unfoldable pub call_entries : List (Entry A W) → A → W → W
  unfolding call_cb
  call_entries [] a w = w
  call_entries (e ∷ es) a w = call_entries es a (call_cb e.listener a w)

  -- All the listeners but those of one id
  unfoldable pub remove : ℕ → List (Entry A W) → List (Entry A W)
  remove id [] = []
  remove id (e ∷ es) = let rest = remove id es in if e.id == id then rest else e ∷ rest

  -- A slot that calls the listener of an entry
  abbrev pub Calls : (ℕ → Slot A W) → ℕ → Entry A W → Type 0
  Calls slots p e = ((slots p).connected ≡ true) × ((slots p).cb ≡ e.listener)

  pub call_all-entries :
      (slots : ℕ → Slot A W) (ps : List ℕ) (es : List (Entry A W)) (a : A) (w : W)
      → All2 (Calls slots) ps es
      → call_all slots ps a w ≡ call_entries es a w
  unfolding call_all call_entries call
  call_all-entries slots [] [] a w h = refl
  call_all-entries slots [] (e ∷ es) a w h = elim h [ ]
  call_all-entries slots (p ∷ ps) [] a w h = elim h [ ]
  call_all-entries slots (p ∷ ps) (e ∷ es) a w h =
      ap (λ v. call_all slots ps a v)
        (ap (λ b. if b then call_cb (slots p).cb a w else w) h.0.0 ∙ ap (λ f. call_cb f a w) h.0.1)
      ∙ call_all-entries slots ps es a (call_cb e.listener a w) h.1

  pub connected_only_all :
      (slots : ℕ → Slot A W) (ps : List ℕ) (es : List (Entry A W))
      → All2 (Calls slots) ps es
      → connected_only slots ps ≡ ps
  unfolding connected_only
  connected_only_all slots [] [] h = refl
  connected_only_all slots [] (e ∷ es) h = elim h [ ]
  connected_only_all slots (p ∷ ps) [] h = elim h [ ]
  connected_only_all slots (p ∷ ps) (e ∷ es) h = ground (arith, connected_only_all slots ps es h.1)

  -- Where the slots left are those of the entries left, and all of these are left.
  pub connected_only-remove :
      (R S : ℕ → Entry A W → Type 0) (slots : ℕ → Slot A W) (id : ℕ) (ps : List ℕ)
      (es : List (Entry A W))
      → ((p : ℕ) (e : Entry A W)
          → R p e
          → (((slots p).connected ≡ false) × (e.id ≡ id))
            ⊎ (((slots p).connected ≡ true) × (e.id ≢ id) × S p e))
      → All2 R ps es
      → All2 S (connected_only slots ps) (remove id es)
  unfolding connected_only remove
  connected_only-remove R S slots id [] [] f h = tt
  connected_only-remove R S slots id [] (e ∷ es) f h = elim h [ ]
  connected_only-remove R S slots id (p ∷ ps) [] f h = elim h [ ]
  connected_only-remove R S slots id (p ∷ ps) (e ∷ es) f h =
      let rest = connected_only-remove R S slots id ps es f h.1 in
      elim (f p e h.0) [
        | inl (off, same) ↦ rw (off, same, ==_refl id) rest
        | inr (on, other, kept) ↦ rw (on, ne→==_false e.id id other) (kept, rest)
      ]
