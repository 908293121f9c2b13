-- ===== src/Listeners/Handler/Channel.antt =====
-- One signal of a listener handler with its map of connections, as a list of listeners.
use hnu_middleware.Base.{
  ℕ, suc, ◌<◌, ◌≡◌, ◌≢◌, refl, sym, ap, ◌∙◌, subst, true, Option, some, List, [], ◌∷◌, ◌++◌, update,
  update_self, update-other, ℕ_discrete, arith,
}
use mathlib.Core.Option.{some-injective}
use hnu_middleware.Listeners.Signal
use hnu_middleware.Listeners.Signal.{
  Slot, Connection, Heap, connection, new_slot, connected_only, clear_disconnected_slots, emit,
  new_signal, disconnect_found,
}
use hnu_middleware.Listeners.Signal.Laws.{All2, All2-map, All2-snoc, Entry, Calls}
use hnu_middleware.Listeners.Handler.{ConnectionMap, no_conns}

-- For each slot, the id that connected it and the signal it is a slot of.
pub record Owners : Type 0 where
  pub id_of : ℕ → ℕ
  pub signal_of : ℕ → ℕ

-- The owners once a slot is made for an id.
abbrev pub own : Owners → ℕ → ℕ → ℕ → Owners
own g p id s = record { id_of = update g.id_of p id; signal_of = update g.signal_of p s }

module _ {A W : Type 0} where
  -- The slot at `p` is live and is the one that the map holds for the entry's id.
  abbrev pub Listed : Owners → Heap A W → ℕ → ConnectionMap → ℕ → Entry A W → Type 0
  Listed g h s conns p e =
      (p < h.next) × Calls h.slots p e × (conns e.id ≡ some (connection p s)) × (g.signal_of p ≡ s)

  -- What the map holds is a connection of this signal.
  abbrev pub Fits : Owners → Heap A W → ℕ → ConnectionMap → Type 0
  Fits g h s conns =
      (j : ℕ) (c : Connection)
      → conns j ≡ some c
      → (p : ℕ) × (c ≡ connection p s) × (p < h.next) × (g.id_of p ≡ j) × (g.signal_of p ≡ s)

  pub record Channel (g : Owners) (h : Heap A W) (s : ℕ) (conns : ConnectionMap)
      (es : List (Entry A W)) : Type 0 where
    pub listed : All2 (Listed g h s conns) (h.signals s) es
    pub fits : Fits g h s conns

  -- No entry has the id.
  abbrev pub Unused : ℕ → List (Entry A W) → Type 0
  Unused id [] = Unit
  Unused id (e ∷ es) = (e.id ≢ id) × Unused id es

  All2-Unused :
      (R : ℕ → Entry A W → Type 0) (id : ℕ) (ps : List ℕ) (es : List (Entry A W))
      → All2 R ps es
      → Unused id es
      → All2 (λ p e. (e.id ≢ id) × R p e) ps es
  All2-Unused R id [] [] h u = tt
  All2-Unused R id [] (e ∷ es) h u = elim h [ ]
  All2-Unused R id (p ∷ ps) [] h u = elim h [ ]
  All2-Unused R id (p ∷ ps) (e ∷ es) h u = ((u.0, h.0), All2-Unused R id ps es h.1 u.1)

  module _ (g : Owners) (h : Heap A W) where
    -- A new signal has no listeners, and leaves the other signals theirs.
    pub new_signal-Channel : Channel g (new_signal h).0 h.next no_conns []
    unfolding new_signal
    new_signal-Channel = record {
      listed =
          subst (λ ps. All2 (Listed g (new_signal h).0 h.next no_conns) ps [])
            (sym (update_self h.signals h.next [])) tt;
      fits = λ j c e. cc;
    }

    pub new_signal-other :
        (s : ℕ) (conns : ConnectionMap) (es : List (Entry A W))
        → s < h.next
        → Channel g h s conns es
        → Channel g (new_signal h).0 s conns es
    unfolding new_signal
    new_signal-other s conns es lt ch = record {
      listed =
          subst (λ ps. All2 (Listed g (new_signal h).0 s conns) ps es)
            (sym (update-other h.signals h.next s [] (λ e. omega arith)))
            (All2-map (Listed g h s conns) (Listed g (new_signal h).0 s conns) (h.signals s) es
              (λ p e l. (omega (arith, l.0), l.1, l.2, l.3)) ch.listed);
      fits = λ j c e. let (p, is, lt, id, at) = ch.fits j c e in (p, is, omega arith, id, at);
    }

    -- A live slot stays one when another slot is made.
    Listed-connect :
        (s s' : ℕ) (conns conns' : ConnectionMap) (id : ℕ) (cb : Option (A → W → W)) (p : ℕ)
        (e : Entry A W)
        → conns' e.id ≡ conns e.id
        → Listed g h s' conns p e
        → Listed (own g h.next id s) (Signal.connect s cb h).0 s' conns' p e
    unfolding Signal.connect
    Listed-connect s s' conns conns' id cb p e same (lt, calls, at, of) =
        let ne : h.next ≢ p = λ eq. omega arith in
        (
          omega arith,
          subst (λ slot. (slot.connected ≡ true) × (slot.cb ≡ e.listener))
              (sym (update-other h.slots h.next p (new_slot cb) ne)) calls,
          same ∙ at,
          update-other g.signal_of h.next p s ne ∙ of,
        )

    Fits-connect :
        (s s' : ℕ) (conns : ConnectionMap) (id : ℕ) (cb : Option (A → W → W)) (j : ℕ)
        (c : Connection)
        → Fits g h s' conns
        → conns j ≡ some c
        → (p : ℕ) × (c ≡ connection p s')
          × (p < suc h.next)
          × ((own g h.next id s).id_of p ≡ j)
          × ((own g h.next id s).signal_of p ≡ s')
    Fits-connect s s' conns id cb j c fits at =
        let (p, is, lt, id', of) = fits j c at in
        let ne : h.next ≢ p = λ eq. omega arith in
        (
          p,
          is,
          omega arith,
          update-other g.id_of h.next p id ne ∙ id',
          update-other g.signal_of h.next p s ne ∙ of,
        )

    -- `Connect` puts the listener last, and leaves the other signals theirs.
    pub connect-Channel :
        (s : ℕ) (conns : ConnectionMap) (es : List (Entry A W)) (id : ℕ) (cb : Option (A → W → W))
        → Channel g h s conns es
        → Unused id es
        → Channel
            (own g h.next id s)
            (Signal.connect s cb h).0
            s
            (update conns id (some (connection h.next s)))
            (es ++ record { id = id; listener = cb } ∷ [])
    unfolding Signal.connect new_slot
    connect-Channel s conns es id cb ch free =
        let e : Entry A W = record { id = id; listener = cb } in
        let conns' = update conns id (some (connection h.next s)) in
        let After = Listed (own g h.next id s) (Signal.connect s cb h).0 s conns' in
        let old : All2 After (h.signals s) es =
          All2-map (λ p x. (x.id ≢ id) × Listed g h s conns p x) After (h.signals s) es
            (λ p x l.
              Listed-connect s s conns conns' id cb p x
                (update-other conns id x.id (some (connection h.next s)) (λ eq. l.0 (sym eq))) l.1)
            (All2-Unused (Listed g h s conns) id (h.signals s) es ch.listed free) in
        let new : After h.next e = (
          omega arith,
          subst (λ slot. (slot.connected ≡ true) × (slot.cb ≡ cb))
              (sym (update_self h.slots h.next (new_slot cb))) (refl, refl),
          update_self conns id (some (connection h.next s)),
          update_self g.signal_of h.next s,
        ) in
        record {
          listed =
              subst (λ ps. All2 After ps (es ++ e ∷ []))
                (sym (update_self h.signals s (h.signals s ++ h.next ∷ [])))
                (All2-snoc After (h.signals s) es h.next e old new);
          fits = λ j c at. elim (ℕ_discrete id j) [
            | yes same ↦
                let is : some (connection h.next s) ≡ some c =
                  sym (update_self conns id (some (connection h.next s))) ∙ ap conns' same ∙ at in
                (
                  h.next,
                  sym (some-injective (connection h.next s) c is),
                  omega arith,
                  update_self g.id_of h.next id ∙ same,
                  update_self g.signal_of h.next s,
                )
            | no other ↦
                Fits-connect s s conns id cb j c ch.fits
                  (sym (update-other conns id j (some (connection h.next s)) other) ∙ at)
          ];
        }

    pub connect-other :
        (s s' : ℕ) (conns : ConnectionMap) (es : List (Entry A W)) (id : ℕ)
        (cb : Option (A → W → W))
        → s ≢ s'
        → Channel g h s' conns es
        → Channel (own g h.next id s) (Signal.connect s cb h).0 s' conns es
    unfolding Signal.connect
    connect-other s s' conns es id cb ne ch =
        let After = Listed (own g h.next id s) (Signal.connect s cb h).0 s' conns in
        record {
          listed =
              subst (λ ps. All2 After ps es)
                (sym (update-other h.signals s s' (h.signals s ++ h.next ∷ []) ne))
                (All2-map (Listed g h s' conns) After (h.signals s') es
                  (λ p e l. Listed-connect s s' conns conns id cb p e refl l) ch.listed);
          fits = λ j c at. Fits-connect s s' conns id cb j c ch.fits at;
        }
