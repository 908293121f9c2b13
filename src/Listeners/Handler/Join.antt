-- ===== src/Listeners/Handler/Join.antt =====
-- `Connect` to a single sender.
use hnu_middleware.Base.{
  ℕ, ◌≡◌, ◌≢◌, refl, sym, ap, ◌∙◌, subst, Option, none, some, List, [], ◌∷◌, ◌++◌, update,
  update_self, update-other, ℕ_discrete, inl, inr, Option-cases, arith,
}
use mathlib.Core.Option.{some-injective, none-ne-some}
use hnu_middleware.Listeners.Signal
use hnu_middleware.Listeners.Signal.{
  Connection, Heap, connection, new_signal, new_slot, emit, is_connected, clear_disconnected_slots,
}
use hnu_middleware.Listeners.Signal.Laws.{Entry}
use hnu_middleware.Listeners.Handler
use hnu_middleware.Listeners.Handler.{Handler, ConnectionMap, no_conns, conns_of, new_handler}
use hnu_middleware.Listeners.Handler.Channel.{
  own, Channel, Unused, new_signal-Channel, new_signal-other, connect-Channel, connect-other,
}
use hnu_middleware.Listeners.Handler.Rep.{Rep, Sender, Sender-frame}
use hnu_middleware.Listeners.Handler.Senders.{Senders-update, signal-held}

module _ {A W : Type 0} where
  signal_of_none :
      (o : ℕ) (hd : Handler) (h : Heap A W)
      → hd.signals o ≡ none
      → Handler.signal_of o hd h
        ≡ ((record hd { signals = update hd.signals o (some h.next) }, (new_signal h).0), h.next)
  unfolding Handler.signal_of new_signal
  signal_of_none o hd h e = rw (e, Handler.signal_of) refl

  signal_of_some :
      (o : ℕ) (hd : Handler) (h : Heap A W) (s : ℕ)
      → hd.signals o ≡ some s
      → Handler.signal_of o hd h ≡ ((hd, h), s)
  unfolding Handler.signal_of
  signal_of_some o hd h s e = rw (e, Handler.signal_of) refl

  module _ (hd : Handler) (h : Heap A W) (als : List (Entry A W)) (frs : ℕ → List (Entry A W))
      (rep : Rep hd h als frs) where
    open rep use {owners, below, all, senders, distinct}

    added-Rep :
        (o : ℕ)
        → hd.signals o ≡ none
        → Rep (record hd { signals = update hd.signals o (some h.next) }) (new_signal h).0 als frs
    unfolding new_signal
    added-Rep o e =
        let sigs = update hd.signals o (some h.next) in
        let new = (new_signal h).0 in
        let old : (j s : ℕ) → o ≢ j → sigs j ≡ some s → hd.signals j ≡ some s =
          λ j s ne at. sym (update-other hd.signals o j (some h.next) ne) ∙ at in
        let new_is : (j s : ℕ) → o ≡ j → sigs j ≡ some s → h.next ≡ s = λ j s same at.
          some-injective h.next s
            (sym (update_self hd.signals o (some h.next)) ∙ ap sigs same ∙ at) in
        record {
          owners = owners;
          below = omega arith;
          all = new_signal-other owners h hd.signal hd.signal_conns als below all;
          senders = λ j. elim (ℕ_discrete o j) [
            | yes same ↦ elim (senders j) [
              | inl (absent, no_map, empty) ↦ inr (
                h.next,
                ap sigs (sym same) ∙ update_self hd.signals o (some h.next),
                omega arith,
                (λ eq. omega arith),
                subst (λ m. Channel owners new h.next m (frs j)) (sym no_map)
                    (subst (λ es. Channel owners new h.next no_conns es) (sym empty)
                      (new_signal-Channel owners h)),
              )
              | inr (s, at, lt, ne, ch) ↦ absurd (none-ne-some s (sym e ∙ ap hd.signals same ∙ at))
            ]
            | no other ↦
                subst
                  (λ sig. Sender owners new hd.signal sig (conns_of (hd.signals_conns j)) (frs j))
                  (sym (update-other hd.signals o j (some h.next) other))
                  (Sender-frame owners owners h new hd.signal (hd.signals j)
                    (conns_of (hd.signals_conns j)) (frs j) (omega arith)
                    (λ s at lt ne ch.
                      new_signal-other owners h s (conns_of (hd.signals_conns j)) (frs j) lt ch)
                    (senders j))
          ];
          distinct = λ j j' s at at'. elim (ℕ_discrete o j) [
            | yes same ↦ elim (ℕ_discrete o j') [
              | yes same' ↦ sym same ∙ same'
              | no other ↦
                  let lt = (signal-held hd h als frs rep j' s (old j' s other at')).0 in
                  let is : h.next ≡ s = new_is j s same at in absurd (omega arith)
            ]
            | no other ↦ elim (ℕ_discrete o j') [
              | yes same ↦
                  let lt = (signal-held hd h als frs rep j s (old j s other at)).0 in
                  let is : h.next ≡ s = new_is j' s same at' in absurd (omega arith)
              | no other' ↦ distinct j j' s (old j s other at) (old j' s other' at')
            ]
          ];
        }

    connected-Rep :
        (id o s : ℕ) (cb : Option (A → W → W))
        → hd.signals o ≡ some s
        → Unused id (frs o)
        → Rep
            (record hd {
              signals_conns =
                  update hd.signals_conns o
                    (some (update (conns_of (hd.signals_conns o)) id (some (connection h.next s))));
            })
            (Signal.connect s cb h).0
            als
            (update frs o (frs o ++ record { id = id; listener = cb } ∷ []))
    unfolding Signal.connect
    connected-Rep id o s cb e free =
        let (lt, ne, ch) = signal-held hd h als frs rep o s e in
        let g' = own owners h.next id s in
        let h' = (Signal.connect s cb h).0 in
        let conns = conns_of (hd.signals_conns o) in
        record {
          owners = g';
          below = omega arith;
          all =
              connect-other owners h s hd.signal hd.signal_conns als id cb (λ eq. ne (sym eq)) all;
          senders =
              Senders-update g' h' hd.signal hd.signals hd.signals_conns frs o
                (update conns id (some (connection h.next s)))
                (frs o ++ record { id = id; listener = cb } ∷ [])
                (inr
                  (s, e, omega arith, ne, connect-Channel owners h s conns (frs o) id cb ch free))
                (λ j other.
                  Sender-frame owners g' h h' hd.signal (hd.signals j)
                    (conns_of (hd.signals_conns j)) (frs j) (omega arith)
                    (λ s' at lt' ne'.
                      connect-other owners h s s' (conns_of (hd.signals_conns j)) (frs j) id cb
                        (λ eq. other (distinct o j s' (e ∙ ap some eq) at)))
                    (senders j));
          distinct = distinct;
        }

  -- What `Connect` leaves, from what it found or made.
  abbrev Joined :
      List (Entry A W)
      → (ℕ → List (Entry A W))
      → ℕ
      → ℕ
      → Option (A → W → W)
      → (Handler × Heap A W) × ℕ
      → Type 0
  Joined als frs id o cb r =
      Rep
        (record r.0.0 {
          signals_conns = update r.0.0.signals_conns o (
              some
                (update (conns_of (r.0.0.signals_conns o)) id (some (connection r.0.1.next r.1))));
        })
        (Signal.connect r.1 cb r.0.1).0 als
        (update frs o (frs o ++ record { id = id; listener = cb } ∷ []))

  pub connect_one-Rep :
      (hd : Handler) (h : Heap A W) (als : List (Entry A W)) (frs : ℕ → List (Entry A W)) (id o : ℕ)
      (cb : Option (A → W → W))
      → Rep hd h als frs
      → Unused id (frs o)
      → Rep
          (Handler.connect_to id o cb hd h).0
          (Handler.connect_to id o cb hd h).1
          als
          (update frs o (frs o ++ record { id = id; listener = cb } ∷ []))
  unfolding Handler.connect_to Signal.connect
  connect_one-Rep hd h als frs id o cb rep free = elim (Option-cases (hd.signals o)) [
    | inl e ↦ subst (Joined als frs id o cb) (sym (signal_of_none o hd h e)) (
        connected-Rep (record hd { signals = update hd.signals o (some h.next) }) (new_signal h).0
          als frs (added-Rep hd h als frs rep o e) id o h.next cb
          (update_self hd.signals o (some h.next)) free)
    | inr (s, e) ↦
        subst (Joined als frs id o cb) (sym (signal_of_some o hd h s e))
          (connected-Rep hd h als frs rep id o s cb e free)
  ]
