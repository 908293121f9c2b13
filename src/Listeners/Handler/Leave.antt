-- ===== src/Listeners/Handler/Leave.antt =====
-- `Disconnect` from a single sender.
use hnu_middleware.Base.{
  ℕ, ◌<◌, ◌≡◌, ◌≢◌, refl, sym, ap, ◌∙◌, subst, none, some, List, update, update_self, update-other,
  ℕ_discrete, inl, inr, Option-cases, arith,
}
use mathlib.Core.Option.{none-ne-some}
use hnu_middleware.Listeners.Signal
use hnu_middleware.Listeners.Signal.{
  Connection, Heap, connection, new_signal, new_slot, emit, is_connected, clear_disconnected_slots,
}
use hnu_middleware.Listeners.Signal.Laws.{Entry, remove}
use hnu_middleware.Listeners.Handler
use hnu_middleware.Listeners.Handler.{Handler, ConnectionMap, no_conns, conns_of, new_handler}
use hnu_middleware.Listeners.Handler.Channel.{Channel}
use hnu_middleware.Listeners.Handler.Cut.{
  disconnect-Channel, disconnect-other, disconnect-next, remove_missing,
}
use hnu_middleware.Listeners.Handler.Rep.{Rep, Sender, Sender-frame}
use hnu_middleware.Listeners.Handler.Senders.{Senders-update}

module _ {A W : Type 0} where
  disconnect_from-none :
      (id o : ℕ) (hd : Handler) (h : Heap A W)
      → conns_of (hd.signals_conns o) id ≡ none
      → Handler.disconnect_from id o hd h ≡ (hd, h)
  unfolding Handler.disconnect_from conns_of
  disconnect_from-none id o hd h e = elim (Option-cases (hd.signals_conns o)) [
    | inl m ↦ rw (m, Handler.disconnect_from) refl
    | inr (conns, m) ↦
        let found : conns id ≡ none = ap (λ k. conns_of k id) (sym m) ∙ e in
        rw (m, Handler.disconnect_from, found) refl
  ]

  disconnect_from-some :
      (id o : ℕ) (hd : Handler) (h : Heap A W) (c : Connection)
      → conns_of (hd.signals_conns o) id ≡ some c
      → Handler.disconnect_from id o hd h ≡ (
        record hd {
          signals_conns =
              update hd.signals_conns o (some (update (conns_of (hd.signals_conns o)) id none));
        },
        (Signal.disconnect c h).0,
      )
  unfolding Handler.disconnect_from conns_of
  disconnect_from-some id o hd h c e = elim (Option-cases (hd.signals_conns o)) [
    | inl m ↦
        let found : none ≡ some c = ap (λ k. conns_of k id) (sym m) ∙ e in
        absurd (none-ne-some c found)
    | inr (conns, m) ↦
        let found : conns id ≡ some c = ap (λ k. conns_of k id) (sym m) ∙ e in
        rw (m, Handler.disconnect_from, found) refl
  ]

  module _ (hd : Handler) (h : Heap A W) (als : List (Entry A W)) (frs : ℕ → List (Entry A W))
      (rep : Rep hd h als frs) where
    open rep use {owners, below, all, senders, distinct}

    -- An id that is not connected to the sender has no listener of it.
    nobody_left :
        (id o j : ℕ)
        → conns_of (hd.signals_conns o) id ≡ none
        → frs j ≡ update frs o (remove id (frs o)) j
    unfolding remove
    nobody_left id o j e =
        let kept : remove id (frs o) ≡ frs o = elim (senders o) [
          | inl (_, _, empty) ↦ ap (remove id) empty ∙ sym empty
          | inr (s, at, lt, ne, ch) ↦
              remove_missing owners h s (conns_of (hd.signals_conns o)) id (h.signals s) (frs o) e
                ch.listed
        ] in
        elim (ℕ_discrete o j) [
          | yes same ↦
              ap frs (sym same)
              ∙ sym kept
              ∙ sym (update_self frs o (remove id (frs o)))
              ∙ ap (update frs o (remove id (frs o))) same
          | no other ↦ sym (update-other frs o j (remove id (frs o)) other)
        ]

    left-Rep :
        (id o : ℕ) (c : Connection)
        → conns_of (hd.signals_conns o) id ≡ some c
        → Rep
            (record hd {
              signals_conns =
                  update hd.signals_conns o (some (update (conns_of (hd.signals_conns o)) id none));
            })
            (Signal.disconnect c h).0
            als
            (update frs o (remove id (frs o)))
    left-Rep id o c e =
        let conns = conns_of (hd.signals_conns o) in
        elim (senders o) [
          | inl (_, no_map, _) ↦ absurd (none-ne-some c (sym (ap (λ m. m id) no_map) ∙ e))
          | inr (s, held, lt, ne, ch) ↦
              let (p, is, lt', id', of) = ch.fits id c e in
              let k = (Signal.disconnect (connection p s) h).0 in
              let next : k.next ≡ h.next = disconnect-next owners h p s in
              let spared : (s' : ℕ) (m : ConnectionMap) (es : List (Entry A W))
                  → s ≢ s'
                  → Channel owners h s' m es
                  → Channel owners k s' m es =
                λ s' m es apart. disconnect-other owners h s s' m p es apart of in
              subst
                (λ x.
                  Rep
                    (record hd {
                      signals_conns = update hd.signals_conns o (some (update conns id none));
                    })
                    (Signal.disconnect x h).0 als (update frs o (remove id (frs o))))
                (sym is)
                record {
                  owners = owners;
                  below = subst (λ n. hd.signal < n) (sym next) below;
                  all = spared hd.signal hd.signal_conns als (λ eq. ne (sym eq)) all;
                  senders =
                      Senders-update owners k hd.signal hd.signals hd.signals_conns frs o
                        (update conns id none) (remove id (frs o))
                        (inr (
                          s,
                          held,
                          subst (λ n. s < n) (sym next) lt,
                          ne,
                          disconnect-Channel owners h s conns id p (e ∙ ap some is) (frs o) ch,
                        ))
                        (λ j other.
                          Sender-frame owners owners h k hd.signal (hd.signals j)
                            (conns_of (hd.signals_conns j)) (frs j) (omega (arith, next))
                            (λ s' at lt'' ne'.
                              spared s' (conns_of (hd.signals_conns j)) (frs j)
                                (λ eq. other (distinct o j s' (held ∙ ap some eq) at)))
                            (senders j));
                  distinct = distinct;
                }
        ]

    pub leave_one-Rep :
        (id o : ℕ)
        → Rep
            (Handler.disconnect_from id o hd h).0
            (Handler.disconnect_from id o hd h).1
            als
            (update frs o (remove id (frs o)))
    leave_one-Rep id o =
        let conns = conns_of (hd.signals_conns o) in
        elim (Option-cases (conns id)) [
          | inl e ↦
              subst (λ r. Rep r.0 r.1 als (update frs o (remove id (frs o))))
                (sym (disconnect_from-none id o hd h e))
                record {
                  owners = owners;
                  below = below;
                  all = all;
                  senders = λ j.
                      subst
                        (Sender owners h hd.signal (hd.signals j) (conns_of (hd.signals_conns j)))
                        (nobody_left id o j e) (senders j);
                  distinct = distinct;
                }
          | inr (c, e) ↦
              subst (λ r. Rep r.0 r.1 als (update frs o (remove id (frs o))))
                (sym (disconnect_from-some id o hd h c e)) (left-Rep id o c e)
        ]
