-- ===== src/Listeners/Handler/All.antt =====
-- The operations of a listener handler on the signal of all senders.
use hnu_middleware.Base.{
  ℕ, ◌<◌, ◌≡◌, sym, ap, ◌∙◌, subst, Option, some, List, [], ◌∷◌, ◌++◌, inl, inr, Option-cases,
  arith,
}
use hnu_middleware.Listeners.Signal
use hnu_middleware.Listeners.Signal.{
  Connection, Heap, connection, new_signal, new_slot, emit, is_connected, clear_disconnected_slots,
}
use hnu_middleware.Listeners.Signal.Laws.{Entry, call_entries, remove}
use hnu_middleware.Listeners.Handler
use hnu_middleware.Listeners.Handler.{Handler, ConnectionMap, no_conns, conns_of, new_handler}
use hnu_middleware.Listeners.Handler.Channel.{own, Channel, Unused, connect-Channel, connect-other}
use hnu_middleware.Listeners.Handler.Calls.{emit-call, emit-Channel}
use hnu_middleware.Listeners.Handler.Cut.{
  disconnect-Channel, disconnect-other, disconnect-next, remove_missing,
}
use hnu_middleware.Listeners.Handler.Rep.{
  Rep, Sender-frame, connect_eq, disconnect-none, disconnect-some, run-none, run-some,
}

module _ {A W : Type 0} where
  module _ (hd : Handler) (h : Heap A W) (als : List (Entry A W)) (frs : ℕ → List (Entry A W))
      (rep : Rep hd h als frs) where
    open rep use {owners, below, all, senders, distinct}

    pub connect_all-Rep :
        (id : ℕ) (cb : Option (A → W → W))
        → Unused id als
        → Rep
            (Handler.connect id cb hd h).0
            (Handler.connect id cb hd h).1
            (als ++ record { id = id; listener = cb } ∷ [])
            frs
    unfolding Signal.connect
    connect_all-Rep id cb free =
        subst (λ r. Rep r.0 r.1 (als ++ record { id = id; listener = cb } ∷ []) frs)
          (sym (connect_eq id cb hd h))
          record {
            owners = own owners h.next id hd.signal;
            below = omega arith;
            all = connect-Channel owners h hd.signal hd.signal_conns als id cb all free;
            senders = λ o.
                Sender-frame owners (own owners h.next id hd.signal) h
                  (Signal.connect hd.signal cb h).0 hd.signal (hd.signals o)
                  (conns_of (hd.signals_conns o)) (frs o) (omega arith)
                  (λ s at lt ne.
                    connect-other owners h hd.signal s (conns_of (hd.signals_conns o)) (frs o) id cb
                      ne)
                  (senders o);
            distinct = distinct;
          }

    pub leave_all-Rep :
        (id : ℕ)
        → Rep (Handler.disconnect id hd h).0 (Handler.disconnect id hd h).1 (remove id als) frs
    leave_all-Rep id = elim (Option-cases (hd.signal_conns id)) [
      | inl e ↦
          subst (λ r. Rep r.0 r.1 (remove id als) frs) (sym (disconnect-none id hd h e))
            (subst (λ es. Rep hd h es frs)
              (sym (
                remove_missing owners h hd.signal hd.signal_conns id (h.signals hd.signal) als e
                  all.listed))
              rep)
      | inr (c, e) ↦
          let (p, is, lt, id', of) = all.fits id c e in
          let at : hd.signal_conns id ≡ some (connection p hd.signal) = e ∙ ap some is in
          let k = (Signal.disconnect (connection p hd.signal) h).0 in
          let next : k.next ≡ h.next = disconnect-next owners h p hd.signal in
          subst (λ r. Rep r.0 r.1 (remove id als) frs)
            (sym (disconnect-some id hd h (connection p hd.signal) at))
            record {
              owners = owners;
              below = subst (λ n. hd.signal < n) (sym next) below;
              all = disconnect-Channel owners h hd.signal hd.signal_conns id p at als all;
              senders = λ o.
                  Sender-frame owners owners h k hd.signal (hd.signals o)
                    (conns_of (hd.signals_conns o)) (frs o) (omega (arith, next))
                    (λ s held lt' ne.
                      disconnect-other owners h hd.signal s (conns_of (hd.signals_conns o)) p
                        (frs o) ne of)
                    (senders o);
              distinct = distinct;
            }
    ]

    emit-Rep :
        (s : ℕ) (conns : ConnectionMap) (es : List (Entry A W)) (a : A) (w : W)
        → Channel owners h s conns es
        → Rep hd (emit s a h w).0 als frs
    unfolding emit clear_disconnected_slots
    emit-Rep s conns es a w ch = record {
      owners = owners;
      below = below;
      all = emit-Channel owners h s hd.signal conns hd.signal_conns es als a w ch all;
      senders = λ o.
          Sender-frame owners owners h (emit s a h w).0 hd.signal (hd.signals o)
            (conns_of (hd.signals_conns o)) (frs o) (omega arith)
            (λ s' held lt ne.
              emit-Channel owners h s s' conns (conns_of (hd.signals_conns o)) es (frs o) a w ch)
            (senders o);
      distinct = distinct;
    }

  pub message-Rep :
      (hd : Handler) (h : Heap A W) (als : List (Entry A W)) (frs : ℕ → List (Entry A W)) (o : ℕ)
      (a : A) (w : W)
      → Rep hd h als frs
      → Rep hd (Handler.run o a hd h w).0 als frs
        × ((Handler.run o a hd h w).1 ≡ call_entries (frs o) a (call_entries als a w))
  unfolding call_entries
  message-Rep hd h als frs o a w rep =
      let first = emit-Rep hd h als frs rep hd.signal hd.signal_conns als a w rep.all in
      let said : (emit hd.signal a h w).1 ≡ call_entries als a w =
        emit-call rep.owners h hd.signal hd.signal_conns als a w rep.all in
      elim (first.senders o) [
        | inl (absent, _, empty) ↦
            let same = run-none o a hd h w absent in
            (
              subst (λ r. Rep hd r.0 als frs) (sym same) first,
              ap (λ r. r.1) same
                  ∙ said
                  ∙ ap (λ es. call_entries es a (call_entries als a w)) (sym empty),
            )
        | inr (s, at, lt, ne, ch) ↦
            let same = run-some o a hd h w s at in
            let h' = (emit hd.signal a h w).0 in
            let w' = (emit hd.signal a h w).1 in
            (
              subst (λ r. Rep hd r.0 als frs) (sym same)
                  (emit-Rep hd h' als frs first s (conns_of (hd.signals_conns o)) (frs o) a w' ch),
              ap (λ r. r.1) same
                  ∙ emit-call first.owners h' s (conns_of (hd.signals_conns o)) (frs o) a w' ch
                  ∙ ap (λ v. call_entries (frs o) a v) said,
            )
      ]
