-- ===== src/Listeners/Handler/Rep.antt =====
-- The relation of a listener handler and its heap to the lists of listeners it stands for.
use hnu_middleware.Base.{
  ℕ, ◌≤◌, ◌<◌, ◌≡◌, ◌≢◌, refl, ap, Option, none, some, List, [], if◌then◌else◌, update, update_self,
  ◌⊎◌, inl, inr, arith,
}
use hnu_middleware.Listeners.Signal
use hnu_middleware.Listeners.Signal.{
  Connection, Heap, connection, new_signal, new_slot, emit, is_connected, clear_disconnected_slots,
}
use hnu_middleware.Listeners.Signal.Laws.{Entry}
use hnu_middleware.Listeners.Handler
use hnu_middleware.Listeners.Handler.{Handler, ConnectionMap, no_conns, conns_of, new_handler}
use hnu_middleware.Listeners.Handler.Channel.{Owners, Channel}

module _ {A W : Type 0} where
  -- A sender without a signal has no listeners of its own; a signal holds its sender's.
  abbrev pub Sender : Owners → Heap A W → ℕ → Option ℕ → ConnectionMap → List (Entry A W) → Type 0
  Sender g h base sig conns es =
      ((sig ≡ none) × (conns ≡ no_conns) × (es ≡ []))
      ⊎ ((s : ℕ) × (sig ≡ some s) × (s < h.next) × (base ≢ s) × Channel g h s conns es)

  pub record Rep (hd : Handler) (h : Heap A W) (of_all : List (Entry A W))
      (of_sender : ℕ → List (Entry A W)) : Type 0 where
    pub owners : Owners
    pub below : hd.signal < h.next
    pub all : Channel owners h hd.signal hd.signal_conns of_all
    pub senders :
        (o : ℕ)
        → Sender owners h hd.signal (hd.signals o) (conns_of (hd.signals_conns o)) (of_sender o)
    pub distinct : (o o' s : ℕ) → hd.signals o ≡ some s → hd.signals o' ≡ some s → o ≡ o'

  -- A change that spares the signal of a sender spares the sender.
  pub Sender-frame :
      (g g' : Owners) (h h' : Heap A W) (base : ℕ) (sig : Option ℕ) (conns : ConnectionMap)
      (es : List (Entry A W))
      → h.next ≤ h'.next
      → ((s : ℕ)
          → sig ≡ some s
          → s < h.next
          → base ≢ s
          → Channel g h s conns es
          → Channel g' h' s conns es)
      → Sender g h base sig conns es
      → Sender g' h' base sig conns es
  Sender-frame g g' h h' base sig conns es le keep (inl none_yet) = inl none_yet
  Sender-frame g g' h h' base sig conns es le keep (inr (s, at, lt, ne, ch)) =
      inr (s, at, omega arith, ne, keep s at lt ne ch)

  pub connect_eq :
      (id : ℕ) (cb : Option (A → W → W)) (hd : Handler) (h : Heap A W)
      → Handler.connect id cb hd h ≡ (
        record hd { signal_conns = update hd.signal_conns id (some (connection h.next hd.signal)) },
        (Signal.connect hd.signal cb h).0,
      )
  unfolding Handler.connect Signal.connect is_connected connection
  connect_eq id cb hd h =
      ap
        (λ slot.
          if slot.connected
          then (
            record hd {
              signal_conns = update hd.signal_conns id (some (connection h.next hd.signal));
            },
            (Signal.connect hd.signal cb h).0,
          )
          else (hd, (Signal.connect hd.signal cb h).0))
        (update_self h.slots h.next (new_slot cb))

  pub disconnect-none :
      (id : ℕ) (hd : Handler) (h : Heap A W)
      → hd.signal_conns id ≡ none
      → Handler.disconnect id hd h ≡ (hd, h)
  unfolding Handler.disconnect
  disconnect-none id hd h e = rw (e, Handler.disconnect) refl

  pub disconnect-some :
      (id : ℕ) (hd : Handler) (h : Heap A W) (c : Connection)
      → hd.signal_conns id ≡ some c
      → Handler.disconnect id hd h
        ≡ (record hd { signal_conns = update hd.signal_conns id none }, (Signal.disconnect c h).0)
  unfolding Handler.disconnect
  disconnect-some id hd h c e = rw (e, Handler.disconnect) refl

  pub run-none :
      (o : ℕ) (a : A) (hd : Handler) (h : Heap A W) (w : W)
      → hd.signals o ≡ none
      → Handler.run o a hd h w ≡ emit hd.signal a h w
  unfolding Handler.run
  run-none o a hd h w e = rw (e, Handler.run) refl

  pub run-some :
      (o : ℕ) (a : A) (hd : Handler) (h : Heap A W) (w : W) (s : ℕ)
      → hd.signals o ≡ some s
      → Handler.run o a hd h w ≡ emit s a (emit hd.signal a h w).0 (emit hd.signal a h w).1
  unfolding Handler.run
  run-some o a hd h w s e = rw (e, Handler.run) refl
