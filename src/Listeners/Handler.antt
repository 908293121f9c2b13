-- ===== src/Listeners/Handler.antt =====
-- `ListenerHandler` of `transport/message/listener_handler.h`, on the heap of its signals, one call
-- at a time: `rw_lock_` is not modelled.
use hnu_middleware.Base.{ℕ, Bool, Option, none, some, List, [], if◌then◌else◌, update, ℕ_discrete}
use hnu_middleware.Listeners.Signal
use hnu_middleware.Listeners.Signal.{Connection, Heap, new_signal, emit, is_connected}
pub mod Channel
pub mod Cut
pub mod Promise
pub mod Rep
pub mod All
pub mod Calls
pub mod Senders
pub mod Join
pub mod Leave
pub mod Refine

-- `ConnectionMap`, an `unordered_map`
abbrev pub ConnectionMap : Type 0
ConnectionMap = ℕ → Option Connection

-- `signal_` is the address of the signal of all senders, and the values of `signals_` are those
-- of one sender each.
pub record Handler : Type 0 where
  pub signal : ℕ
  pub signal_conns : ConnectionMap
  pub signals : ℕ → Option ℕ
  pub signals_conns : ℕ → Option ConnectionMap

abbrev pub no_conns : ConnectionMap
no_conns j = none

-- `signals_conns_[oppo_id]`, with the empty map where it has none
unfoldable pub conns_of : Option ConnectionMap → ConnectionMap
conns_of none = no_conns
conns_of (some conns) = conns

module _ {A W : Type 0} where
  -- `ListenerHandler()`
  unfoldable pub new_handler : Heap A W → Heap A W × Handler
  unfolding new_signal
  new_handler h =
      let (h', s) = new_signal h in
      (
        h',
        record {
          signal = s;
          signal_conns = no_conns;
          signals = λ oppo_id. none;
          signals_conns = λ oppo_id. none;
        },
      )

  -- `Connect(self_id, listener)`
  unfoldable pub connect : ℕ → Option (A → W → W) → Handler → Heap A W → Handler × Heap A W
  connect self_id listener hd h =
      let (h', c) = Signal.connect hd.signal listener h in
      if is_connected c h'
      then (record hd { signal_conns = update hd.signal_conns self_id (some c) }, h')
      else (hd, h')

  -- `signals_[oppo_id]`, made where it is missing
  unfoldable pub signal_of : ℕ → Handler → Heap A W → (Handler × Heap A W) × ℕ
  unfolding new_signal
  signal_of oppo_id hd h = elim (hd.signals oppo_id) [
    | none ↦
        let (h', s) = new_signal h in
        ((record hd { signals = update hd.signals oppo_id (some s) }, h'), s)
    | some s ↦ ((hd, h), s)
  ]

  -- `Connect(self_id, oppo_id, listener)`: a connection that failed is only printed.
  unfoldable pub connect_to : ℕ → ℕ → Option (A → W → W) → Handler → Heap A W → Handler × Heap A W
  unfolding signal_of conns_of
  connect_to self_id oppo_id listener hd h =
      let ((hd', h'), s) = signal_of oppo_id hd h in
      let (h'', c) = Signal.connect s listener h' in
      (
        record hd' {
          signals_conns =
              update hd'.signals_conns oppo_id
                (some (update (conns_of (hd'.signals_conns oppo_id)) self_id (some c)));
        },
        h'',
      )

  -- `Disconnect(self_id)`
  unfoldable pub disconnect : ℕ → Handler → Heap A W → Handler × Heap A W
  disconnect self_id hd h = elim (hd.signal_conns self_id) [
    | none ↦ (hd, h)
    | some c ↦ (
      record hd { signal_conns = update hd.signal_conns self_id none },
      (Signal.disconnect c h).0,
    )
  ]

  -- `Disconnect(self_id, oppo_id)`
  unfoldable pub disconnect_from : ℕ → ℕ → Handler → Heap A W → Handler × Heap A W
  disconnect_from self_id oppo_id hd h = elim (hd.signals_conns oppo_id) [
    | none ↦ (hd, h)
    | some conns ↦ elim (conns self_id) [
      | none ↦ (hd, h)
      | some c ↦ (
        record hd {
          signals_conns = update hd.signals_conns oppo_id (some (update conns self_id none));
        },
        (Signal.disconnect c h).0,
      )
    ]
  ]

  -- `Run(msg, msg_info)`, for the hash value of `msg_info.sender_id()`
  unfoldable pub run : ℕ → A → Handler → Heap A W → W → Heap A W × W
  unfolding emit
  run oppo_id msg hd h w =
      let (h', w') = emit hd.signal msg h w in
      elim (hd.signals oppo_id) [ none ↦ (h', w') | some s ↦ emit s msg h' w' ]
