-- ===== src/Listeners/Dispatcher.antt =====
-- `Dispatcher` (transport/dispatcher/dispatcher.h, transport/dispatcher/dispatcher.cpp), and what
-- `ShmDispatcher::OnMessage` (transport/dispatcher/shm_dispatcher.cpp) does with it. A message type is a
-- number. The signals of different handlers share no slot, so each handler has a heap of its own.
use hnu_middleware.Base.{ℕ, suc, Bool, true, false, Option, none, some, ◌==◌, if◌then◌else◌, update}
use hnu_middleware.HashMap.Table
use hnu_middleware.HashMap.Table.{Table}
use hnu_middleware.Transport.Attributes.{RoleAttributes}
use hnu_middleware.Listeners.Signal.{Heap, Slot}
use hnu_middleware.Listeners.Handler
use hnu_middleware.Listeners.Handler.{Handler, new_handler}
pub mod Promise
pub mod Channels
pub mod Grow
pub mod Messages
pub mod Refine

-- A `ListenerHandler<MessageT>`, with the signals it owns
pub record Object (A W : Type 0) : Type 0 where
  pub message_type : ℕ
  pub handler : Handler
  pub heap : Heap A W

-- The handlers by address, with the next address.
pub record Dispatcher (A W : Type 0) : Type 0 where
  pub is_shutdown : Bool
  pub msg_listeners : Table ℕ
  pub objects : ℕ → Object A W
  pub next : ℕ

module _ {A W : Type 0} (table_size : ℕ) where
  -- `Dispatcher()`, before any handler is made
  unfoldable pub new_dispatcher : (ℕ → Object A W) → Dispatcher A W
  new_dispatcher objects = record {
    is_shutdown = false;
    msg_listeners = Table.empty;
    objects = objects;
    next = 0;
  }

  unfoldable pub shutdown : Dispatcher A W → Dispatcher A W
  shutdown d = record d { is_shutdown = true }

  unfoldable pub has_channel : ℕ → Dispatcher A W → Bool
  has_channel channel_id d = Table.has table_size channel_id d.msg_listeners

  abbrev pub lookup : ℕ → Dispatcher A W → Option ℕ
  lookup channel_id d = Table.get table_size channel_id d.msg_listeners

  -- The change of one handler through its pointer
  abbrev pub replace : ℕ → Handler × Heap A W → Dispatcher A W → Dispatcher A W
  replace p r d = record d {
    objects = update d.objects p (record (d.objects p) { handler = r.0; heap = r.1 });
  }

  -- `new ListenerHandler<MessageT>()`, and its `Set` in the map
  unfoldable pub make_handler : ℕ → ℕ → Heap A W → Dispatcher A W → Dispatcher A W
  unfolding new_handler
  make_handler message_type channel_id fresh d =
      let (h, hd) = new_handler fresh in
      record d {
        objects =
            update d.objects d.next
              (record { message_type = message_type; handler = hd; heap = h });
        msg_listeners = Table.set table_size channel_id d.next d.msg_listeners;
        next = suc d.next;
      }

  -- What the two `AddListener` share: `connect` of the channel's handler, made where there is none and
  -- left alone where it is of another type.
  abbrev pub add :
      ℕ → ℕ → Heap A W → (Handler → Heap A W → Handler × Heap A W) → Dispatcher A W → Dispatcher A W
  add message_type channel_id fresh connect d = elim (lookup channel_id d) [
    | none ↦
        let d' = make_handler message_type channel_id fresh d in
        let o = d'.objects d.next in replace d.next (connect o.handler o.heap) d'
    | some p ↦
        let o = d.objects p in
        if o.message_type == message_type then replace p (connect o.handler o.heap) d else d
  ]

  -- `AddListener<MessageT>(self_attr, listener)`
  unfoldable pub add_listener :
      ℕ → RoleAttributes → Option (A → W → W) → Heap A W → Dispatcher A W → Dispatcher A W
  unfolding make_handler
  add_listener message_type self_attr listener fresh d =
      if d.is_shutdown
      then d
      else add message_type self_attr.channel_id fresh (Handler.connect self_attr.id listener) d

  -- `AddListener<MessageT>(self_attr, opposite_attr, listener)`
  unfoldable pub add_listener_to :
      ℕ
      → RoleAttributes
      → RoleAttributes
      → Option (A → W → W)
      → Heap A W
      → Dispatcher A W
      → Dispatcher A W
  unfolding make_handler
  add_listener_to message_type self_attr opposite_attr listener fresh d =
      if d.is_shutdown
      then d
      else add message_type self_attr.channel_id fresh
          (Handler.connect_to self_attr.id opposite_attr.id listener) d

  -- What the two `RemoveListener` share
  abbrev pub drop_from :
      ℕ → (Handler → Heap A W → Handler × Heap A W) → Dispatcher A W → Dispatcher A W
  drop_from channel_id disconnect d = elim (lookup channel_id d) [
    | none ↦ d
    | some p ↦ let o = d.objects p in replace p (disconnect o.handler o.heap) d
  ]

  -- `RemoveListener<MessageT>(self_attr)`
  unfoldable pub remove_listener : RoleAttributes → Dispatcher A W → Dispatcher A W
  remove_listener self_attr d =
      if d.is_shutdown
      then d
      else drop_from self_attr.channel_id (Handler.disconnect self_attr.id) d

  -- `RemoveListener<MessageT>(self_attr, opposite_attr)`
  unfoldable pub remove_listener_from :
      RoleAttributes → RoleAttributes → Dispatcher A W → Dispatcher A W
  remove_listener_from self_attr opposite_attr d =
      if d.is_shutdown
      then d
      else drop_from self_attr.channel_id (Handler.disconnect_from self_attr.id opposite_attr.id) d

  -- The call of a channel's handler as one of the type `ReadableBlock`: `none` where the cast
  -- gives a null pointer, through which `Run` is called.
  unfoldable pub run_handler : ℕ → ℕ → ℕ → A → Dispatcher A W → W → Option (Dispatcher A W × W)
  run_handler readable_block channel_id oppo_id args d w = elim (lookup channel_id d) [
    | none ↦ some (d, w)
    | some p ↦
        let o = d.objects p in
        let (h, w') = Handler.run oppo_id args o.handler o.heap w in
        if o.message_type == readable_block then some (replace p (o.handler, h) d, w') else none
  ]

  -- `ShmDispatcher::OnMessage`, for the hash value of the sender
  unfoldable pub on_message : ℕ → ℕ → ℕ → A → Dispatcher A W → W → Option (Dispatcher A W × W)
  unfolding run_handler
  on_message readable_block channel_id oppo_id args d w =
      let called = run_handler readable_block channel_id oppo_id args d w in
      if d.is_shutdown then some (d, w) else called
