-- ===== src/Listeners/Signal.antt =====
-- `base/signal.h`: `Slot`, `Connection` and `Signal`, with the pointers that share the slots.
-- `A` are the arguments of a call and `W` is what the callbacks change; a callback that connects
-- or disconnects is not in the model.
use hnu_middleware.Base.{
  ℕ, suc, Bool, true, false, Option, none, some, List, [], ◌∷◌, ◌++◌, ◌==◌, if◌then◌else◌, update,
}
pub mod Laws
pub mod Found

-- `Slot`: `cb_` may be an empty `std::function`.
pub record Slot (A W : Type 0) : Type 0 where
  pub cb : Option (A → W → W)
  pub connected : Bool

-- `Connection`: both pointers may be null.
pub record Connection : Type 0 where
  pub slot : Option ℕ
  pub signal : Option ℕ

-- The slots by address, `slots_` of every signal by the signal's address, and the next address.
pub record Heap (A W : Type 0) : Type 0 where
  pub slots : ℕ → Slot A W
  pub signals : ℕ → List ℕ
  pub next : ℕ

-- `Connection(slot, this)`
unfoldable pub connection : ℕ → ℕ → Connection
connection p s = record { slot = some p; signal = some s }

-- `Connection::HasSlot`, for a slot that is not null
unfoldable pub has_slot : Connection → ℕ → Bool
has_slot c p = elim c.slot [ none ↦ false | some q ↦ q == p ]

module _ {A W : Type 0} where
  -- `Slot(cb)`
  unfoldable pub new_slot : Option (A → W → W) → Slot A W
  new_slot cb = record { cb = cb; connected = true }

  unfoldable pub call_cb : Option (A → W → W) → A → W → W
  call_cb none a w = w
  call_cb (some f) a w = f a w

  -- `Slot::operator()`
  unfoldable pub call : Slot A W → A → W → W
  unfolding call_cb
  call slot a w = if slot.connected then call_cb slot.cb a w else w

  -- `Slot::Disconnect`
  unfoldable pub disconnect_slot : Slot A W → Slot A W
  disconnect_slot slot = record slot { connected = false }

  -- `make_shared<MessageSignal>()`, with the address it gives
  unfoldable pub new_signal : Heap A W → Heap A W × ℕ
  new_signal h = (record h { signals = update h.signals h.next []; next = suc h.next }, h.next)

  -- The loop of `operator()` over its copy of the list
  unfoldable pub call_all : (ℕ → Slot A W) → List ℕ → A → W → W
  unfolding call
  call_all slots [] a w = w
  call_all slots (p ∷ ps) a w = call_all slots ps a (call (slots p) a w)

  -- What `remove_if` and `erase` leave of the list
  unfoldable pub connected_only : (ℕ → Slot A W) → List ℕ → List ℕ
  connected_only slots [] = []
  connected_only slots (p ∷ ps) =
      let rest = connected_only slots ps in if (slots p).connected then p ∷ rest else rest

  -- `ClearDisconnectedSlots`
  unfoldable pub clear_disconnected_slots : ℕ → Heap A W → Heap A W
  unfolding connected_only
  clear_disconnected_slots s h = record h {
    signals = update h.signals s (connected_only h.slots (h.signals s));
  }

  -- `Signal::operator()`
  unfoldable pub emit : ℕ → A → Heap A W → W → Heap A W × W
  unfolding call_all clear_disconnected_slots
  emit s a h w = (clear_disconnected_slots s h, call_all h.slots (h.signals s) a w)

  -- `Signal::Connect`
  unfoldable pub connect : ℕ → Option (A → W → W) → Heap A W → Heap A W × Connection
  unfolding new_slot connection
  connect s cb h = (
    record {
      slots = update h.slots h.next (new_slot cb);
      signals = update h.signals s (h.signals s ++ h.next ∷ []);
      next = suc h.next;
    },
    connection h.next s,
  )

  -- `Connection::IsConnected`
  unfoldable pub is_connected : Connection → Heap A W → Bool
  is_connected c h = elim c.slot [ none ↦ false | some p ↦ (h.slots p).connected ]

  -- The loop of `Signal::Disconnect`: `find`, and the slots
  unfoldable pub disconnect_found : Connection → List ℕ → (ℕ → Slot A W) → Bool × (ℕ → Slot A W)
  unfolding has_slot disconnect_slot
  disconnect_found c [] slots = (false, slots)
  disconnect_found c (p ∷ ps) slots =
      let found = disconnect_found c ps (update slots p (disconnect_slot (slots p))) in
      let rest = disconnect_found c ps slots in if has_slot c p then (true, found.1) else rest

  -- `Signal::Disconnect`
  unfoldable pub disconnect_from : ℕ → Connection → Heap A W → Heap A W × Bool
  unfolding disconnect_found clear_disconnected_slots
  disconnect_from s c h =
      let (find, slots) = disconnect_found c (h.signals s) h.slots in
      let after = record h { slots = slots } in
      (if find then clear_disconnected_slots s after else after, find)

  -- `Connection::Disconnect`
  unfoldable pub disconnect : Connection → Heap A W → Heap A W × Bool
  unfolding disconnect_from
  disconnect c h = elim c.signal [
    | none ↦ (h, false)
    | some s ↦ elim c.slot [ none ↦ (h, false) | some p ↦ disconnect_from s c h ]
  ]

  -- The loop of `DisconnectAllSlots`
  unfoldable pub disconnect_each : List ℕ → (ℕ → Slot A W) → ℕ → Slot A W
  unfolding disconnect_slot
  disconnect_each [] slots = slots
  disconnect_each (p ∷ ps) slots = disconnect_each ps (update slots p (disconnect_slot (slots p)))

  -- `DisconnectAllSlots`, which is also the destructor
  unfoldable pub disconnect_all_slots : ℕ → Heap A W → Heap A W
  unfolding disconnect_each
  disconnect_all_slots s h = record h {
    slots = disconnect_each (h.signals s) h.slots;
    signals = update h.signals s [];
  }
