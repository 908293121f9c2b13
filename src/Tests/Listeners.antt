-- ===== src/Tests/Listeners.antt =====
-- Signals, listener handlers and dispatchers at fixed inputs.
use hnu_middleware.Base.{ℕ, ◌≡◌, refl, false, none, some, List, [], ◌∷◌, ◌++◌, ℕ_discrete, arith}
use hnu_middleware.Transport.Attributes.{RoleAttributes, default_qos}
use hnu_middleware.Listeners.Signal
use hnu_middleware.Listeners.Signal.{
  Heap, connection, is_connected, emit, disconnect_all_slots, new_slot, call_cb,
}
use hnu_middleware.Listeners.Signal.Found.{disconnect_all_slots-emit}
use hnu_middleware.Listeners.Signal.Laws.{call_entries, remove}
use hnu_middleware.Listeners.Handler
use hnu_middleware.Listeners.Handler.Promise.{
  AllFresh, promised, step, Op, connect_all, connect_one, leave_all, message, steps, promised_all,
  start, no_listeners,
}
use hnu_middleware.Listeners.Handler.Refine.{steps-refines}
use hnu_middleware.Listeners.Dispatcher.{Object, new_dispatcher}
use hnu_middleware.Listeners.Dispatcher.Promise
use hnu_middleware.Listeners.Dispatcher.Promise.{
  Request, add_for, add_pair, remove_for, close, serve_all, no_groups, world_of,
}
use hnu_middleware.Listeners.Dispatcher.Refine.{serve_all-refines}

-- A listener that notes its name and what it was called with
abbrev note : ℕ → ℕ → List ℕ → List ℕ
note name a w = w ++ name ∷ a ∷ []

abbrev no_heap : Heap ℕ (List ℕ)
no_heap = record { slots = λ p. new_slot none; signals = λ s. []; next = 0 }

-- A signal at 0 with one listener
abbrev one_listener : Heap ℕ (List ℕ)
one_listener = (Signal.connect 0 (some (note 4)) no_heap).0

disconnect_all_slots-emit_example :
    (is_connected (connection 0 0) (disconnect_all_slots 0 one_listener) ≡ false)
    × ((emit 0 9 (disconnect_all_slots 0 one_listener) []).1 ≡ [])
unfolding Signal.connect ℕ_discrete
disconnect_all_slots-emit_example = disconnect_all_slots-emit 0 one_listener 0 0 9 [] refl

abbrev ops : List (Op ℕ (List ℕ))
ops =
    connect_all 1 (some (note 1))
    ∷ connect_one 2 7 (some (note 2))
    ∷ connect_all 3 (some (note 3))
    ∷ message 7 50
    ∷ leave_all 1
    ∷ message 8 60
    ∷ []

ops-AllFresh : AllFresh ops (no_listeners [])
unfolding promised no_listeners remove call_entries ℕ_discrete
ops-AllFresh = (tt, (tt, ((omega arith, tt), (tt, (tt, (tt, tt))))))

steps-refines_example :
    (steps ops (start no_heap [])).world ≡ (promised_all ops (no_listeners [])).world
steps-refines_example = steps-refines ops no_heap [] ops-AllFresh

ops-world : (steps ops (start no_heap [])).world ≡ 1 ∷ 50 ∷ 3 ∷ 50 ∷ 2 ∷ 50 ∷ 3 ∷ 60 ∷ []
unfolding steps step start Handler.new_handler Handler.connect Handler.connect_to Handler.disconnect
    Handler.signal_of Handler.conns_of Handler.run Signal.new_signal Signal.connect
    Signal.disconnect Signal.disconnect_from Signal.disconnect_found Signal.disconnect_slot
    Signal.has_slot Signal.connection Signal.is_connected Signal.emit Signal.call_all Signal.call
    Signal.call_cb Signal.clear_disconnected_slots Signal.connected_only Signal.new_slot ℕ_discrete
ops-world = refl

-- A second listener under one id hides the connection of the first: after `Disconnect` of the id the
-- first is still called.
abbrev twice : List (Op ℕ (List ℕ))
twice =
    connect_all 1 (some (note 1)) ∷ connect_all 1 (some (note 2)) ∷ leave_all 1 ∷ message 0 50 ∷ []

twice-world : (steps twice (start no_heap [])).world ≡ 1 ∷ 50 ∷ []
unfolding steps step start Handler.new_handler Handler.connect Handler.connect_to Handler.disconnect
    Handler.signal_of Handler.conns_of Handler.run Signal.new_signal Signal.connect
    Signal.disconnect Signal.disconnect_from Signal.disconnect_found Signal.disconnect_slot
    Signal.has_slot Signal.connection Signal.is_connected Signal.emit Signal.call_all Signal.call
    Signal.call_cb Signal.clear_disconnected_slots Signal.connected_only Signal.new_slot ℕ_discrete
twice-world = refl

abbrev attributes : ℕ → ℕ → RoleAttributes
attributes channel_id id = record {
  host_name = [];
  host_ip = [];
  process_id = 0;
  channel_name = [];
  channel_id = channel_id;
  qos_profile = default_qos;
  id = id;
  node_name = [];
  node_id = 0;
  message_type = [];
}

-- Messages of type 5 go to the channels 300 and 301.
abbrev requests : List (Request ℕ (List ℕ))
requests =
    add_for 5 (attributes 300 1) (some (note 1))
    ∷ add_for 6 (attributes 300 2) (some (note 2))
    ∷ add_pair 5 (attributes 301 3) (attributes 301 7) (some (note 3))
    ∷ Promise.message 300 7 50
    ∷ Promise.message 301 7 60
    ∷ remove_for (attributes 300 1)
    ∷ Promise.message 300 7 70
    ∷ close
    ∷ Promise.message 301 7 80
    ∷ []

abbrev no_objects : ℕ → Object ℕ (List ℕ)
no_objects p = record {
  message_type = 0;
  handler = record {
    signal = 0;
    signal_conns = λ j. none;
    signals = λ o. none;
    signals_conns = λ o. none;
  };
  heap = no_heap;
}

requests-AllFreshIn : Promise.AllFreshIn 5 requests (some (no_groups, []))
unfolding Promise.promised no_groups remove call_entries Promise.told ℕ_discrete
requests-AllFreshIn = (tt, ((omega arith, tt), (tt, (tt, (tt, (tt, (tt, (tt, (tt, tt)))))))))

serve_all-refines_example :
    world_of (serve_all 128 5 no_heap requests (some (new_dispatcher 128 no_objects, [])))
    ≡ world_of (Promise.promised_all 5 requests (some (no_groups, [])))
serve_all-refines_example =
    serve_all-refines 128 5 no_heap requests no_objects [] requests-AllFreshIn

requests-world :
    world_of (Promise.promised_all 5 requests (some (no_groups, []))) ≡ some (1 ∷ 50 ∷ 3 ∷ 60 ∷ [])
unfolding Promise.promised_all Promise.promised no_groups remove call_entries call_cb Promise.told
    ℕ_discrete
requests-world = refl
