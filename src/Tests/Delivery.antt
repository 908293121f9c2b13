-- ===== src/Tests/Delivery.antt =====
-- A message from a transmitter to a listener, at a fixed input.
use hnu_middleware.Base.{
  ℕ, ◌≡◌, refl, Bool, false, true, ◌==◌, Option, none, some, List, [], ◌∷◌, ◌++◌, length-replicate,
  replicate, ◌+◌, ◌*◌, update, ℕ_discrete, arith,
}
use hnu_middleware.Serialize.Bytes.{little_endian, le_bytes}
use hnu_middleware.Serialize.Text.{string_codec}
use hnu_middleware.Serialize.Text.Laws.{string_codec-IsLawful}
use hnu_middleware.Transport.Attributes.{RoleAttributes, default_qos}
use hnu_middleware.Listeners.Signal.{Heap, new_slot}
use hnu_middleware.Listeners.Dispatcher.{Object, Dispatcher, new_dispatcher, add_listener}
use hnu_middleware.Listeners.Dispatcher.Promise.{
  Listeners, add_for, add_all, nobody, grown, change, no_groups, serve, promised,
}
use hnu_middleware.Listeners.Dispatcher.Messages.{Stands}
use hnu_middleware.Listeners.Dispatcher.Refine.{serve-Agree, new-Bounds, new_closed}
use hnu_middleware.Shm.Conf.{conf_of, get_ceiling_message_size, get_block_buf_size, get_block_num}
use hnu_middleware.Shm.Message.{Identity, MessageInfo}
use hnu_middleware.Shm.Transfer.{BlockData, received}
use hnu_middleware.Shm.Notifier.{new_indicator}
use hnu_middleware.Shm.Segment.{Memory, Segment}
use hnu_middleware.Shm.Delivery.{World, Reader, transmit}
use hnu_middleware.Shm.Delivery.Thread.{adapter, thread_turn}
use hnu_middleware.Shm.Delivery.Steps.{open_mapping, sender}
use hnu_middleware.Shm.Delivery.Read.{Args}
use hnu_middleware.Shm.Delivery.Heard.{Listener, heard_by, Adapted}
use hnu_middleware.Shm.Delivery.Deliver.{Ready, transmit-heard}

abbrev Text : Type 0
Text = List ℕ

abbrev memory : Memory
memory = record {
  open_or_create = λ s. (true, s);
  open_only = λ s. (true, s);
  remove = λ s. (true, s);
  reset = λ s. s;
}

abbrev empty_block : BlockData
empty_block = record { msg_size = 0; msg_info_size = 0; buf = replicate (1024 * 16 + 1024) 0 }

abbrev contents : Segment → ℕ → BlockData
contents s i = empty_block

abbrev world : World
world = record {
  channels = λ channel_id. record {
    state = record { need_remap = false; seq = 0; reference_count = 2 };
    locks = λ i. 0;
    blocks = λ i. empty_block;
  };
  indicator = new_indicator (record { host_id = 0; block_index = 0; channel_id = 0 });
}

-- A listener that keeps the text
abbrev keep : Listener Text (List Text)
keep = record { id = 1; call = λ msg info texts. texts ++ msg ∷ [] }

abbrev attributes : RoleAttributes
attributes = record {
  host_name = [];
  host_ip = [];
  process_id = 0;
  channel_name = [];
  channel_id = 300;
  qos_profile = default_qos;
  id = 1;
  node_name = [];
  node_id = 0;
  message_type = [];
}

abbrev no_heap : Heap Args (Option (List Text))
no_heap = record { slots = λ p. new_slot none; signals = λ s. []; next = 0 }

abbrev no_objects : ℕ → Object Args (Option (List Text))
no_objects p = record {
  message_type = 0;
  handler = record {
    signal = 0;
    signal_conns = λ j. none;
    signals = λ o. none;
    signals_conns = λ o. none;
  };
  heap = no_heap;
}

abbrev kept_by : Option (Args → Option (List Text) → Option (List Text))
kept_by = some (adapter memory contents string_codec little_endian 128 5 keep.call)

abbrev listening : Dispatcher Args (Option (List Text))
listening = add_listener 128 5 attributes kept_by no_heap (new_dispatcher 128 no_objects)

abbrev listeners : Listeners Args (Option (List Text))
listeners = change 300 (grown 5 (add_all 1 kept_by)) no_groups

listening-Stands : Stands 128 5 listening listeners
unfolding serve promised no_groups
listening-Stands =
    (serve-Agree 128 5 no_heap (add_for 5 attributes kept_by) (new_dispatcher 128 no_objects)
      no_groups none tt
      (new_closed 128 5 no_heap no_objects, new-Bounds 128 5 no_heap no_objects)).0

listeners-Adapted :
    Adapted memory contents string_codec little_endian 128 5 listeners 300 (keep ∷ []) []
unfolding no_groups ℕ_discrete
listeners-Adapted = record {
  group = add_all 1 kept_by (nobody 5);
  opened = refl;
  of_channel = refl;
  typed = refl;
  to_all = refl;
  to_one = refl;
}

abbrev reader : Reader Args (Option (List Text))
reader = record {
  dispatcher = listening;
  host_id = 9;
  segments = update (λ c. none) 300 (some (open_mapping 100));
  previous_indexs = λ c. none;
  next_seq = 0;
}

-- The first compare-exchange fails on a free block.
abbrev lost_once : ℕ → Bool
lost_once k = k == 0

reader-Ready :
    Ready memory contents string_codec little_endian 128 5 2 lost_once lost_once 9 300 100 1 1 world
      reader
unfolding conf_of get_ceiling_message_size get_block_buf_size get_block_num ℕ_discrete new_indicator
reader-Ready = record {
  sized = λ i. length-replicate {A = ℕ} (1024 * 16 + 1024) 0;
  mapped = refl;
  seq_below = omega arith;
  in_fuel = omega arith;
  writes = refl;
  in_tries = omega arith;
  reads = refl;
  free = refl;
  same_host = refl;
  known = refl;
  heard_all = refl;
  few = omega arith;
}

abbrev hello : Text
hello = 104 ∷ 101 ∷ 108 ∷ 108 ∷ 111 ∷ []

abbrev identity : Identity
identity = record { id_data = 1 ∷ 2 ∷ 3 ∷ 4 ∷ 5 ∷ 6 ∷ 7 ∷ 8 ∷ []; hash_value = 36 }

abbrev info : MessageInfo
info = record { sender_id = identity; channel_id = 300; seq_num = 7; spare_id = identity }

transmit-heard_example :
    (w' w'' : World) × (r' : Reader Args (Option (List Text))) × (index : ℕ) × (transmit memory
        contents string_codec little_endian 2 lost_once hello info false
        (sender 9 300 100)
        world
      ≡ some (true, sender 9 300 100, w'))
    × (thread_turn memory contents string_codec little_endian 128 5 lost_once
          ((false, w'.indicator) ∷ [])
          reader
          w'
          (some [])
        ≡ some (
          r',
          w'',
          some (heard_by [] hello (received info) (heard_by (keep ∷ []) hello (received info) [])),
        ))
    × ((w''.channels 300).locks index ≡ 0)
    × Stands 128 5 r'.dispatcher listeners
unfolding string_codec-IsLawful le_bytes conf_of get_ceiling_message_size
transmit-heard_example =
    transmit-heard memory contents string_codec little_endian 128 5 string_codec-IsLawful 2
      lost_once lost_once 9 300 100 1 1 world reader listeners (keep ∷ []) [] hello info []
      (omega arith) record { sender = refl; spare = refl; seq_below = omega arith } (omega arith)
      reader-Ready listening-Stands listeners-Adapted
