-- ===== src/Tests/Shm.antt =====
-- The shared-memory transport at fixed inputs.
use hnu_middleware.Base.{
  ℕ, ◌+◌, ◌*◌, ◌<◌, ◌≡◌, refl, true, false, Option, some, none, List, [], ◌∷◌, length, replicate,
  length-replicate, arith,
}
use hnu_middleware.Serialize.Bytes.{little_endian, le_bytes}
use hnu_middleware.Serialize.Text.{string_codec}
use hnu_middleware.Serialize.Text.Laws.{string_codec-IsLawful}
use hnu_middleware.Shm.Conf.{
  conf_of, get_ceiling_message_size, get_block_buf_size, conf_of-overflow,
}
use hnu_middleware.Shm.Readable.{ReadableInfo}
use hnu_middleware.Shm.Message
use hnu_middleware.Shm.Message.{
  MessageInfo, Identity, IsIdentity, IsMessage, deserialize-serialize_message,
}
use hnu_middleware.Shm.Transfer.{
  BlockData, received, write_message, read_message, read_message-write_message,
}
use hnu_middleware.Shm.Notifier.{
  Next, new_indicator, try_read, listen, notify_all, listen-ends, try_read-notify_all,
}

conf_of-overflow_example : (conf_of 50000000).block_buf_size < 50000000
conf_of-overflow_example = conf_of-overflow 50000000 50000000 (omega arith)

abbrev some_block : ReadableInfo
some_block = record { host_id = 3; block_index = 17; channel_id = 9 }

abbrev hash : List ℕ → ℕ
hash bs = length bs

abbrev sender : Identity
sender = record { id_data = 1 ∷ 2 ∷ 3 ∷ 4 ∷ 5 ∷ 6 ∷ 7 ∷ 8 ∷ []; hash_value = 8 }

abbrev info : MessageInfo
info = record { sender_id = sender; channel_id = 5; seq_num = 300; spare_id = sender }

abbrev other_channel : MessageInfo
other_channel = record info { channel_id = 6 }

deserialize-serialize_message_example :
    (Message.deserialize_from little_endian hash
        (Message.serialize_to little_endian hash info)
        other_channel
      ≡ (true, other_channel))
    × (Message.deserialize_from little_endian hash (1 ∷ []) other_channel ≡ (false, other_channel))
deserialize-serialize_message_example =
    deserialize-serialize_message little_endian hash info other_channel (1 ∷ [])
      record {
        sender = record { eight = refl; hashed = refl };
        spare = record { eight = refl; hashed = refl };
        seq_below = omega arith;
      }
      (omega arith)

abbrev hello : List ℕ
hello = 104 ∷ 101 ∷ 108 ∷ 108 ∷ 111 ∷ []

abbrev empty_block : BlockData
empty_block = record { msg_size = 0; msg_info_size = 0; buf = replicate (1024 * 16 + 1024) 0 }

sized : length empty_block.buf ≡ (conf_of 100).block_buf_size
unfolding conf_of get_ceiling_message_size get_block_buf_size
sized = length-replicate {A = ℕ} (1024 * 16 + 1024) 0

read_message-write_message_example :
    (rb : BlockData) × (write_message string_codec little_endian hello info empty_block ≡ some rb)
    × (read_message string_codec little_endian rb ≡ some (hello, received info))
unfolding string_codec-IsLawful le_bytes conf_of get_ceiling_message_size
read_message-write_message_example =
    read_message-write_message string_codec-IsLawful little_endian hello info empty_block 100
      (omega arith) record { sender = refl; spare = refl; seq_below = omega arith } sized
      (omega arith)

abbrev log : List ℕ
log = 5 ∷ 6 ∷ []

try_read-notify_all_example :
    Next log 1 (try_read 1 (notify_all log (new_indicator 0)))
    × (try_read 2 (notify_all log (new_indicator 0)) ≡ none)
try_read-notify_all_example = try_read-notify_all log 0 1 (omega arith) (omega arith)

listen-ends_example :
    (r : Option (ℕ × ℕ)) × (listen ((false, new_indicator 0) ∷ (false, new_indicator 0) ∷ []) 50 0
      ≡ some r)
listen-ends_example =
    listen-ends ((false, new_indicator 0) ∷ (false, new_indicator 0) ∷ []) 50 0 (omega arith)
