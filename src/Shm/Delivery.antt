-- ===== src/Shm/Delivery.antt =====
-- A message from `ShmTransmitter<M>::Transmit` (transport/transmitter/shm_transmitter.h) through shared
-- memory and the notifier to a turn of `ShmDispatcher::ThreadFunc`
-- (transport/dispatcher/shm_dispatcher.cpp). What a call that opens or remaps memory finds in the
-- blocks is the parameter `contents`; a message is decoded by each listener's adapter.
use hnu_middleware.Base.{
  ℕ, Bool, true, false, not, ◌&&◌, Option, none, some, List, length, leb, ◌==◌, ◌*◌, ◌>>=◌,
  if◌then◌else◌, update,
}
use hnu_middleware.Serialize.Bytes.{ByteOrder}
use hnu_middleware.Serialize.Codec.{Codec}
use hnu_middleware.Serialize.Stream.{empty_stream}
use hnu_middleware.Transport.Attributes.{RoleAttributes}
use hnu_middleware.Listeners.Signal.{Heap}
use hnu_middleware.Listeners.Dispatcher.{Dispatcher, add_listener, add_listener_to, on_message}
use hnu_middleware.Shm.Conf.{ShmConf}
use hnu_middleware.Shm.Message.{MessageInfo}
use hnu_middleware.Shm.Readable.{ReadableInfo}
use hnu_middleware.Shm.Transfer.{BlockData, write_message, read_info, read_body}
use hnu_middleware.Shm.Notifier.{Indicator, notify, listen}
use hnu_middleware.Shm.Segment.{
  State, Segment, Memory, acquire_block_to_write, acquire_block_to_read, release_written_block,
  release_read_block,
}
pub mod Thread
pub mod Steps
pub mod Transmit
pub mod Read
pub mod Heard
pub mod Deliver

-- A `Segment` object: what each process has of its own.
pub record Mapping : Type 0 where
  pub init : Bool
  pub conf : ShmConf

-- What all processes share of a segment
pub record Shared : Type 0 where
  pub state : State
  pub locks : ℕ → ℕ
  pub blocks : ℕ → BlockData

abbrev pub view : Mapping → Shared → Segment
view s sh = record { init = s.init; conf = s.conf; state = sh.state; locks = sh.locks }

abbrev pub mapping_of : Segment → Mapping
mapping_of s = record { init = s.init; conf = s.conf }

abbrev pub shared_of : Segment → (ℕ → BlockData) → Shared
shared_of s blocks = record { state = s.state; locks = s.locks; blocks = blocks }

-- The shared memory: the segments by channel, and the notifier's
pub record World : Type 0 where
  pub channels : ℕ → Shared
  pub indicator : Indicator ReadableInfo

-- `ShmTransmitter`
pub record Transmitter : Type 0 where
  pub enabled : Bool
  pub host_id : ℕ
  pub channel_id : ℕ
  pub segment : Mapping

-- `ShmDispatcher` with its notifier's `next_seq_`
pub record Reader (A W : Type 0) : Type 0 where
  pub dispatcher : Dispatcher A W
  pub host_id : ℕ
  pub segments : ℕ → Option Mapping
  pub previous_indexs : ℕ → Option ℕ
  pub next_seq : ℕ

-- `UINT32_MAX`
abbrev pub no_index : ℕ
no_index = 4294967295

module _ (m : Memory) (contents : Segment → ℕ → BlockData) where
  -- The blocks after a call that has left the segment `s`, and has kept the memory or not
  abbrev pub blocks_after : Bool → Segment → (ℕ → BlockData) → ℕ → BlockData
  blocks_after kept s blocks = if kept then blocks else contents s

  -- Whether the memory that is open is kept open
  abbrev pub stays : Segment → Bool
  stays s = s.init && not s.state.need_remap

  module _ {M : Type 0} (c : Codec M) (host : ByteOrder) (fuel : ℕ) (lost : ℕ → Bool) where
    -- What `Transmit` does with the block `index` of the segment `s` that it acquired
    unfoldable pub send :
        M
        → MessageInfo
        → Bool
        → Transmitter
        → ℕ
        → Segment
        → (ℕ → BlockData)
        → World
        → Option (Bool × Transmitter × World)
    send msg msg_info is_shutdown t index s blocks w = do
      block ← write_message c host msg msg_info (blocks index)
      let released = release_written_block index s
      let (sent, indicator) =
          notify is_shutdown
            (record { host_id = t.host_id; block_index = index; channel_id = t.channel_id })
            w.indicator
      some (
        sent,
        record t { segment = mapping_of released },
        record {
          channels =
              update w.channels t.channel_id (shared_of released (update blocks index block));
          indicator = indicator;
        },
      )

    -- `Transmit` of a transmitter that is enabled
    unfoldable pub acquire_and_send :
        M → MessageInfo → Bool → Transmitter → World → Option (Bool × Transmitter × World)
    unfolding send
    acquire_and_send msg msg_info is_shutdown t w = do
      let sh = w.channels t.channel_id
      let before = view t.segment sh
      ds ← c.write host msg (empty_stream host)
      (found, s) ← acquire_block_to_write m fuel lost (length ds.buf) before
      let kept = stays before && leb (length ds.buf) before.conf.ceiling_msg_size
      let blocks = blocks_after kept s sh.blocks
      let refused : Bool × Transmitter × World = (
        false,
        record t { segment = mapping_of s },
        record w { channels = update w.channels t.channel_id (shared_of s blocks) },
      )
      elim found [
        | none ↦ some refused
        | some index ↦ send msg msg_info is_shutdown t index s blocks w
      ]

    -- `Transmit`, for a notifier that may be shut down
    unfoldable pub transmit :
        M → MessageInfo → Bool → Transmitter → World → Option (Bool × Transmitter × World)
    unfolding acquire_and_send
    transmit msg msg_info is_shutdown t w =
        let sent = acquire_and_send msg msg_info is_shutdown t w in
        if t.enabled then sent else some (false, t, w)
