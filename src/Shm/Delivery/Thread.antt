-- ===== src/Shm/Delivery/Thread.antt =====
-- The readers' side of a delivery: `ReadMessage`, a turn of `ThreadFunc`, `AddSegment` and
-- `AddListener` of `ShmDispatcher` (transport/dispatcher/shm_dispatcher.cpp,
-- transport/dispatcher/shm_dispatcher.h).
use hnu_middleware.Base.{
  ℕ, Bool, not, Option, none, some, List, ◌==◌, ◌*◌, ◌>>=◌, if◌then◌else◌, update,
}
use hnu_middleware.Serialize.Bytes.{ByteOrder}
use hnu_middleware.Serialize.Codec.{Codec}
use hnu_middleware.Transport.Attributes.{RoleAttributes}
use hnu_middleware.Listeners.Signal.{Heap}
use hnu_middleware.Listeners.Dispatcher.{add_listener, add_listener_to, on_message}
use hnu_middleware.Shm.Message.{MessageInfo}
use hnu_middleware.Shm.Readable.{ReadableInfo}
use hnu_middleware.Shm.Transfer.{BlockData, read_info, read_body}
use hnu_middleware.Shm.Notifier.{Indicator, listen}
use hnu_middleware.Shm.Segment.{Segment, Memory, acquire_block_to_read, release_read_block}
use hnu_middleware.Shm.Delivery.{
  Mapping, World, Reader, no_index, view, mapping_of, shared_of, blocks_after, stays,
}

module _ (m : Memory) (contents : Segment → ℕ → BlockData) {M W : Type 0} (c : Codec M)
    (host : ByteOrder) (table_size readable_block : ℕ) where
  -- The listener adapter of `ShmDispatcher::AddListener`: `none` is an access outside a buffer.
  unfoldable pub adapter : (M → MessageInfo → W → W) → BlockData × MessageInfo → Option W → Option W
  adapter listener (rb, msg_info) w = do
    w' ← w
    msg ← read_body c host rb
    some (listener msg msg_info w')

  -- The rest of `ReadMessage` once it has the lock of the block `rb`
  unfoldable pub read_locked :
      ℕ
      → ℕ
      → BlockData
      → Reader (BlockData × MessageInfo) (Option W)
      → Option W
      → Option (Reader (BlockData × MessageInfo) (Option W) × Option W)
  read_locked channel_id block_index rb r w = do
    msg_info ← read_info c host rb
    (d, w') ←
        on_message table_size readable_block channel_id msg_info.sender_id.hash_value (rb, msg_info)
          r.dispatcher w
    some (record r { dispatcher = d }, w')

  -- `ReadMessage` from the acquisition of the block on
  unfoldable pub read_acquired :
      ℕ
      → ℕ
      → Segment
      → (ℕ → BlockData)
      → Reader (BlockData × MessageInfo) (Option W)
      → World
      → Option W
      → Option (Reader (BlockData × MessageInfo) (Option W) × World × Option W)
  unfolding read_locked
  read_acquired channel_id block_index s blocks r mem w = do
    (r', w') ← read_locked channel_id block_index (blocks block_index) r w
    let released = release_read_block block_index s
    some (
      record r' { segments = update r'.segments channel_id (some (mapping_of released)) },
      record mem { channels = update mem.channels channel_id (shared_of released blocks) },
      w',
    )

  -- `ReadMessage`: where the block is not acquired, its null pointer is used all the same.
  unfoldable pub read_block :
      (ℕ → Bool)
      → ℕ
      → ℕ
      → Mapping
      → Reader (BlockData × MessageInfo) (Option W)
      → World
      → Option W
      → Option (Reader (BlockData × MessageInfo) (Option W) × World × Option W)
  unfolding read_acquired
  read_block lost channel_id block_index mapping r mem w =
      let sh = mem.channels channel_id in
      let before = view mapping sh in
      let got = acquire_block_to_read m lost block_index before in
      let blocks = blocks_after m contents (stays m contents before) got.1 sh.blocks in
      let read = read_acquired channel_id block_index got.1 blocks r mem w in
      if got.0 then read else none

  -- One turn of `ThreadFunc`, on what `Listen(100, &readable_info)` sees;
  -- `lost` tells of each try to lock the block whether the compare-exchange fails spuriously.
  unfoldable pub thread_turn :
      (ℕ → Bool)
      → List (Bool × Indicator ReadableInfo)
      → Reader (BlockData × MessageInfo) (Option W)
      → World
      → Option W
      → Option (Reader (BlockData × MessageInfo) (Option W) × World × Option W)
  unfolding read_block
  thread_turn lost views r mem w = do
    heard ← listen views (100 * 1000) r.next_seq
    elim heard [
      | none ↦ some (r, mem, w)
      | some (info, next_seq) ↦
          let r' = record r { next_seq = next_seq } in
          if not (info.host_id == r.host_id)
          then some (r', mem, w)
          else elim (r.segments info.channel_id) [
            | none ↦ some (r', mem, w)
            | some mapping ↦
                read_block lost info.channel_id info.block_index mapping
                  (record r' {
                    previous_indexs =
                        update r.previous_indexs info.channel_id (some info.block_index);
                  })
                  mem w
          ]
    ]

  -- `AddSegment`, with the new `Segment` object
  unfoldable pub add_segment :
      RoleAttributes
      → Mapping
      → Reader (BlockData × MessageInfo) (Option W)
      → Reader (BlockData × MessageInfo) (Option W)
  add_segment self_attr new_segment r = elim (r.segments self_attr.channel_id) [
    | some s ↦ r
    | none ↦ record r {
      segments = update r.segments self_attr.channel_id (some new_segment);
      previous_indexs = update r.previous_indexs self_attr.channel_id (some no_index);
    }
  ]

  -- The two `ShmDispatcher::AddListener`
  unfoldable pub add_reader :
      RoleAttributes
      → (M → MessageInfo → W → W)
      → Heap (BlockData × MessageInfo) (Option W)
      → Mapping
      → Reader (BlockData × MessageInfo) (Option W)
      → Reader (BlockData × MessageInfo) (Option W)
  unfolding add_segment adapter
  add_reader self_attr listener fresh new_segment r = add_segment self_attr new_segment (record r {
    dispatcher =
        add_listener table_size readable_block self_attr (some (adapter listener)) fresh
          r.dispatcher;
  })

  unfoldable pub add_reader_of :
      RoleAttributes
      → RoleAttributes
      → (M → MessageInfo → W → W)
      → Heap (BlockData × MessageInfo) (Option W)
      → Mapping
      → Reader (BlockData × MessageInfo) (Option W)
      → Reader (BlockData × MessageInfo) (Option W)
  unfolding add_segment adapter
  add_reader_of self_attr opposite_attr listener fresh new_segment r =
      add_segment self_attr new_segment (record r {
        dispatcher =
            add_listener_to table_size readable_block self_attr opposite_attr
              (some (adapter listener)) fresh r.dispatcher;
      })
