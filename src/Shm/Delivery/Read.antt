-- ===== src/Shm/Delivery/Read.antt =====
-- A turn of the dispatcher's thread reads the message and calls the listeners of its channel.
use hnu_middleware.Base.{
  ℕ, Bool, ◌+◌, ◌*◌, ◌<◌, ◌≡◌, refl, sym, ap, ◌∙◌, true, false, not, Option, none, some, [], ◌∷◌,
  ◌==◌, if◌then◌else◌, update, ==_refl,
}
use hnu_middleware.Serialize.Bytes.{ByteOrder}
use hnu_middleware.Serialize.Codec.{Codec}
use hnu_middleware.Locks.Block.{max_try_lock_times}
use hnu_middleware.Locks.Counting.{increment, int_limit}
use hnu_middleware.Shm.Conf.{conf_of}
use hnu_middleware.Shm.Message.{MessageInfo}
use hnu_middleware.Shm.Readable.{ReadableInfo}
use hnu_middleware.Shm.Transfer.{BlockData}
use hnu_middleware.Shm.Notifier.{Indicator, listen}
use hnu_middleware.Shm.Segment.{Segment, Memory, release_read_block}
use hnu_middleware.Shm.Segment.Blocks.{acquire-eq}
use hnu_middleware.Shm.Delivery.{
  Shared, World, Reader, view, mapping_of, shared_of, blocks_after, stays,
}
use hnu_middleware.Shm.Delivery.Thread.{read_locked, read_acquired, read_block, thread_turn}
use hnu_middleware.Shm.Delivery.Steps.{open_mapping}

abbrev pub Args : Type 0
Args = BlockData × MessageInfo

-- A segment with one more reader at a block
abbrev pub locked : ℕ → ℕ → Shared → Segment
locked n index sh = record (view (open_mapping n) sh) {
  locks = update sh.locks index (increment (sh.locks index));
}

module _ (m : Memory) (contents : Segment → ℕ → BlockData) {M W : Type 0} (c : Codec M)
    (host : ByteOrder) (table_size readable_block : ℕ) where
  pub read_acquired-eq :
      (channel_id index : ℕ) (s : Segment) (blocks : ℕ → BlockData) (r r' : Reader Args (Option W))
      (mem : World) (w w' : Option W)
      → read_locked m contents c host table_size readable_block channel_id index (blocks index) r w
        ≡ some (r', w')
      → read_acquired m contents c host table_size readable_block channel_id index s blocks r mem w
        ≡ some (
          record r' {
            segments =
                update r'.segments channel_id (some (mapping_of (release_read_block index s)));
          },
          record mem {
            channels =
                update mem.channels channel_id (shared_of (release_read_block index s) blocks);
          },
          w',
        )
  unfolding read_acquired
  read_acquired-eq channel_id index s blocks r r' mem w w' read = rw (read) refl

  pub read_block-eq :
      (lost : ℕ → Bool) (j channel_id index n : ℕ) (r : Reader Args (Option W)) (mem : World)
      (w : Option W)
      → j < max_try_lock_times
      → lost j ≡ false
      → (mem.channels channel_id).state.need_remap ≡ false
      → index < (conf_of n).block_num
      → (mem.channels channel_id).locks index < int_limit
      → read_block m contents c host table_size readable_block lost channel_id index
          (open_mapping n)
          r
          mem
          w
        ≡ read_acquired m contents c host table_size readable_block channel_id index
            (locked n index (mem.channels channel_id))
            (mem.channels channel_id).blocks
            r
            mem
            w
  unfolding read_block
  read_block-eq lost j channel_id index n r mem w tries wins mapped below few =
      let sh = mem.channels channel_id in
      let before = view (open_mapping n) sh in
      let acquired : Segment
          → (ℕ → BlockData)
          → Option (Reader Args (Option W) × World × Option W) =
        λ s blocks.
          read_acquired m contents c host table_size readable_block channel_id index s blocks r mem
            w in
      ap
        (λ got.
          if got.0
          then acquired got.1 (blocks_after m contents (stays m contents before) got.1 sh.blocks)
          else none)
        (acquire-eq m lost j index before tries wins refl mapped below few)
      ∙ ap
          (λ b.
            acquired (locked n index sh) (blocks_after m contents b (locked n index sh) sh.blocks))
          (ap not mapped)

  pub thread_turn-eq :
      (lost : ℕ → Bool) (info : ReadableInfo) (n : ℕ) (r : Reader Args (Option W)) (mem : World)
      (w : Option W) (ind : Indicator ReadableInfo)
      → listen ((false, ind) ∷ []) (100 * 1000) r.next_seq ≡ some (some (info, r.next_seq + 1))
      → info.host_id ≡ r.host_id
      → r.segments info.channel_id ≡ some (open_mapping n)
      → thread_turn m contents c host table_size readable_block lost ((false, ind) ∷ []) r mem w
        ≡ read_block m contents c host table_size readable_block lost info.channel_id
            info.block_index
            (open_mapping n)
            (record r {
              next_seq = r.next_seq + 1;
              previous_indexs = update r.previous_indexs info.channel_id (some info.block_index);
            })
            mem
            w
  unfolding thread_turn
  thread_turn-eq lost info n r mem w ind heard here known =
      let same : (info.host_id == r.host_id) ≡ true =
        ap (λ k. info.host_id == k) (sym here) ∙ ==_refl info.host_id in
      rw (heard, same, known) refl
