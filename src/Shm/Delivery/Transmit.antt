-- ===== src/Shm/Delivery/Transmit.antt =====
-- A message that is transmitted is in shared memory and is notified.
use hnu_middleware.Base.{
  ℕ, Bool, ◌^◌, ◌<◌, ◌≤◌, ◌≡◌, refl, sym, ap, ap₂, ◌∙◌, subst, true, false, not, ◌&&◌, some, length,
  leb, update, update_self, arith,
}
use hnu_middleware.Serialize.Bytes.{ByteOrder}
use hnu_middleware.Serialize.Codec.{Codec, IsLawful}
use hnu_middleware.Locks.Counting.{minus_one, increment}
use hnu_middleware.Shm.Conf.{conf_of}
use hnu_middleware.Shm.Message.{MessageInfo}
use hnu_middleware.Shm.Readable.{ReadableInfo}
use hnu_middleware.Shm.Transfer.{
  BlockData, read_message, IsTrailer, received, write-encoded, read_message-write_message,
}
use hnu_middleware.Shm.Notifier.{notify}
use hnu_middleware.Shm.Segment.{Segment, Memory, release_written_block}
use hnu_middleware.Shm.Segment.Blocks.{turn_index, next_index-total}
use hnu_middleware.Shm.Delivery.{
  World, view, mapping_of, shared_of, blocks_after, stays, send, transmit,
}
use hnu_middleware.Shm.Delivery.Steps.{
  open_mapping, sender, conf_of-some_blocks, le→leb, acquire_write-eq, release_written-eq,
  acquire_and_send-eq, send-eq,
}

-- What a message leaves in shared memory
pub record Sent (host_id channel_id : ℕ) (w w' : World) (index : ℕ) (rb : BlockData) (n : ℕ)
    : Type 0 where
  pub below : index < (conf_of n).block_num
  pub unlocked : (w'.channels channel_id).locks index ≡ 0
  pub written : (w'.channels channel_id).blocks index ≡ rb
  pub mapped : (w'.channels channel_id).state.need_remap ≡ false
  pub told :
      w'.indicator
      ≡ (notify false
          (record { host_id = host_id; block_index = index; channel_id = channel_id })
          w.indicator).1

module _ (m : Memory) (contents : Segment → ℕ → BlockData) {M : Type 0} (c : Codec M)
    (host : ByteOrder) (fuel : ℕ) (lost : ℕ → Bool) where
  module _ {Valid : M → Type 0} (l : IsLawful c Valid) (host_id channel_id n : ℕ) where
    -- A transmitter that is enabled, with an open segment that needs no new mapping, sends a message
    -- within the ceiling where one of the places that it tries is free, and is locked.
    pub transmit-Sent :
        (msg : M) (info : MessageInfo) (w : World) (k : ℕ)
        → Valid msg
        → IsTrailer info
        → length (l.encode msg) ≤ (conf_of n).ceiling_msg_size
        → ((i : ℕ) → length ((w.channels channel_id).blocks i).buf ≡ (conf_of n).block_buf_size)
        → (w.channels channel_id).state.need_remap ≡ false
        → (w.channels channel_id).state.seq < 2 ^ 32
        → k < fuel
        → lost k ≡ false
        → (w.channels channel_id).locks
            (turn_index (view (open_mapping n) (w.channels channel_id)) k)
          ≡ 0
        → (w' : World) × (index : ℕ) × (rb : BlockData) × (transmit m contents c host fuel lost msg
              info false
              (sender host_id channel_id n)
              w
            ≡ some (true, sender host_id channel_id n, w'))
          × Sent host_id channel_id w w' index rb n
          × (read_message c host rb ≡ some (msg, received info))
    unfolding transmit
    transmit-Sent msg info w k valid trailer fits sized mapped seq in_fuel wins free =
        let sh = w.channels channel_id in
        let before = view (open_mapping n) sh in
        let some_blocks : 0 < (conf_of n).block_num = conf_of-some_blocks n in
        let (index, s, next, handed) =
          next_index-total fuel k lost before in_fuel wins seq some_blocks free in
        let (ds, wrote, size) = write-encoded l host msg n valid fits in
        let (rb, put_in, read_out) =
          read_message-write_message l host msg info (sh.blocks index) n valid trailer (sized index)
            fits in
        let got =
          acquire_write-eq m fuel lost (length ds.buf) before index s refl mapped (omega arith)
            next in
        let below : index < s.conf.block_num =
          subst (λ conf. index < conf.block_num) (sym handed.same_conf) handed.below in
        let done = release_written_block index s in
        let done_eq = release_written-eq index s below in
        let taken : s.locks index ≡ minus_one =
          ap (λ f. f index) handed.locked ∙ update_self sh.locks index minus_one in
        let unlocked : done.locks index ≡ 0 =
          ap (λ x. x.locks index) done_eq
          ∙ update_self s.locks index (increment (s.locks index))
          ∙ ap increment taken in
        let same_mapping : mapping_of done ≡ open_mapping n =
          ap mapping_of done_eq
          ∙ ap₂ (λ i conf. record { init = i; conf = conf }) handed.same_init handed.same_conf in
        let kept : (stays m contents before && leb (length ds.buf) (conf_of n).ceiling_msg_size)
            ≡ true =
          ap₂ (λ a b. not a && b) mapped
            (le→leb (length ds.buf) (conf_of n).ceiling_msg_size (omega arith)) in
        let sh' = shared_of done (update sh.blocks index rb) in
        let call : ReadableInfo = record {
          host_id = host_id;
          block_index = index;
          channel_id = channel_id;
        } in
        let w' : World = record {
          channels = update w.channels channel_id sh';
          indicator = (notify false call w.indicator).1;
        } in
        let self = update_self w.channels channel_id sh' in
        (
          w',
          index,
          rb,
          acquire_and_send-eq m contents c host fuel lost msg info false
                (sender host_id channel_id n) w ds index s wrote got
              ∙ ap
                  (λ b.
                    send m contents c host fuel lost msg info false (sender host_id channel_id n)
                      index s (blocks_after m contents b s sh.blocks) w)
                  kept
              ∙ send-eq m contents c host fuel lost msg info (sender host_id channel_id n) index s
                  sh.blocks w rb put_in
              ∙ ap (λ mp. some (true, record (sender host_id channel_id n) { segment = mp }, w'))
                  same_mapping,
          record {
            below = handed.below;
            unlocked = ap (λ x. x.locks index) self ∙ unlocked;
            written = ap (λ x. x.blocks index) self ∙ update_self sh.blocks index rb;
            mapped =
                ap (λ x. x.state.need_remap) self
                ∙ ap (λ x. x.state.need_remap) done_eq
                ∙ handed.same_remap
                ∙ mapped;
            told = refl;
          },
          read_out,
        )
