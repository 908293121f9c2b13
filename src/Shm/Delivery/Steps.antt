-- ===== src/Shm/Delivery/Steps.antt =====
-- The calls of a delivery where nothing stands in their way.
use hnu_middleware.Base.{
  ℕ, ◌+◌, ◌*◌, ◌%◌, ◌^◌, ◌<◌, ◌≤◌, ◌≡◌, refl, sym, subst, Bool, true, false, ◌&&◌, some, [], ◌∷◌,
  length, leb, ◌==◌, update, update_self, ne→==_false, arith,
}
use hnu_middleware.Serialize.Bytes.{ByteOrder}
use hnu_middleware.Serialize.Codec.{Codec}
use hnu_middleware.Serialize.Stream.{Stream, empty_stream}
use hnu_middleware.Locks.Counting.{increment}
use hnu_middleware.Shm.Conf.{conf_of, get_ceiling_message_size, get_block_num}
use hnu_middleware.Shm.Message.{MessageInfo}
use hnu_middleware.Shm.Transfer.{BlockData, write_message}
use hnu_middleware.Shm.Notifier.{Indicator, notify, claim, put, try_read, listen, k_buf_length}
use hnu_middleware.Shm.Segment.{
  Segment, Memory, acquire_block_to_write, release_written_block, get_next_writable_block_index,
}
use hnu_middleware.Shm.Delivery.{
  Mapping, World, Transmitter, view, mapping_of, shared_of, blocks_after, stays, send,
  acquire_and_send,
}

-- A `Segment` object that is open, made for messages of `n` bytes
abbrev pub open_mapping : ℕ → Mapping
open_mapping n = record { init = true; conf = conf_of n }

-- A transmitter that is enabled and has its segment open
abbrev pub sender : ℕ → ℕ → ℕ → Transmitter
sender host_id channel_id n = record {
  enabled = true;
  host_id = host_id;
  channel_id = channel_id;
  segment = open_mapping n;
}

pub conf_of-some_blocks : (n : ℕ) → 0 < (conf_of n).block_num
unfolding conf_of get_ceiling_message_size get_block_num
conf_of-some_blocks n = ground arith

pub le→leb : (a b : ℕ) → a ≤ b → leb a b ≡ true
le→leb a b h = ground arith

pub acquire_write-eq :
    (m : Memory) (fuel : ℕ) (lost : ℕ → Bool) (size : ℕ) (s : Segment) (index : ℕ) (s' : Segment)
    → s.init ≡ true
    → s.state.need_remap ≡ false
    → size ≤ s.conf.ceiling_msg_size
    → get_next_writable_block_index fuel lost s ≡ some (index, s')
    → acquire_block_to_write m fuel lost size s ≡ some (some index, s')
unfolding acquire_block_to_write
acquire_write-eq m fuel lost size s index s' open_now mapped fits next =
    ground (arith, open_now, mapped, next)

pub release_written-eq :
    (index : ℕ) (s : Segment)
    → index < s.conf.block_num
    → release_written_block index s
      ≡ record s { locks = update s.locks index (increment (s.locks index)) }
unfolding release_written_block
release_written-eq index s below = ground arith

try_read-notify :
    {I : Type 0} (info : I) (ind : Indicator I)
    → ind.next_seq + 1 < 2 ^ 64
    → try_read ind.next_seq (notify false info ind).1 ≡ some (info, ind.next_seq + 1)
unfolding try_read notify put claim
try_read-notify info ind few =
    let n = ind.next_seq in
    let more : (((n + 1) % 2 ^ 64) == n) ≡ false = ne→==_false ((n + 1) % 2 ^ 64) n (omega arith) in
    let ready : leb n n ≡ true = ground arith in
    let wraps : (n + 1) % 2 ^ 64 ≡ n + 1 = omega arith in
    rw
      (
        more,
        update_self ind.seqs (n % k_buf_length) n,
        update_self ind.infos (n % k_buf_length) info,
        ready,
        wraps,
      )
      refl

listen-got :
    {I : Type 0} (ind : Indicator I) (seq : ℕ) (r : I × ℕ)
    → try_read seq ind ≡ some r
    → listen ((false, ind) ∷ []) (100 * 1000) seq ≡ some (some r)
unfolding listen
listen-got ind seq r got = rw (got) refl

-- A listener that has read all notifications hears the next one.
pub listen-notify :
    {I : Type 0} (info : I) (ind : Indicator I) (seq : ℕ)
    → ind.next_seq ≡ seq
    → seq + 1 < 2 ^ 64
    → listen ((false, (notify false info ind).1) ∷ []) (100 * 1000) seq
      ≡ some (some (info, seq + 1))
listen-notify info ind seq same few =
    subst
      (λ k.
        listen ((false, (notify false info ind).1) ∷ []) (100 * 1000) k ≡ some (some (info, k + 1)))
      same
      (listen-got (notify false info ind).1 ind.next_seq (info, ind.next_seq + 1)
        (try_read-notify info ind (subst (λ k. k + 1 < 2 ^ 64) (sym same) few)))

module _ (m : Memory) (contents : Segment → ℕ → BlockData) {M : Type 0} (c : Codec M)
    (host : ByteOrder) (fuel : ℕ) (lost : ℕ → Bool) where
  pub acquire_and_send-eq :
      (msg : M) (info : MessageInfo) (down : Bool) (t : Transmitter) (w : World) (ds : Stream)
      (index : ℕ) (s : Segment)
      → c.write host msg (empty_stream host) ≡ some ds
      → acquire_block_to_write m fuel lost
          (length ds.buf)
          (view t.segment (w.channels t.channel_id))
        ≡ some (some index, s)
      → acquire_and_send m contents c host fuel lost msg info down t w
        ≡ send m contents c host fuel lost msg info down t index s
            (blocks_after m contents
              (stays m contents (view t.segment (w.channels t.channel_id))
                && leb (length ds.buf) t.segment.conf.ceiling_msg_size)
              s
              (w.channels t.channel_id).blocks)
            w
  unfolding acquire_and_send
  acquire_and_send-eq msg info down t w ds index s wrote got = rw (wrote, got) refl

  pub send-eq :
      (msg : M) (info : MessageInfo) (t : Transmitter) (index : ℕ) (s : Segment)
      (blocks : ℕ → BlockData) (w : World) (rb : BlockData)
      → write_message c host msg info (blocks index) ≡ some rb
      → send m contents c host fuel lost msg info false t index s blocks w
        ≡ some (
          true,
          record t { segment = mapping_of (release_written_block index s) },
          record {
            channels =
                update w.channels t.channel_id
                  (shared_of (release_written_block index s) (update blocks index rb));
            indicator =
                (notify false
                  (record { host_id = t.host_id; block_index = index; channel_id = t.channel_id })
                  w.indicator).1;
          },
        )
  unfolding send notify
  send-eq msg info t index s blocks w rb wrote = rw (wrote) refl
