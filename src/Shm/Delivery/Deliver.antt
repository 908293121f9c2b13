-- ===== src/Shm/Delivery/Deliver.antt =====
-- From `Transmit` to the listeners.
use hnu_middleware.Base.{
  ℕ, Bool, ◌+◌, ◌*◌, ◌^◌, ◌<◌, ◌≤◌, ◌≡◌, sym, ap, ◌∙◌, subst, true, false, Option, some, List, [],
  ◌∷◌, length, update, update_self, arith,
}
use hnu_middleware.Serialize.Bytes.{ByteOrder}
use hnu_middleware.Serialize.Codec.{Codec, IsLawful}
use hnu_middleware.Locks.Block.{max_try_lock_times}
use hnu_middleware.Locks.Counting.{increment, decrement, int_limit}
use hnu_middleware.Shm.Notifier.{listen}
use hnu_middleware.Listeners.Dispatcher.Promise.{Listeners}
use hnu_middleware.Listeners.Dispatcher.Messages.{Stands}
use hnu_middleware.Shm.Conf.{conf_of}
use hnu_middleware.Shm.Message.{MessageInfo}
use hnu_middleware.Shm.Readable.{ReadableInfo}
use hnu_middleware.Shm.Transfer.{BlockData, read_message, IsTrailer, received}
use hnu_middleware.Shm.Segment.{Segment, Memory, release_read_block}
use hnu_middleware.Shm.Segment.Blocks.{turn_index, release-eq}
use hnu_middleware.Shm.Delivery.{Shared, World, Reader, view, mapping_of, shared_of, transmit}
use hnu_middleware.Shm.Delivery.Thread.{read_locked, thread_turn}
use hnu_middleware.Shm.Delivery.Steps.{open_mapping, sender, listen-notify}
use hnu_middleware.Shm.Delivery.Transmit.{Sent, transmit-Sent}
use hnu_middleware.Shm.Delivery.Read.{Args, locked, read_acquired-eq, read_block-eq, thread_turn-eq}
use hnu_middleware.Shm.Delivery.Heard.{Listener, heard_by, Adapted, read_locked-heard}

-- The block is free again once it is read.
released-unlocked :
    (n index : ℕ) (sh : Shared)
    → index < (conf_of n).block_num
    → sh.locks index ≡ 0
    → (release_read_block index (locked n index sh)).locks index ≡ 0
released-unlocked n index sh below unlocked =
    let held = update sh.locks index (increment (sh.locks index)) in
    ap (λ s. s.locks index) (release-eq index (locked n index sh) below)
    ∙ update_self held index (decrement (held index))
    ∙ ap decrement (update_self sh.locks index (increment (sh.locks index)) ∙ ap increment unlocked)

module _ (m : Memory) (contents : Segment → ℕ → BlockData) {M W : Type 0} (c : Codec M)
    (host : ByteOrder) (table_size readable_block : ℕ) where
  -- One turn of the thread after a message was sent
  turn-heard :
      (lost : ℕ → Bool) (j host_id channel_id n index : ℕ) (w w' : World) (rb : BlockData) (msg : M)
      (info : MessageInfo) (r : Reader Args (Option W)) (l : Listeners Args (Option W))
      (als ones : List (Listener M W)) (x : W)
      → j < max_try_lock_times
      → lost j ≡ false
      → Sent host_id channel_id w w' index rb n
      → read_message c host rb ≡ some (msg, received info)
      → r.host_id ≡ host_id
      → r.segments channel_id ≡ some (open_mapping n)
      → w.indicator.next_seq ≡ r.next_seq
      → r.next_seq + 1 < 2 ^ 64
      → Stands table_size readable_block r.dispatcher l
      → Adapted m contents c host table_size readable_block l channel_id als ones
      → (r' : Reader Args (Option W)) × (w'' : World) × (thread_turn m contents c host table_size
            readable_block lost
            ((false, w'.indicator) ∷ [])
            r
            w'
            (some x)
          ≡ some (
            r',
            w'',
            some (heard_by ones msg (received info) (heard_by als msg (received info) x)),
          ))
        × ((w''.channels channel_id).locks index ≡ 0)
        × Stands table_size readable_block r'.dispatcher l
  turn-heard lost j host_id channel_id n index w w' rb msg info r l als ones x tries wins sent read
        here known heard few st ad =
      let call : ReadableInfo = record {
        host_id = host_id;
        block_index = index;
        channel_id = channel_id;
      } in
      let sh = w'.channels channel_id in
      let r1 : Reader Args (Option W) = record r {
        next_seq = r.next_seq + 1;
        previous_indexs = update r.previous_indexs channel_id (some index);
      } in
      let (d, did, st') =
        read_locked-heard m contents c host table_size readable_block channel_id index rb msg info
          r1 l als ones x read st ad in
      let y = some (heard_by ones msg (received info) (heard_by als msg (received info) x)) in
      let hears =
        subst
          (λ i.
            listen ((false, i) ∷ []) (100 * 1000) r.next_seq ≡ some (some (call, r.next_seq + 1)))
          (sym sent.told) (listen-notify call w.indicator r.next_seq heard few) in
      let final = release_read_block index (locked n index sh) in
      (
        record r1 {
          dispatcher = d;
          segments = update r.segments channel_id (some (mapping_of final));
        },
        record w' { channels = update w'.channels channel_id (shared_of final sh.blocks) },
        thread_turn-eq m contents c host table_size readable_block lost call n r w' (some x)
              w'.indicator hears (sym here) known
            ∙ read_block-eq m contents c host table_size readable_block lost j channel_id index n r1
                w' (some x) tries wins sent.mapped sent.below
                (subst (λ k. k < int_limit) (sym sent.unlocked) (omega arith))
            ∙ read_acquired-eq m contents c host table_size readable_block channel_id index
                (locked n index sh) sh.blocks r1 (record r1 { dispatcher = d }) w' (some x) y
                (subst
                  (λ b.
                    read_locked m contents c host table_size readable_block channel_id index b r1
                      (some x)
                    ≡ some (record r1 { dispatcher = d }, y))
                  (sym sent.written) did),
        ap (λ s. s.locks index) (update_self w'.channels channel_id (shared_of final sh.blocks))
            ∙ released-unlocked n index sh sent.below sent.unlocked,
        st',
      )

  -- What the memory and the reader have before a message of channel `channel_id` is sent: `k` says
  -- which of the places that the transmitter tries is free, and `j` which of the reader's tries to lock
  -- the block is not lost.
  pub record Ready (fuel : ℕ) (lost read_lost : ℕ → Bool) (host_id channel_id n k j : ℕ) (w : World)
      (r : Reader Args (Option W)) : Type 0 where
    pub sized : (i : ℕ) → length ((w.channels channel_id).blocks i).buf ≡ (conf_of n).block_buf_size
    pub mapped : (w.channels channel_id).state.need_remap ≡ false
    pub seq_below : (w.channels channel_id).state.seq < 2 ^ 32
    pub in_fuel : k < fuel
    pub writes : lost k ≡ false
    pub in_tries : j < max_try_lock_times
    pub reads : read_lost j ≡ false
    pub free :
        (w.channels channel_id).locks (turn_index (view (open_mapping n) (w.channels channel_id)) k)
        ≡ 0
    pub same_host : r.host_id ≡ host_id
    pub known : r.segments channel_id ≡ some (open_mapping n)
    pub heard_all : w.indicator.next_seq ≡ r.next_seq
    pub few : r.next_seq + 1 < 2 ^ 64

  -- The message type has a codec that reads back what it writes (it is lawful), and the message is one
  -- that the codec takes; the identities of its info have eight bytes, and its number is below 2^64. A
  -- transmitter that is enabled and has its segment open sends it, and it is at most as long as the
  -- segment's ceiling: then `Transmit` is true, and the next turn of the thread of a dispatcher of the
  -- same host, which has the channel's segment open and has read all notifications before, calls with
  -- that message each listener that is promised for all senders and then each one for the hash 0, in
  -- order and once, frees the block, and leaves the listeners as they were. The conditions: the
  -- segment needs no new mapping and its buffers have the size that its configuration gives them; on
  -- one of the transmitter's turns within the fuel, the place that it tries is free and the weak
  -- compare-exchange of `TryLockForWrite` does not fail spuriously; one of the five of
  -- `TryLockForRead` does not fail spuriously; fewer than 2^64 - 1 notifications were sent; and the
  -- channel's listeners are of the type `ReadableBlock`.
  pub transmit-heard :
      {Valid : M → Type 0} (lawful : IsLawful c Valid) (fuel : ℕ) (lost read_lost : ℕ → Bool)
      (host_id channel_id n k j : ℕ) (w : World) (r : Reader Args (Option W))
      (l : Listeners Args (Option W)) (als ones : List (Listener M W)) (msg : M)
      (info : MessageInfo) (x : W)
      → Valid msg
      → IsTrailer info
      → length (lawful.encode msg) ≤ (conf_of n).ceiling_msg_size
      → Ready fuel lost read_lost host_id channel_id n k j w r
      → Stands table_size readable_block r.dispatcher l
      → Adapted m contents c host table_size readable_block l channel_id als ones
      → (w' w'' : World) × (r' : Reader Args (Option W)) × (index : ℕ) × (transmit m contents c host
            fuel lost msg info false
            (sender host_id channel_id n)
            w
          ≡ some (true, sender host_id channel_id n, w'))
        × (thread_turn m contents c host table_size readable_block read_lost
              ((false, w'.indicator) ∷ [])
              r
              w'
              (some x)
            ≡ some (
              r',
              w'',
              some (heard_by ones msg (received info) (heard_by als msg (received info) x)),
            ))
        × ((w''.channels channel_id).locks index ≡ 0)
        × Stands table_size readable_block r'.dispatcher l
  transmit-heard lawful fuel lost read_lost host_id channel_id n k j w r l als ones msg info x valid
        trailer fits ready st ad =
      let (w', index, rb, sent, left, read) =
        transmit-Sent m contents c host fuel lost lawful host_id channel_id n msg info w k valid
          trailer fits ready.sized ready.mapped ready.seq_below ready.in_fuel ready.writes
          ready.free in
      let (r', w'', turned, unlocked, st') =
        turn-heard read_lost j host_id channel_id n index w w' rb msg info r l als ones x
          ready.in_tries ready.reads left read ready.same_host ready.known ready.heard_all ready.few
          st ad in
      (w', w'', r', index, sent, turned, unlocked, st')
