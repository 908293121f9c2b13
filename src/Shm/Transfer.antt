-- ===== src/Shm/Transfer.antt =====
-- A message through a block of shared memory: what `ShmTransmitter<M>::Transmit`
-- (transport/transmitter/shm_transmitter.h) writes to the block that it acquired, and what
-- `ShmDispatcher::ReadMessage` (transport/dispatcher/shm_dispatcher.cpp) and the listener adapter of
-- `ShmDispatcher::AddListener` make of it. `none` is an access outside a buffer.
use hnu_middleware.Base.{
  ℕ, ◌+◌, ◌*◌, ◌^◌, ◌<◌, ◌≤◌, ◌≡◌, refl, sym, ap, ◌∙◌, true, List, [], ◌++◌, length, Option, some,
  Option-cases, inl, inr, ap₂, ◌>>=◌, slice, arith,
}
use mathlib.Core.Option.{some-injective, none-ne-some}
use hnu_middleware.Serialize.Bytes.{ByteOrder, object_bytes, from_object, byteorder_lem}
use hnu_middleware.Serialize.Codec.{Codec, IsLawful}
use hnu_middleware.Serialize.Stream.{Stream, empty_stream, stream_of}
use hnu_middleware.Serialize.Stream.Reserve.{room}
use hnu_middleware.Serialize.RoundTrip.{read-encoded}
use hnu_middleware.Shm.Conf.{conf_of, conf_of-room}
use hnu_middleware.Shm.Pieces.{
  copy_to, copy_to-append, split_at, copy_to-two, copy_to-three, slice_at, slice-two, slice-three,
  length-object_bytes, from_object-object_bytes,
}
use hnu_middleware.Shm.Message.{no_identity, id_size, MessageInfo}

-- A `Block` with the buffer that belongs to it.
pub record BlockData : Type 0 where
  pub msg_size : ℕ
  pub msg_info_size : ℕ
  pub buf : List ℕ

module _ {M : Type 0} (c : Codec M) (host : ByteOrder) where
  -- `Transmit`, between the acquisition of the block and its release.
  unfoldable pub write_message : M → MessageInfo → BlockData → Option BlockData
  write_message msg msg_info wb = do
    ds ← c.write host msg (empty_stream host)
    with_msg ← copy_to 0 ds.buf wb.buf
    with_sender ← copy_to (length ds.buf) msg_info.sender_id.id_data with_msg
    with_spare ← copy_to (length ds.buf + id_size) msg_info.spare_id.id_data with_sender
    with_seq ←
        copy_to (length ds.buf + id_size * 2) (object_bytes host 8 msg_info.seq_num) with_spare
    some record { msg_size = length ds.buf; msg_info_size = id_size * 2 + 8; buf = with_seq }

  -- What `ReadMessage` copies from behind the message
  unfoldable pub read_info : BlockData → Option MessageInfo
  read_info rb = do
    sender ← slice rb.buf rb.msg_size id_size
    spare ← slice rb.buf (rb.msg_size + id_size) id_size
    seq ← slice rb.buf (rb.msg_size + 2 * id_size) 8
    some record {
      sender_id = record no_identity { id_data = sender };
      channel_id = 0;
      seq_num = from_object host seq;
      spare_id = record no_identity { id_data = spare };
    }

  -- What the listener adapter makes of the message's bytes; its result is dropped.
  unfoldable pub read_body : BlockData → Option M
  read_body rb = do
    bytes ← slice rb.buf 0 rb.msg_size
    (flag, msg, ds) ← c.read host c.fresh (stream_of host bytes)
    some msg

  -- Both, between the acquisition of the block and its release: the message and the `MessageInfo` that
  -- the listener is called with.
  unfoldable pub read_message : BlockData → Option (M × MessageInfo)
  unfolding read_info read_body
  read_message rb = do msg_info ← read_info rb; msg ← read_body rb; some (msg, msg_info)

-- The parts of a buffer that a message of `n` bytes and its trailer fill.
record Room (n : ℕ) (buf : List ℕ) : Type 0 where
  p₀ : List ℕ
  p₁ : List ℕ
  p₂ : List ℕ
  p₃ : List ℕ
  rest : List ℕ
  for_msg : length p₀ ≡ n
  for_sender : length p₁ ≡ id_size
  for_spare : length p₂ ≡ id_size
  for_seq : length p₃ ≡ 8
  whole : buf ≡ p₀ ++ (p₁ ++ (p₂ ++ (p₃ ++ rest)))

split-Room : (n : ℕ) (buf : List ℕ) → n + 24 ≤ length buf → Room n buf
split-Room n buf h =
    let (a, r₀, la, l₀, e₀) = split_at n buf (omega arith) in
    let (b, r₁, lb, l₁, e₁) = split_at id_size r₀ (omega arith) in
    let (c, r₂, lc, l₂, e₂) = split_at id_size r₁ (omega arith) in
    let (d, r₃, ld, l₃, e₃) = split_at 8 r₂ (omega arith) in
    record {
      p₀ = a;
      p₁ = b;
      p₂ = c;
      p₃ = d;
      rest = r₃;
      for_msg = la;
      for_sender = lb;
      for_spare = lc;
      for_seq = ld;
      whole = e₀ ∙ ap (λ t. a ++ t) (e₁ ∙ ap (λ t. b ++ t) (e₂ ∙ ap (λ t. c ++ t) e₃));
    }

abbrev filled : List ℕ → List ℕ → List ℕ → List ℕ → List ℕ → List ℕ
filled ds sender spare seq rest = ds ++ (sender ++ (spare ++ (seq ++ rest)))

-- The identities are of eight bytes, and the sequence number is in the range of its type.
pub record IsTrailer (info : MessageInfo) : Type 0 where
  pub sender : length info.sender_id.id_data ≡ id_size
  pub spare : length info.spare_id.id_data ≡ id_size
  pub seq_below : info.seq_num < 2 ^ 64

-- What a reader of a block gets of the `MessageInfo`: no hash of the identities, no channel.
abbrev pub received : MessageInfo → MessageInfo
received info = record {
  sender_id = record { id_data = info.sender_id.id_data; hash_value = 0 };
  channel_id = 0;
  seq_num = info.seq_num;
  spare_id = record { id_data = info.spare_id.id_data; hash_value = 0 };
}

module _ {M : Type 0} (c : Codec M) (host : ByteOrder) where
  write-filled :
      (msg : M) (info : MessageInfo) (wb : BlockData) {s : Stream}
      → IsTrailer info
      → c.write host msg (empty_stream host) ≡ some s
      → (room : Room (length s.buf) wb.buf)
      → write_message c host msg info wb
        ≡ some (record {
          msg_size = length s.buf;
          msg_info_size = 24;
          buf =
              filled s.buf info.sender_id.id_data info.spare_id.id_data
                (object_bytes host 8 info.seq_num)
                room.rest;
        })
  unfolding write_message
  write-filled msg info wb {s} t wrote room =
      let ds = s.buf in
      let a = info.sender_id.id_data in
      let b = info.spare_id.id_data in
      let seq = object_bytes host 8 info.seq_num in
      rw
        (
          wrote,
          room.whole,
          copy_to-append [] room.p₀ (room.p₁ ++ (room.p₂ ++ (room.p₃ ++ room.rest))) ds refl
              room.for_msg,
          copy_to-append ds room.p₁ (room.p₂ ++ (room.p₃ ++ room.rest)) a refl
              (room.for_sender ∙ sym t.sender),
          copy_to-two ds a room.p₂ (room.p₃ ++ room.rest) b {i = length ds + id_size}
              (ap (λ k. length ds + k) t.sender) (room.for_spare ∙ sym t.spare),
          copy_to-three ds a room.p₃ room.rest seq b {i = length ds + id_size * 2}
              (omega (arith, t.sender, t.spare))
              (room.for_seq ∙ sym (length-object_bytes host 8 info.seq_num)),
        )
        refl

  read-filled :
      (msg : M) (info : MessageInfo) (ds rest : List ℕ) (n : ℕ) {r : Stream}
      → IsTrailer info
      → c.read host c.fresh (stream_of host ds) ≡ some (true, msg, r)
      → read_message c host record {
        msg_size = length ds;
        msg_info_size = n;
        buf =
            filled ds info.sender_id.id_data info.spare_id.id_data
              (object_bytes host 8 info.seq_num)
              rest;
      }
        ≡ some (msg, received info)
  unfolding read_message read_info read_body no_identity
  read-filled msg info ds rest n t got =
      let a = info.sender_id.id_data in
      let b = info.spare_id.id_data in
      let seq = object_bytes host 8 info.seq_num in
      rw
        (
          slice_at ds a (b ++ (seq ++ rest)) refl t.sender,
          slice-two ds a b (seq ++ rest) {i = length ds + id_size}
              (ap (λ k. length ds + k) t.sender) t.spare,
          slice-three ds a b seq rest {i = length ds + 2 * id_size}
              (omega (arith, t.sender, t.spare)) (length-object_bytes host 8 info.seq_num),
          slice_at [] ds (a ++ (b ++ (seq ++ rest))) refl refl,
          got,
          from_object-object_bytes host 8 info.seq_num t.seq_below,
        )
        refl

-- What is read from a block is its trailer and its message.
pub read_message-parts :
    {M : Type 0} (c : Codec M) (host : ByteOrder) (rb : BlockData) (msg : M) (info : MessageInfo)
    → read_message c host rb ≡ some (msg, info)
    → (read_info c host rb ≡ some info) × (read_body c host rb ≡ some msg)
unfolding read_message
read_message-parts c host rb msg info e = elim (Option-cases (read_info c host rb)) [
  | inl no_info ↦ absurd (
      none-ne-some (msg, info)
        (sym (ap (λ o. o >>= λ i. read_body c host rb >>= λ b. some (b, i)) no_info) ∙ e))
  | inr (i, some_info) ↦ elim (Option-cases (read_body c host rb)) [
    | inl no_body ↦ absurd (
        none-ne-some (msg, info)
          (sym (ap₂ (λ o p. o >>= λ i. p >>= λ b. some (b, i)) some_info no_body) ∙ e))
    | inr (b, some_body) ↦
        let same : some (b, i) ≡ some (msg, info) =
          sym (ap₂ (λ o p. o >>= λ i. p >>= λ b. some (b, i)) some_info some_body) ∙ e in
        let pair : (b, i) ≡ (msg, info) = some-injective (b, i) (msg, info) same in
        (some_info ∙ ap (λ p. some p.1) pair, some_body ∙ ap (λ p. some p.0) pair)
  ]
]

module _ {M : Type 0} {c : Codec M} {Valid : M → Type 0} (l : IsLawful c Valid) where
  -- A message that needs at most the configuration's ceiling is written to a new stream.
  pub write-encoded :
      (host : ByteOrder) (msg : M) (real_msg_size : ℕ)
      → Valid msg
      → length (l.encode msg) ≤ (conf_of real_msg_size).ceiling_msg_size
      → (s : Stream) × (c.write host msg (empty_stream host) ≡ some s)
        × (length s.buf ≡ length (l.encode msg))
  unfolding empty_stream
  write-encoded host msg real_msg_size valid fits =
      let (buf_size, ceiling) = conf_of-room real_msg_size in
      let (s, wrote, w) =
        l.write-Writes host msg (empty_stream host) (byteorder_lem host) valid
          (omega arith, omega arith) in
      (s, wrote, ap length w.buf)

  -- The codec of the message type reads back what it writes (it is lawful), and the message is one
  -- that it takes; the identities of the `MessageInfo` have eight bytes and its number is below 2^64;
  -- a block's buffer has the size that the configuration gives it, and the message needs at most the
  -- configuration's ceiling. Then `write_message` succeeds, and `read_message` of the block it leaves
  -- gives the message and the `MessageInfo`, the latter with its identities' bytes and its sequence
  -- number, but with 0 for the hashes of the identities and for the channel.
  pub read_message-write_message :
      (host : ByteOrder) (msg : M) (info : MessageInfo) (wb : BlockData) (real_msg_size : ℕ)
      → Valid msg
      → IsTrailer info
      → length wb.buf ≡ (conf_of real_msg_size).block_buf_size
      → length (l.encode msg) ≤ (conf_of real_msg_size).ceiling_msg_size
      → (rb : BlockData) × (write_message c host msg info wb ≡ some rb)
        × (read_message c host rb ≡ some (msg, received info))
  unfolding empty_stream
  read_message-write_message host msg info wb real_msg_size valid t sized fits =
      let (buf_size, ceiling) = conf_of-room real_msg_size in
      let (s, wrote, w) =
        l.write-Writes host msg (empty_stream host) (byteorder_lem host) valid
          (omega arith, omega arith) in
      let (r, got, end) = read-encoded l host msg c.fresh s.buf valid w.buf in
      let room = split-Room (length s.buf) wb.buf (omega (arith, ap length w.buf)) in
      (
        _,
        write-filled c host msg info wb t wrote room,
        read-filled c host msg info s.buf room.rest 24 t got,
      )
