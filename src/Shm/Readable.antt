-- ===== src/Shm/Readable.antt =====
-- `ReadableInfo` (transport/shm/core/readable_info.cpp): which block of which channel of which host is
-- to be read, and its bytes. Fields are copied as the host has them; null pointers are left out.
use hnu_middleware.Base.{
  ℕ, ◌+◌, ◌*◌, ◌^◌, ◌<◌, ◌≡◌, refl, Bool, true, false, List, ◌++◌, append_assoc, length,
  length-append, ltb, if◌then◌else◌, arith,
}
use hnu_middleware.Serialize.Bytes.{ByteOrder, object_bytes, from_object}
use hnu_middleware.Shm.Pieces.{piece, three_pieces, length-object_bytes, from_object-object_bytes}

pub record ReadableInfo : Type 0 where
  pub host_id : ℕ
  pub block_index : ℕ
  pub channel_id : ℕ

-- `ReadableInfo::ksize`
abbrev pub ksize : ℕ
ksize = 8 * 2 + 4

module _ (host : ByteOrder) where
  unfoldable pub serialize_to : ReadableInfo → List ℕ
  serialize_to info =
      object_bytes host 8 info.host_id
      ++ (object_bytes host 4 info.block_index ++ object_bytes host 8 info.channel_id)

  unfoldable pub deserialize_from : List ℕ → ReadableInfo → Bool × ReadableInfo
  deserialize_from src old = if ltb (length src) ksize then (false, old) else (
    true,
    record {
      host_id = from_object host (piece 0 8 src);
      block_index = from_object host (piece 8 4 src);
      channel_id = from_object host (piece 12 8 src);
    },
  )

  -- The fields are in the range of their types.
  pub record IsReadable (info : ReadableInfo) : Type 0 where
    pub host_below : info.host_id < 2 ^ 64
    pub index_below : info.block_index < 2 ^ 32
    pub channel_below : info.channel_id < 2 ^ 64

  deserialize-pieces :
      (a b c rest : List ℕ) (old : ReadableInfo)
      → length a ≡ 8
      → length b ≡ 4
      → length c ≡ 8
      → deserialize_from (a ++ (b ++ (c ++ rest))) old ≡ (
        true,
        record {
          host_id = from_object host a;
          block_index = from_object host b;
          channel_id = from_object host c;
        },
      )
  unfolding deserialize_from
  deserialize-pieces a b c rest old p q r =
      let parts = three_pieces a b c rest p q r in
      let long : ltb (length (a ++ (b ++ (c ++ rest)))) ksize ≡ false = ground (
        arith,
        length-append a (b ++ (c ++ rest)),
        length-append b (c ++ rest),
        length-append c rest,
      ) in
      rw (long, parts.first, parts.second, parts.third) refl

  deserialize-short :
      (src : List ℕ) (old : ReadableInfo)
      → length src < ksize
      → deserialize_from src old ≡ (false, old)
  unfolding deserialize_from
  deserialize-short src old h = ground arith

  -- What `SerializeTo` wrote, with any bytes behind it, `DeserializeFrom` takes and gets the fields
  -- back, if they are in the range of their types; fewer than `ksize` bytes it refuses, and the object
  -- stays as it was.
  pub deserialize-serialize_readable :
      (info old : ReadableInfo) (rest short : List ℕ)
      → IsReadable info
      → length short < ksize
      → (deserialize_from (serialize_to info ++ rest) old ≡ (true, info))
        × (deserialize_from short old ≡ (false, old))
  unfolding serialize_to
  deserialize-serialize_readable info old rest short fit few = (
    rw
        (
          append_assoc (object_bytes host 8 info.host_id)
              (object_bytes host 4 info.block_index ++ object_bytes host 8 info.channel_id) rest,
          append_assoc (object_bytes host 4 info.block_index) (object_bytes host 8 info.channel_id)
              rest,
          deserialize-pieces (object_bytes host 8 info.host_id)
              (object_bytes host 4 info.block_index) (object_bytes host 8 info.channel_id) rest old
              (length-object_bytes host 8 info.host_id)
              (length-object_bytes host 4 info.block_index)
              (length-object_bytes host 8 info.channel_id),
          from_object-object_bytes host 8 info.host_id fit.host_below,
          from_object-object_bytes host 4 info.block_index fit.index_below,
          from_object-object_bytes host 8 info.channel_id fit.channel_below,
        )
        refl,
    deserialize-short short old few,
  )
