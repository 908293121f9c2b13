-- ===== src/Shm/Message.antt =====
-- `Identity` (transport/common/identity.cpp, the constructors that generate a UUID left out) and
-- `MessageInfo` (transport/message/message_info.cpp) with its bytes. Fields are copied as the host
-- has them; null pointers are left out.
use hnu_middleware.Base.{
  ℕ, ltb, ◌&&◌, ◌∷◌, ◌+◌, ◌*◌, ◌^◌, ◌<◌, ◌≡◌, ◌≢◌, refl, sym, ap, ◌∙◌, append-nil, [], drop, Bool,
  true, false, List, ◌++◌, length, length-append, ◌==◌, if◌then◌else◌, not, replicate, arith,
}
use hnu_middleware.Serialize.Bytes.{ByteOrder, object_bytes, from_object}
use hnu_middleware.Shm.Pieces.{piece, three_pieces, length-object_bytes, from_object-object_bytes}

abbrev pub id_size : ℕ
id_size = 8

pub record Identity : Type 0 where
  pub id_data : List ℕ
  pub hash_value : ℕ

-- `Identity(false)`
unfoldable pub no_identity : Identity
no_identity = record { id_data = replicate id_size 0; hash_value = 0 }

-- `set_data` from a pointer: a copy of `ID_SIZE` bytes, then `Update`. `common::Hash` is a parameter.
unfoldable pub set_data : (List ℕ → ℕ) → List ℕ → Identity
set_data hash src = record {
  id_data = piece 0 id_size src;
  hash_value = hash (piece 0 id_size src);
}

pub record MessageInfo : Type 0 where
  pub sender_id : Identity
  pub channel_id : ℕ
  pub seq_num : ℕ
  pub spare_id : Identity

-- `memcmp(...) == 0` on as many bytes
unfoldable pub same_bytes : List ℕ → List ℕ → Bool
same_bytes [] [] = true
same_bytes [] (b ∷ bs) = false
same_bytes (a ∷ as_) [] = false
same_bytes (a ∷ as_) (b ∷ bs) = (a == b) && same_bytes as_ bs

-- `Identity::operator==`
unfoldable pub same_identity : Identity → Identity → Bool
same_identity a b = same_bytes a.id_data b.id_data

-- `MessageInfo::operator==` and `MessageInfo::operator!=`
unfoldable pub same_message : MessageInfo → MessageInfo → Bool
same_message a b =
    same_identity a.sender_id b.sender_id
    && (a.channel_id == b.channel_id)
    && (a.seq_num == b.seq_num)
    && same_identity a.spare_id b.spare_id

unfoldable pub differ_message : MessageInfo → MessageInfo → Bool
differ_message a b = not (same_message a b)

-- `MessageInfo::kSize`
abbrev pub k_size : ℕ
k_size = 2 * id_size + 8

module _ (host : ByteOrder) (hash : List ℕ → ℕ) where
  unfoldable pub serialize_to : MessageInfo → List ℕ
  serialize_to info =
      info.sender_id.id_data ++ (object_bytes host 8 info.seq_num ++ info.spare_id.id_data)

  unfoldable pub deserialize_from : List ℕ → MessageInfo → Bool × MessageInfo
  deserialize_from src old = if not (length src == k_size) then (false, old) else (
    true,
    record {
      sender_id = set_data hash src;
      channel_id = old.channel_id;
      seq_num = from_object host (piece id_size 8 src);
      spare_id = set_data hash (drop (id_size + 8) src);
    },
  )

  -- `SerializeTo(char* dst, std::size_t len)`, with the `len` bytes at `dst`.
  unfoldable pub serialize_into : MessageInfo → List ℕ → Bool × List ℕ
  serialize_into info dst =
      if ltb (length dst) k_size then (false, dst) else (true, serialize_to info ++ drop k_size dst)

  -- An identity of eight bytes with the hash of them, as `set_data` leaves it.
  pub record IsIdentity (id : Identity) : Type 0 where
    pub eight : length id.id_data ≡ id_size
    pub hashed : id.hash_value ≡ hash id.id_data

  pub record IsMessage (info : MessageInfo) : Type 0 where
    pub sender : IsIdentity info.sender_id
    pub spare : IsIdentity info.spare_id
    pub seq_below : info.seq_num < 2 ^ 64

  set_data-piece :
      (id : Identity) (i : ℕ) (src : List ℕ)
      → IsIdentity id
      → piece i id_size src ≡ id.id_data
      → set_data hash (drop i src) ≡ id
  unfolding set_data piece
  set_data-piece id i src h e = rw (e, sym h.hashed) refl

  deserialize-pieces :
      (info old : MessageInfo) (b : List ℕ)
      → IsIdentity info.sender_id
      → IsIdentity info.spare_id
      → length b ≡ 8
      → from_object host b ≡ info.seq_num
      → deserialize_from (info.sender_id.id_data ++ (b ++ (info.spare_id.id_data ++ []))) old
        ≡ (true, record info { channel_id = old.channel_id })
  unfolding deserialize_from
  deserialize-pieces info old b sender spare q value =
      let src = info.sender_id.id_data ++ (b ++ (info.spare_id.id_data ++ [])) in
      let parts =
        three_pieces info.sender_id.id_data b info.spare_id.id_data [] sender.eight q spare.eight in
      let whole : (length src == k_size) ≡ true = ground (
        arith,
        sender.eight,
        spare.eight,
        length-append info.sender_id.id_data (b ++ (info.spare_id.id_data ++ [])),
        length-append b (info.spare_id.id_data ++ []),
        length-append info.spare_id.id_data [],
      ) in
      rw
        (
          whole,
          set_data-piece info.sender_id 0 src sender parts.first,
          parts.second,
          value,
          set_data-piece info.spare_id (id_size + 8) src spare parts.third,
        )
        refl

  deserialize-refused :
      (src : List ℕ) (old : MessageInfo)
      → length src ≢ k_size
      → deserialize_from src old ≡ (false, old)
  unfolding deserialize_from
  deserialize-refused src old h = ground arith

  -- What `SerializeTo` wrote of a message whose two identities have eight bytes and the hash of those bytes,
  -- and whose number is below 2^64, `DeserializeFrom` takes and gets all fields back but the channel's id,
  -- which is not written and stays as it was (an identity made by `Identity(false)` has the hash 0 and not
  -- that of its bytes); bytes of any other number than `kSize` it refuses, and
  -- the object stays as it was.
  pub deserialize-serialize_message :
      (info old : MessageInfo) (other : List ℕ)
      → IsMessage info
      → length other ≢ k_size
      → (deserialize_from (serialize_to info) old
          ≡ (true, record info { channel_id = old.channel_id }))
        × (deserialize_from other old ≡ (false, old))
  unfolding serialize_to
  deserialize-serialize_message info old other h ne = (
    ap
          (λ t.
            deserialize_from (info.sender_id.id_data ++ (object_bytes host 8 info.seq_num ++ t))
              old)
          (sym (append-nil info.spare_id.id_data))
        ∙ deserialize-pieces info old (object_bytes host 8 info.seq_num) h.sender h.spare
            (length-object_bytes host 8 info.seq_num)
            (from_object-object_bytes host 8 info.seq_num h.seq_below),
    deserialize-refused other old ne,
  )
