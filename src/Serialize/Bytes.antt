-- ===== src/Serialize/Bytes.antt =====
-- The bytes of a machine word in memory, on a host of either byte order
-- (`DataStream::byteorder` of serialize/data_stream.cpp, and the `memcpy`s and casts of the class).
use hnu_middleware.Base.{
  ℕ, zero, suc, ◌+◌, ◌*◌, ◌/◌, ◌%◌, ◌^◌, ◌<◌, ◌≡◌, refl, ap, List, [], ◌∷◌, reverse, length, ◌==◌,
  if◌then◌else◌, arith,
}
use mathlib.Core.List.{reverse-reverse, head?}
use mathlib.Core.Option.{get_or}
use native.Mathlib.Nat.{pow-suc}

-- `DataStream::ByteOrder`
pub data ByteOrder : Type 0 where
  big_endian little_endian : ByteOrder

-- The low `n` bytes of a word, the least significant first.
unfoldable pub le_bytes : ℕ → ℕ → List ℕ
le_bytes zero v = []
le_bytes (suc n) v = v % 256 ∷ le_bytes n (v / 256)

unfoldable pub from_le : List ℕ → ℕ
from_le [] = 0
from_le (b ∷ bs) = b + 256 * from_le bs

pub length-le_bytes : (n v : ℕ) → length (le_bytes n v) ≡ n
unfolding le_bytes
length-le_bytes zero v = refl
length-le_bytes (suc n) v = ap suc (length-le_bytes n (v / 256))

pub from_le-le_bytes : (n v : ℕ) → v < 256 ^ n → from_le (le_bytes n v) ≡ v
unfolding le_bytes from_le
from_le-le_bytes zero v h = omega arith
from_le-le_bytes (suc n) v h =
    let below : v / 256 < 256 ^ n = omega (arith, pow-suc 256 n) in
    omega (arith, from_le-le_bytes n (v / 256) below)

-- What the `n` bytes of an object hold on a host.
unfoldable pub object_bytes : ByteOrder → ℕ → ℕ → List ℕ
object_bytes little_endian n v = le_bytes n v
object_bytes big_endian n v = reverse (le_bytes n v)

unfoldable pub from_object : ByteOrder → List ℕ → ℕ
from_object little_endian bs = from_le bs
from_object big_endian bs = from_le (reverse bs)

-- `DataStream::byteorder`: the first byte in memory of `int n = 0x12345678`.
unfoldable pub byteorder : ByteOrder → ByteOrder
byteorder host =
    if get_or (head? (object_bytes host 4 0x12345678)) 0 == 0x12 then big_endian else little_endian

-- Reversal where the stream's order is big-endian, as `write` and `read` do it.
unfoldable pub reverse_if_big : ByteOrder → List ℕ → List ℕ
reverse_if_big big_endian bs = reverse bs
reverse_if_big little_endian bs = bs

pub byteorder_lem : (host : ByteOrder) → byteorder host ≡ host
unfolding byteorder object_bytes le_bytes
byteorder_lem big_endian = refl
byteorder_lem little_endian = refl

pub reverse_if_big-object_bytes :
    (host : ByteOrder) (n v : ℕ) → reverse_if_big host (object_bytes host n v) ≡ le_bytes n v
unfolding reverse_if_big object_bytes
reverse_if_big-object_bytes little_endian n v = refl
reverse_if_big-object_bytes big_endian n v = reverse-reverse (le_bytes n v)

pub from_object-reverse_if_big :
    (host : ByteOrder) (bs : List ℕ) → from_object host (reverse_if_big host bs) ≡ from_le bs
unfolding reverse_if_big from_object
from_object-reverse_if_big little_endian bs = refl
from_object-reverse_if_big big_endian bs = ap from_le (reverse-reverse bs)
