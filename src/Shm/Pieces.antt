-- ===== src/Shm/Pieces.antt =====
-- The `memcpy`s between buffers and objects of the shared-memory transport.
use hnu_middleware.Base.{
  ℕ, ◌+◌, ◌^◌, ◌<◌, ◌≤◌, ◌≡◌, refl, sym, ap, ap₂, ◌∙◌, List, [], ◌++◌, append_assoc, length,
  length-append, length-reverse, take, drop, take-append, drop-append, length-take, length-drop,
  slice, slice-append, take-append-drop, Option, some, none, leb, if◌then◌else◌, true, arith,
}
use mathlib.Core.List.{reverse-reverse}
use hnu_middleware.Serialize.Bytes.{
  ByteOrder, little_endian, big_endian, object_bytes, from_object, le_bytes, length-le_bytes,
  from_le, from_le-le_bytes,
}

-- The `n` bytes from an offset on.
unfoldable pub piece : ℕ → ℕ → List ℕ → List ℕ
piece i n src = take n (drop i src)

-- `memcpy` into a buffer, from an offset on; `none` where it would leave the buffer.
unfoldable pub copy_to : ℕ → List ℕ → List ℕ → Option (List ℕ)
copy_to i src buf =
    if leb (i + length src) (length buf)
    then some (take i buf ++ (src ++ drop (i + length src) buf))
    else none

pub piece-append :
    (pre mid post : List ℕ) {i n : ℕ}
    → length pre ≡ i
    → length mid ≡ n
    → piece i n (pre ++ (mid ++ post)) ≡ mid
unfolding piece
piece-append pre mid post p q =
    rw (sym p, sym q, drop-append pre (mid ++ post)) (take-append mid post)

pub copy_to-append :
    (pre mid post src : List ℕ) {i : ℕ}
    → length pre ≡ i
    → length mid ≡ length src
    → copy_to i src (pre ++ (mid ++ post)) ≡ some (pre ++ (src ++ post))
unfolding copy_to
copy_to-append pre mid post src p q =
    let fits : leb (length pre + length src) (length (pre ++ (mid ++ post))) ≡ true =
      ground (arith, length-append pre (mid ++ post), length-append mid post) in
    let rest : drop (length pre + length src) (pre ++ (mid ++ post)) ≡ post =
      ap₂ (λ m t. drop m t) (omega (arith, length-append pre mid)) (sym (append_assoc pre mid post))
      ∙ drop-append (pre ++ mid) post in
    rw (sym p, fits, take-append pre (mid ++ post), rest) refl

-- A list has a first part of each length up to its own.
pub split_at :
    (n : ℕ) (xs : List ℕ)
    → n ≤ length xs
    → (a b : List ℕ) × (length a ≡ n) × (length b + n ≡ length xs) × (xs ≡ a ++ b)
split_at n xs h = (
  take n xs,
  drop n xs,
  omega (arith, length-take n xs),
  omega (arith, length-drop n xs),
  sym (take-append-drop n xs),
)

pub length-object_bytes : (host : ByteOrder) (n v : ℕ) → length (object_bytes host n v) ≡ n
unfolding object_bytes
length-object_bytes little_endian n v = length-le_bytes n v
length-object_bytes big_endian n v = length-reverse (le_bytes n v) ∙ length-le_bytes n v

pub from_object-object_bytes :
    (host : ByteOrder) (n v : ℕ) → v < 256 ^ n → from_object host (object_bytes host n v) ≡ v
unfolding object_bytes from_object
from_object-object_bytes little_endian n v h = from_le-le_bytes n v h
from_object-object_bytes big_endian n v h =
    ap from_le (reverse-reverse (le_bytes n v)) ∙ from_le-le_bytes n v h

-- Three pieces that stand one behind the other.
pub record AreThree (a b c rest : List ℕ) (i j k : ℕ) : Type 0 where
  pub first : piece 0 i (a ++ (b ++ (c ++ rest))) ≡ a
  pub second : piece i j (a ++ (b ++ (c ++ rest))) ≡ b
  pub third : piece (i + j) k (a ++ (b ++ (c ++ rest))) ≡ c

pub three_pieces :
    (a b c rest : List ℕ) {i j k : ℕ}
    → length a ≡ i
    → length b ≡ j
    → length c ≡ k
    → AreThree a b c rest i j k
three_pieces a b c rest {i} {j} {k} p q r = record {
  first = piece-append [] a (b ++ (c ++ rest)) refl p;
  second = piece-append a b (c ++ rest) p q;
  third =
      ap (λ t. piece (i + j) k t) (sym (append_assoc a b (c ++ rest)))
      ∙ piece-append (a ++ b) c rest (length-append a b ∙ ap₂ (λ m n. m + n) p q) r;
}

-- A copy and a read that start behind two and behind three pieces.
module _ (a b mid post src : List ℕ) where
  pub copy_to-two :
      {i : ℕ}
      → length a + length b ≡ i
      → length mid ≡ length src
      → copy_to i src (a ++ (b ++ (mid ++ post))) ≡ some (a ++ (b ++ (src ++ post)))
  copy_to-two {i} p q =
      ap (λ t. copy_to i src t) (sym (append_assoc a b (mid ++ post)))
      ∙ copy_to-append (a ++ b) mid post src (length-append a b ∙ p) q
      ∙ ap some (append_assoc a b (src ++ post))

  pub copy_to-three :
      (c : List ℕ) {i : ℕ}
      → length a + length b + length c ≡ i
      → length mid ≡ length src
      → copy_to i src (a ++ (b ++ (c ++ (mid ++ post)))) ≡ some (a ++ (b ++ (c ++ (src ++ post))))
  copy_to-three c {i} p q =
      ap (λ t. copy_to i src (a ++ t)) (sym (append_assoc b c (mid ++ post)))
      ∙ ap (λ t. copy_to i src t) (sym (append_assoc a (b ++ c) (mid ++ post)))
      ∙ copy_to-append (a ++ (b ++ c)) mid post src
          (omega (arith, length-append a (b ++ c), length-append b c)) q
      ∙ ap some (append_assoc a (b ++ c) (src ++ post))
      ∙ ap (λ t. some (a ++ t)) (append_assoc b c (src ++ post))

pub slice_at :
    (a mid post : List ℕ) {i n : ℕ}
    → length a ≡ i
    → length mid ≡ n
    → slice (a ++ (mid ++ post)) i n ≡ some mid
slice_at a mid post p q =
    ap₂ (λ i n. slice (a ++ (mid ++ post)) i n) (sym p) (sym q) ∙ slice-append a mid post

pub slice-two :
    (a b mid post : List ℕ) {i n : ℕ}
    → length a + length b ≡ i
    → length mid ≡ n
    → slice (a ++ (b ++ (mid ++ post))) i n ≡ some mid
slice-two a b mid post {i} {n} p q =
    ap (λ t. slice t i n) (sym (append_assoc a b (mid ++ post)))
    ∙ slice_at (a ++ b) mid post (length-append a b ∙ p) q

pub slice-three :
    (a b c mid post : List ℕ) {i n : ℕ}
    → length a + length b + length c ≡ i
    → length mid ≡ n
    → slice (a ++ (b ++ (c ++ (mid ++ post)))) i n ≡ some mid
slice-three a b c mid post {i} {n} p q =
    ap (λ t. slice (a ++ t) i n) (sym (append_assoc b c (mid ++ post)))
    ∙ slice-two a (b ++ c) mid post (omega (arith, length-append b c)) q
