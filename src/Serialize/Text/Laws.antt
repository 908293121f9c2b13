-- ===== src/Serialize/Text/Laws.antt =====
-- Strings read back as they were written.
use hnu_middleware.Base.{
  ℕ, ◌^◌, ◌<◌, ◌≡◌, ◌∙◌, some, true, false, List, [], ◌∷◌, ◌++◌, append_assoc, length, leb, arith,
}
use hnu_middleware.Serialize.Bytes.{ByteOrder}
use hnu_middleware.Serialize.Codec.{IsLawful}
use hnu_middleware.Serialize.Stream.{Stream, DataType, code, int_limit}
use hnu_middleware.Serialize.Stream.Transfer.{
  Fits, Writes, write_raw-Writes, Writes-bind, at, read_raw-at, has_tag-at, next_pos-at,
}
use hnu_middleware.Serialize.Words.{write_int32, read_int32}
use hnu_middleware.Serialize.Words.Laws.{
  word_bytes, write_tag-Writes, write_word-Writes, read_word-at,
}
use hnu_middleware.Serialize.Text.{int_length, read_len, write_string, read_string, string_codec}

abbrev pub int32_bytes : ℕ → List ℕ
int32_bytes = word_bytes DataType.int32 4

pub write_int32-Writes :
    (host : ByteOrder) (v : ℕ) (s : Stream)
    → s.byte_order ≡ host
    → Fits s (int32_bytes v)
    → Writes s (int32_bytes v) (write_int32 host v s)
unfolding write_int32
write_int32-Writes = write_word-Writes DataType.int32 4

pub int_length-eq {ℓ} :
    {A : Type ℓ} (xs : List A) → length xs < int_limit → int_length xs ≡ length xs
int_length-eq xs h = omega arith

pub read_len-at :
    (host : ByteOrder) (held : ℕ) (pre : List ℕ) (n : ℕ) (rest : List ℕ)
    → n < 2 ^ 32
    → read_len host (at host held pre (int32_bytes n ++ rest))
      ≡ some (n, at host held (pre ++ int32_bytes n) rest)
unfolding read_len read_int32
read_len-at host held pre n rest h = rw (read_word-at DataType.int32 4 host held pre n 0 rest h)

abbrev pub string_bytes : List ℕ → List ℕ
string_bytes v = (code DataType.string ∷ []) ++ (int32_bytes (length v) ++ v)

pub write_string-Writes :
    (host : ByteOrder) (v : List ℕ) (s : Stream)
    → s.byte_order ≡ host
    → length v < int_limit
    → Fits s (string_bytes v)
    → Writes s (string_bytes v) (write_string host v s)
unfolding write_string
write_string-Writes host v s o short h = rw (int_length-eq v short) (
    Writes-bind s (code DataType.string ∷ []) (int32_bytes (length v) ++ v) h
      (write_tag-Writes DataType.string s)
      λ s₁ w₁ h₁.
        Writes-bind s₁ (int32_bytes (length v)) v h₁
          (write_int32-Writes host (length v) s₁ (w₁.order ∙ o))
          λ s₂ w₂ h₂. write_raw-Writes v s₂ h₂)

pub read_string-at :
    (host : ByteOrder) (held : ℕ) (pre : List ℕ) (v old : List ℕ) (rest : List ℕ)
    → length v < int_limit
    → read_string host old (at host held pre (string_bytes v ++ rest))
      ≡ some (true, v, at host held (pre ++ string_bytes v) rest)
unfolding read_string
read_string-at host held pre v old rest short =
    let tag = code DataType.string ∷ [] in
    let len = int32_bytes (length v) in
    let small : leb int_limit (length v) ≡ false = ground arith in
    rw
      (
        has_tag-at host held pre DataType.string (code DataType.string) (len ++ v ++ rest),
        next_pos-at host held pre (code DataType.string) (len ++ v ++ rest),
        append_assoc len v rest,
        read_len-at host held (pre ++ tag) (length v) (v ++ rest) (omega arith),
        small,
        read_raw-at host held (pre ++ tag ++ len) v rest,
      )
      (simp append_assoc)

-- Strings of lengths that an `int` holds are read back.
unfoldable pub string_codec-IsLawful : IsLawful string_codec (λ v. length v < int_limit)
unfolding string_codec
string_codec-IsLawful = record {
  encode = string_bytes;
  write-Writes = write_string-Writes;
  read-at = read_string-at;
}
