-- ===== src/Serialize/Words/Laws.antt =====
-- Scalars read back as they were written, whichever byte orders the two hosts have.
use hnu_middleware.Base.{
  ℕ, ◌^◌, ◌<◌, ◌≡◌, subst, ◌∙◌, ==_refl, true, some, List, [], ◌∷◌, ◌++◌, append_assoc,
}
use hnu_middleware.Serialize.Bytes.{
  ByteOrder, le_bytes, object_bytes, reverse_if_big, length-le_bytes, from_le-le_bytes,
  reverse_if_big-object_bytes, from_object-reverse_if_big,
}
use hnu_middleware.Serialize.Stream.{Stream, DataType, code, write_raw, write_tag, read_raw}
use hnu_middleware.Serialize.Stream.Transfer.{
  Fits, Writes, write_raw-Writes, Writes-bind, at, read_raw-at, has_tag-at, next_pos-at,
}
use hnu_middleware.Serialize.Codec.{IsLawful}
use hnu_middleware.Serialize.Words.{write_word, read_word, word_codec}

pub write_tag-Writes :
    (type : DataType) (s : Stream)
    → Fits s (code type ∷ [])
    → Writes s (code type ∷ []) (write_tag type s)
unfolding write_tag
write_tag-Writes type s h = write_raw-Writes (code type ∷ []) s h

module _ (type : DataType) (width : ℕ) where
  abbrev pub word_bytes : ℕ → List ℕ
  word_bytes v = code type ∷ le_bytes width v

  write_rest :
      (host : ByteOrder) (v : ℕ) (s : Stream) (order : ByteOrder)
      → order ≡ host
      → Fits s (le_bytes width v)
      → Writes s
          (le_bytes width v)
          (write_raw (reverse_if_big order (object_bytes host width v)) width s)
  write_rest host v s order o fits =
      rw (o, reverse_if_big-object_bytes)
        (subst (λ n. Writes s (le_bytes width v) (write_raw (le_bytes width v) n s))
          (length-le_bytes width v) (write_raw-Writes (le_bytes width v) s fits))

  -- The bytes written do not depend on the host's byte order.
  pub write_word-Writes :
      (host : ByteOrder) (v : ℕ) (s : Stream)
      → s.byte_order ≡ host
      → Fits s (word_bytes v)
      → Writes s (word_bytes v) (write_word type width host v s)
  unfolding write_word
  write_word-Writes host v s o h =
      Writes-bind s (code type ∷ []) (le_bytes width v) h (write_tag-Writes type s)
        λ s' w fits. write_rest host v s' s'.byte_order (w.order ∙ o) fits

  read_bytes-at :
      (host : ByteOrder) (held : ℕ) (pre : List ℕ) (v : ℕ) (rest : List ℕ)
      → read_raw width (at host held pre (le_bytes width v ++ rest))
        ≡ some (le_bytes width v, at host held (pre ++ le_bytes width v) rest)
  read_bytes-at host held pre v rest =
      subst
        (λ n.
          read_raw n (at host held pre (le_bytes width v ++ rest))
          ≡ some (le_bytes width v, at host held (pre ++ le_bytes width v) rest))
        (length-le_bytes width v) (read_raw-at host held pre (le_bytes width v) rest)

  pub read_word-at :
      (host : ByteOrder) (held : ℕ) (pre : List ℕ) (v old : ℕ) (rest : List ℕ)
      → v < 256 ^ width
      → read_word type width host old (at host held pre (word_bytes v ++ rest))
        ≡ some (true, v, at host held (pre ++ word_bytes v) rest)
  unfolding read_word
  read_word-at host held pre v old rest h = rw (
    has_tag-at host held pre type (code type) (le_bytes width v ++ rest),
    ==_refl,
    next_pos-at host held pre (code type) (le_bytes width v ++ rest),
    read_bytes-at host held (pre ++ code type ∷ []) v rest,
    from_object-reverse_if_big,
    from_le-le_bytes width v h,
    append_assoc pre (code type ∷ []) (le_bytes width v),
  )

-- A word codec reads back what fits in its width.
unfoldable pub word_codec-IsLawful :
    (type : DataType) (width : ℕ) → IsLawful (word_codec type width) (λ v. v < 256 ^ width)
unfolding word_codec
word_codec-IsLawful type width = record {
  encode = word_bytes type width;
  write-Writes = λ host v s o valid fits. write_word-Writes type width host v s o fits;
  read-at = read_word-at type width;
}
