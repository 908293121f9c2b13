-- ===== src/Serialize/Custom/Laws.antt =====
-- Classes with `SERIALIZE(...)` read back as they were written, if their fields do.
use hnu_middleware.Base.{ℕ, ◌≡◌, ◌∙◌, true, some, List, [], ◌∷◌, ◌++◌, append_assoc, append-nil}
use hnu_middleware.Serialize.Bytes.{ByteOrder}
use hnu_middleware.Serialize.Codec.{Codec, IsLawful}
use hnu_middleware.Serialize.Stream.{Stream, DataType, code}
use hnu_middleware.Serialize.Stream.Transfer.{
  Fits, Writes, Writes-bind, Writes-nothing, at, read_raw-at,
}
use hnu_middleware.Serialize.Words.Laws.{write_tag-Writes}
use hnu_middleware.Serialize.Containers.Laws.{ValidBoth, both-IsLawful}
use hnu_middleware.Serialize.Custom.{no_args, args, serializable, members}

unfoldable pub no_args-IsLawful : IsLawful no_args (λ _. Unit {0})
unfolding no_args
no_args-IsLawful = record {
  encode = λ _. [];
  write-Writes = λ host v s o valid h. Writes-nothing s h.1;
  read-at = λ host held pre v old rest valid. rw append-nil;
}

module _ {T : Type 0} {c : Codec T} {Valid : T → Type 0} (l : IsLawful c Valid) where
  unfoldable pub args-IsLawful :
      {R : Type 0} {d : Codec R} {ValidR : R → Type 0} (k : IsLawful d ValidR)
      → IsLawful (args c d) (ValidBoth l k)
  unfolding args
  args-IsLawful k = both-IsLawful l k

  abbrev serializable_bytes : T → List ℕ
  serializable_bytes v = (code DataType.custom ∷ []) ++ l.encode v

  -- A class reads back if the list of its fields does.
  unfoldable pub serializable-IsLawful : IsLawful (serializable c) Valid
  unfolding serializable
  serializable-IsLawful = record {
    encode = serializable_bytes;
    write-Writes = λ host v s o valid h.
        Writes-bind s (code DataType.custom ∷ []) (l.encode v) h
          (write_tag-Writes DataType.custom s)
          λ s' w h'. l.write-Writes host v s' (w.order ∙ o) valid h';
    read-at = λ host held pre v old rest valid.
        let tag = code DataType.custom ∷ [] in
        rw (
          read_raw-at host held pre tag (l.encode v ++ rest),
          l.read-at host held (pre ++ tag) v old rest valid,
          append_assoc pre tag (l.encode v),
        );
  }

-- A class whose members are all listed reads back; otherwise `members-at` says what it holds then.
module _ {R T : Type 0} {c : Codec T} {Valid : T → Type 0} (l : IsLawful c Valid) (get : R → T)
    (put : R → T → R) (fresh : R) where
  pub members-at :
      (host : ByteOrder) (held : ℕ) (pre : List ℕ) (v old : R) (rest : List ℕ)
      → Valid (get v)
      → let bytes = (serializable-IsLawful l).encode (get v) in
        (members get put fresh c).read host old (at host held pre (bytes ++ rest))
        ≡ some (true, put old (get v), at host held (pre ++ bytes) rest)
  unfolding members
  members-at host held pre v old rest valid =
      rw ((serializable-IsLawful l).read-at host held pre (get v) (get old) rest valid)

  pub members-Writes :
      (host : ByteOrder) (v : R) (s : Stream)
      → s.byte_order ≡ host
      → Valid (get v)
      → let bytes = (serializable-IsLawful l).encode (get v) in
        Fits s bytes → Writes s bytes ((members get put fresh c).write host v s)
  unfolding members
  members-Writes host v s o valid h =
      (serializable-IsLawful l).write-Writes host (get v) s o valid h

  unfoldable pub members-IsLawful :
      ((old v : R) → put old (get v) ≡ v) → IsLawful (members get put fresh c) (λ v. Valid (get v))
  members-IsLawful all = record {
    encode = λ v. (serializable-IsLawful l).encode (get v);
    write-Writes = members-Writes;
    read-at =
        λ host held pre v old rest valid. rw (members-at host held pre v old rest valid, all old v);
  }
