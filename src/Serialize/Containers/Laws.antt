-- ===== src/Serialize/Containers/Laws.antt =====
-- Containers read back as they were written, for items whose codec is lawful.
use hnu_middleware.Base.{
  ℕ, ◌<◌, ◌≡◌, ◌∙◌, Bool, true, some, List, [], ◌∷◌, ◌++◌, append_assoc, append-nil, length,
  take-length, ==_refl, arith,
}
use mathlib.Core.List.{foldl}
use hnu_middleware.Serialize.Bytes.{ByteOrder}
use hnu_middleware.Serialize.Codec.{Codec, IsLawful}
use hnu_middleware.Serialize.Stream.{Stream, DataType, code, int_limit}
use hnu_middleware.Serialize.Stream.Transfer.{
  Fits, Writes, Writes-bind, Writes-nothing, at, has_tag-at, next_pos-at,
}
use hnu_middleware.Serialize.Words.Laws.{write_tag-Writes}
use hnu_middleware.Serialize.Text.Laws.{int32_bytes, write_int32-Writes, int_length-eq, read_len-at}
use hnu_middleware.Serialize.Containers.{
  rounds, push_back, insert, write_each, read_each, write_vector, write_items, read_items,
  vector_codec, list_codec, set_codec, assign, both, map_codec,
}
use hnu_middleware.Serialize.Containers.Order.{
  All, Ascending, IsAsymmetric, foldl-push_back, foldl-insert, by_key, foldl-assign,
}

pub rounds-eq : (n : ℕ) → n < int_limit → rounds n ≡ n
unfolding rounds
rounds-eq n h = ground arith

module _ {T : Type 0} {c : Codec T} {Valid : T → Type 0} (l : IsLawful c Valid) where
  open l use {encode}

  abbrev pub each_bytes : List T → List ℕ
  each_bytes [] = []
  each_bytes (x ∷ xs) = encode x ++ each_bytes xs

  write_each-Writes :
      (host : ByteOrder) (xs : List T) (s : Stream)
      → s.byte_order ≡ host
      → All Valid xs
      → Fits s (each_bytes xs)
      → Writes s (each_bytes xs) (write_each c host xs s)
  unfolding write_each
  write_each-Writes host [] s o valid h = Writes-nothing s h.1
  write_each-Writes host (x ∷ xs) s o valid h =
      Writes-bind s (encode x) (each_bytes xs) h (l.write-Writes host x s o valid.0)
        λ s' w h'. write_each-Writes host xs s' (w.order ∙ o) valid.1 h'

  read_each-at :
      (add : List T → T → List T) (host : ByteOrder) (held : ℕ) (pre : List ℕ) (xs value : List T)
      (rest : List ℕ)
      → All Valid xs
      → read_each c add host (length xs) value (at host held pre (each_bytes xs ++ rest))
        ≡ some (foldl add value xs, at host held (pre ++ each_bytes xs) rest)
  unfolding read_each
  read_each-at add host held pre [] value rest valid = rw append-nil
  read_each-at add host held pre (x ∷ xs) value rest valid = rw (
    append_assoc (encode x) (each_bytes xs) rest,
    l.read-at host held pre x c.fresh (each_bytes xs ++ rest) valid.0,
    read_each-at add host held (pre ++ encode x) xs (add value x) rest valid.1,
    append_assoc pre (encode x) (each_bytes xs),
  )

  -- The tag, the number of items, and the items.
  abbrev pub items_bytes : DataType → List T → List ℕ
  items_bytes type xs = (code type ∷ []) ++ (int32_bytes (length xs) ++ each_bytes xs)

  abbrev pub AreValid : List T → Type 0
  AreValid xs = (length xs < int_limit) × All Valid xs

  pub write_items-Writes :
      (type : DataType) (host : ByteOrder) (xs : List T) (s : Stream)
      → s.byte_order ≡ host
      → AreValid xs
      → Fits s (items_bytes type xs)
      → Writes s (items_bytes type xs) (write_items c type host xs s)
  unfolding write_items
  write_items-Writes type host xs s o valid h = rw (int_length-eq xs valid.0) (
      Writes-bind s (code type ∷ []) (int32_bytes (length xs) ++ each_bytes xs) h
        (write_tag-Writes type s)
        λ s₁ w₁ h₁.
          Writes-bind s₁ (int32_bytes (length xs)) (each_bytes xs) h₁
            (write_int32-Writes host (length xs) s₁ (w₁.order ∙ o))
            λ s₂ w₂ h₂. write_each-Writes host xs s₂ (w₂.order ∙ w₁.order ∙ o) valid.1 h₂)

  -- The loop of `write(const std::vector<T>&)` covers the whole vector.
  pub write_vector-eq :
      (host : ByteOrder) (xs : List T) (s : Stream)
      → length xs < int_limit
      → write_vector c host xs s ≡ write_items c DataType.vector host xs s
  unfolding write_vector write_items
  write_vector-eq host xs s h = rw (int_length-eq xs h, rounds-eq (length xs) h, take-length xs)

  pub read_items-at :
      (type : DataType) (add : List T → T → List T) (host : ByteOrder) (held : ℕ) (pre : List ℕ)
      (xs old : List T) (rest : List ℕ)
      → AreValid xs
      → foldl add [] xs ≡ xs
      → read_items c type add host old (at host held pre (items_bytes type xs ++ rest))
        ≡ some (true, xs, at host held (pre ++ items_bytes type xs) rest)
  unfolding read_items
  read_items-at type add host held pre xs old rest valid rebuilt =
      let tag = code type ∷ [] in
      let len = int32_bytes (length xs) in
      let items = each_bytes xs in
      rw
        (
          has_tag-at host held pre type (code type) (len ++ items ++ rest),
          ==_refl,
          next_pos-at host held pre (code type) (len ++ items ++ rest),
          append_assoc len items rest,
          read_len-at host held (pre ++ tag) (length xs) (items ++ rest) (omega arith),
          rounds-eq (length xs) valid.0,
          read_each-at add host held (pre ++ tag ++ len) xs [] rest valid.1,
          rebuilt,
        )
        (simp append_assoc)

  -- A vector reads back, for items that do.
  unfoldable pub vector_codec-IsLawful : IsLawful (vector_codec c) AreValid
  unfolding vector_codec
  vector_codec-IsLawful = record {
    encode = items_bytes DataType.vector;
    write-Writes = λ host xs s o valid h.
        rw (write_vector-eq host xs s valid.0)
          (write_items-Writes DataType.vector host xs s o valid h);
    read-at = λ host held pre xs old rest valid.
        read_items-at DataType.vector push_back host held pre xs old rest valid
          (foldl-push_back [] xs);
  }

  unfoldable pub list_codec-IsLawful : IsLawful (list_codec c) AreValid
  unfolding list_codec
  list_codec-IsLawful = record {
    encode = items_bytes DataType.list;
    write-Writes = write_items-Writes DataType.list;
    read-at = λ host held pre xs old rest valid.
        read_items-at DataType.list push_back host held pre xs old rest valid
          (foldl-push_back [] xs);
  }

  -- A set reads back, if it lists its items in the ascending order of its comparison.
  unfoldable pub set_codec-IsLawful :
      (lt : T → T → Bool)
      → IsAsymmetric lt
      → IsLawful (set_codec c lt) (λ xs. AreValid xs × Ascending lt [] xs)
  unfolding set_codec
  set_codec-IsLawful lt asym = record {
    encode = items_bytes DataType.set;
    write-Writes = λ host xs s o valid h. write_items-Writes DataType.set host xs s o valid.0 h;
    read-at = λ host held pre xs old rest valid.
        read_items-at DataType.set (insert lt) host held pre xs old rest valid.0
          (foldl-insert lt xs asym valid.1);
  }

module _ {K V : Type 0} {c : Codec K} {d : Codec V} {ValidK : K → Type 0} {ValidV : V → Type 0}
    (l : IsLawful c ValidK) (k : IsLawful d ValidV) where
  abbrev pub ValidBoth : K × V → Type 0
  ValidBoth (a, b) = ValidK a × ValidV b

  abbrev both_bytes : K × V → List ℕ
  both_bytes (a, b) = l.encode a ++ k.encode b

  pub both_write :
      (host : ByteOrder) (v : K × V) (s : Stream)
      → s.byte_order ≡ host
      → ValidBoth v
      → Fits s (both_bytes v)
      → Writes s (both_bytes v) ((both c d).write host v s)
  unfolding both
  both_write host (a, b) s o valid h =
      Writes-bind s (l.encode a) (k.encode b) h (l.write-Writes host a s o valid.0)
        λ s' w h'. k.write-Writes host b s' (w.order ∙ o) valid.1 h'

  pub both_read :
      (host : ByteOrder) (held : ℕ) (pre : List ℕ) (v old : K × V) (rest : List ℕ)
      → ValidBoth v
      → (both c d).read host old (at host held pre (both_bytes v ++ rest))
        ≡ some (true, v, at host held (pre ++ both_bytes v) rest)
  unfolding both
  both_read host held pre (a, b) (a₀, b₀) rest valid = rw (
    append_assoc (l.encode a) (k.encode b) rest,
    l.read-at host held pre a a₀ (k.encode b ++ rest) valid.0,
    k.read-at host held (pre ++ l.encode a) b b₀ rest valid.1,
    append_assoc pre (l.encode a) (k.encode b),
  )

  -- Two values in a row read back if each does.
  unfoldable pub both-IsLawful : IsLawful (both c d) ValidBoth
  both-IsLawful = record { encode = both_bytes; write-Writes = both_write; read-at = both_read }

  -- A map reads back, if it lists its entries in the ascending order of its keys.
  unfoldable pub map_codec-IsLawful :
      (lt : K → K → Bool)
      → IsAsymmetric lt
      → IsLawful (map_codec lt c d) (λ m. AreValid both-IsLawful m × Ascending (by_key lt) [] m)
  unfolding map_codec
  map_codec-IsLawful lt asym = record {
    encode = items_bytes both-IsLawful DataType.map;
    write-Writes =
        λ host m s o valid h. write_items-Writes both-IsLawful DataType.map host m s o valid.0 h;
    read-at = λ host held pre m old rest valid.
        read_items-at both-IsLawful DataType.map (assign lt) host held pre m old rest valid.0
          (foldl-assign lt m asym valid.1);
  }
