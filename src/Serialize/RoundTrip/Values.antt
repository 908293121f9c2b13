-- ===== src/Serialize/RoundTrip/Values.antt =====
-- The round trips of scalars, strings and containers between two hosts.
use hnu_middleware.Base.{
  ℕ, ◌+◌, ◌^◌, ◌≤◌, ◌<◌, ◌≡◌, Bool, true, some, List, [], length, length-append, arith,
}
use hnu_middleware.Serialize.Bytes.{ByteOrder, le_bytes, length-le_bytes}
use hnu_middleware.Serialize.Codec.{Codec, IsLawful}
use hnu_middleware.Serialize.Stream.{Stream, DataType, empty_stream, stream_of}
use hnu_middleware.Serialize.Stream.Reserve.{room}
use hnu_middleware.Serialize.Words.{write_word, read_word, word_codec}
use hnu_middleware.Serialize.Words.Laws.{word_codec-IsLawful}
use hnu_middleware.Serialize.Text.{write_string, read_string, string_codec}
use hnu_middleware.Serialize.Text.Laws.{string_codec-IsLawful}
use hnu_middleware.Serialize.Containers.{vector_codec, set_codec, map_codec}
use hnu_middleware.Serialize.Containers.Order.{Ascending, IsAsymmetric, by_key}
use hnu_middleware.Serialize.Containers.Laws.{
  AreValid, both-IsLawful, vector_codec-IsLawful, set_codec-IsLawful, map_codec-IsLawful,
}
use hnu_middleware.Serialize.RoundTrip.{read-write}

-- A scalar that fits in its width, at most 8 bytes, is written to an empty stream on the host
-- `sender`, and read back from those bytes on the host `receiver`, whatever their byte orders; the
-- read returns true.
pub read-write_word :
    (type : DataType) (width : ℕ) (sender receiver : ByteOrder) (v old : ℕ)
    → width ≤ 8
    → v < 256 ^ width
    → (s r : Stream) × (write_word type width sender v (empty_stream sender) ≡ some s)
      × (read_word type width receiver old (stream_of receiver s.buf) ≡ some (true, v, r))
unfolding word_codec word_codec-IsLawful
read-write_word type width sender receiver v old narrow fits =
    let (s, e, (r, e', _)) =
      read-write (word_codec-IsLawful type width) sender receiver v old fits
        (omega (arith, length-le_bytes width v)) in
    (s, r, e, e')

-- A string of at most 2^30 - 6 bytes is written on one host and read back on another, whatever
-- their byte orders; the read returns true.
pub read-write_string :
    (sender receiver : ByteOrder) (v old : List ℕ)
    → length v + 6 ≤ room
    → (s r : Stream) × (write_string sender v (empty_stream sender) ≡ some s)
      × (read_string receiver old (stream_of receiver s.buf) ≡ some (true, v, r))
unfolding string_codec string_codec-IsLawful
read-write_string sender receiver v old fits =
    let (s, e, (r, e', _)) =
      read-write string_codec-IsLawful sender receiver v old (omega arith)
        (omega (arith, length-append (le_bytes 4 (length v)) v, length-le_bytes 4 (length v))) in
    (s, r, e, e')

module _ {T : Type 0} {c : Codec T} {Valid : T → Type 0} (l : IsLawful c Valid) where
  -- For items whose codec reads back what it writes: a vector of valid items of at most 2^31 - 1
  -- items and 2^30 bytes is written on one host and read back on another, whatever their byte orders
  -- and whatever the variable held; the read returns true.
  pub read-write_vector :
      (sender receiver : ByteOrder) (xs old : List T)
      → AreValid l xs
      → length ((vector_codec-IsLawful l).encode xs) ≤ room
      → (s r : Stream) × ((vector_codec c).write sender xs (empty_stream sender) ≡ some s)
        × ((vector_codec c).read receiver old (stream_of receiver s.buf) ≡ some (true, xs, r))
  read-write_vector sender receiver xs old valid fits =
      let (s, e, (r, e', _)) =
        read-write (vector_codec-IsLawful l) sender receiver xs old valid fits in
      (s, r, e, e')

  -- For items whose codec reads back what it writes: a set, as the ascending list of its items, is
  -- written on one host and read back on another, whatever their byte orders and whatever the variable
  -- held.
  pub read-write_set :
      (lt : T → T → Bool) (asym : IsAsymmetric lt) (sender receiver : ByteOrder) (xs old : List T)
      → AreValid l xs
      → Ascending lt [] xs
      → length ((set_codec-IsLawful l lt asym).encode xs) ≤ room
      → (s r : Stream) × ((set_codec c lt).write sender xs (empty_stream sender) ≡ some s)
        × ((set_codec c lt).read receiver old (stream_of receiver s.buf) ≡ some (true, xs, r))
  read-write_set lt asym sender receiver xs old valid order fits =
      let (s, e, (r, e', _)) =
        read-write (set_codec-IsLawful l lt asym) sender receiver xs old (valid, order) fits in
      (s, r, e, e')

module _ {K V : Type 0} {c : Codec K} {d : Codec V} {ValidK : K → Type 0} {ValidV : V → Type 0}
    (lk : IsLawful c ValidK) (lv : IsLawful d ValidV) where
  -- For keys and values whose codecs read back what they write: a map, as the list of its entries in
  -- the ascending order of the keys, is written on one host and read back on another, whatever their
  -- byte orders and whatever the variable held.
  pub read-write_map :
      (lt : K → K → Bool) (asym : IsAsymmetric lt) (sender receiver : ByteOrder)
      (m old : List (K × V))
      → AreValid (both-IsLawful lk lv) m
      → Ascending (by_key lt) [] m
      → length ((map_codec-IsLawful lk lv lt asym).encode m) ≤ room
      → (s r : Stream) × ((map_codec lt c d).write sender m (empty_stream sender) ≡ some s)
        × ((map_codec lt c d).read receiver old (stream_of receiver s.buf) ≡ some (true, m, r))
  read-write_map lt asym sender receiver m old valid order fits =
      let (s, e, (r, e', _)) =
        read-write (map_codec-IsLawful lk lv lt asym) sender receiver m old (valid, order) fits in
      (s, r, e, e')
