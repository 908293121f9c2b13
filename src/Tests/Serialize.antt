-- ===== src/Tests/Serialize.antt =====
-- The data stream at fixed inputs.
use hnu_middleware.Base.{
  ℕ, ◌+◌, ◌^◌, ◌≤◌, ◌<◌, ◌≡◌, refl, true, some, List, [], ◌∷◌, length, ltb, arith,
}
use hnu_middleware.Serialize.Bytes.{
  big_endian, little_endian, object_bytes, le_bytes, byteorder, reverse_if_big,
}
use hnu_middleware.Serialize.Codec.{Codec, IsLawful}
use hnu_middleware.Serialize.Stream.{
  Stream, DataType, empty_stream, stream_of, int_limit, reserve, write_tag, write_raw, grow,
}
use hnu_middleware.Serialize.Stream.Reserve.{reserve_total}
use hnu_middleware.Serialize.Words.{write_word, read_word, word_codec}
use hnu_middleware.Serialize.Words.Laws.{word_codec-IsLawful}
use hnu_middleware.Serialize.Text.{write_string, read_string, string_codec}
use hnu_middleware.Serialize.Text.Laws.{string_codec-IsLawful}
use hnu_middleware.Serialize.Containers.{set_codec, map_codec}
use hnu_middleware.Serialize.Containers.Laws.{
  AreValid, both-IsLawful, set_codec-IsLawful, map_codec-IsLawful,
}
use hnu_middleware.Serialize.Containers.Order.{IsAsymmetric}
use hnu_middleware.Serialize.Custom.Laws.{
  serializable-IsLawful, members-IsLawful, args-IsLawful, no_args-IsLawful,
}
use hnu_middleware.Serialize.RoundTrip.Values.{
  read-write_word, read-write_string, read-write_set, read-write_map,
}
use hnu_middleware.Transport.Attributes.{default_role, role_codec}
use hnu_middleware.Transport.Attributes.Laws.{
  IsRole, role_args-IsLawful, qos_codec-IsLawful, read-write_role, role_bytes,
}

-- The bytes of the class comment: a tag, then the word with its low byte first, on every host.
write_bytes :
    (write_word DataType.uint32 4 big_endian 0x12345678 (empty_stream big_endian))
    ≡ some record {
      byte_order = big_endian;
      buf = 4 ∷ 0x78 ∷ 0x56 ∷ 0x34 ∷ 0x12 ∷ [];
      capacity = 8;
      pos = 0;
    }
unfolding write_word empty_stream write_tag write_raw reserve grow reverse_if_big byteorder
    object_bytes le_bytes
write_bytes = refl

read-write_word_example :
    (s r : Stream) × (write_word DataType.uint32 4 big_endian 0x12345678 (empty_stream big_endian)
      ≡ some s)
    × (read_word DataType.uint32 4 little_endian 7 (stream_of little_endian s.buf)
        ≡ some (true, 0x12345678, r))
read-write_word_example =
    read-write_word DataType.uint32 4 big_endian little_endian 0x12345678 7 (omega arith)
      (omega arith)

abbrev hello : List ℕ
hello = 104 ∷ 101 ∷ 108 ∷ 108 ∷ 111 ∷ []

read-write_string_example :
    (s r : Stream) × (write_string little_endian hello (empty_stream little_endian) ≡ some s)
    × (read_string big_endian [] (stream_of big_endian s.buf) ≡ some (true, hello, r))
read-write_string_example = read-write_string little_endian big_endian hello [] (omega arith)

abbrev word : Codec ℕ
word = word_codec DataType.uint32 4

abbrev word_law : IsLawful word (λ v. v < 256 ^ 4)
word_law = word_codec-IsLawful DataType.uint32 4

abbrev numbers : List ℕ
numbers = 3 ∷ 70000 ∷ 4000000000 ∷ []

numbers-AreValid : AreValid word_law numbers
numbers-AreValid = (omega arith, (omega arith, (omega arith, (omega arith, tt))))

ltb-IsAsymmetric : IsAsymmetric ltb
ltb-IsAsymmetric a b h = ground arith

read-write_set_example :
    (s r : Stream) × ((set_codec word ltb).write little_endian numbers (empty_stream little_endian)
      ≡ some s)
    × ((set_codec word ltb).read big_endian [] (stream_of big_endian s.buf)
        ≡ some (true, numbers, r))
unfolding set_codec-IsLawful word_codec-IsLawful le_bytes
read-write_set_example =
    read-write_set word_law ltb ltb-IsAsymmetric little_endian big_endian numbers []
      numbers-AreValid (tt, ((refl, tt), ((refl, (refl, tt)), tt))) (omega arith)

abbrev ages : List (ℕ × List ℕ)
ages = (2, hello) ∷ (5, []) ∷ []

read-write_map_example :
    (s r : Stream) × ((map_codec ltb word string_codec).write little_endian ages
        (empty_stream little_endian)
      ≡ some s)
    × ((map_codec ltb word string_codec).read big_endian [] (stream_of big_endian s.buf)
        ≡ some (true, ages, r))
unfolding map_codec-IsLawful both-IsLawful word_codec-IsLawful string_codec-IsLawful le_bytes
read-write_map_example =
    read-write_map word_law string_codec-IsLawful ltb ltb-IsAsymmetric little_endian big_endian ages
      [] (omega arith, ((omega arith, omega arith), ((omega arith, omega arith), tt)))
      (tt, ((refl, tt), tt)) (omega arith)

reserve_total_example :
    (c : ℕ) × (reserve 40 (stream_of little_endian hello)
      ≡ some (record { byte_order = little_endian; buf = hello; capacity = c; pos = 0 }))
    × (length hello + 40 ≤ c)
    × (c < int_limit)
unfolding stream_of byteorder object_bytes le_bytes
reserve_total_example = reserve_total 40 (stream_of little_endian hello) (omega arith) (omega arith)

default-IsRole : IsRole default_role
default-IsRole = (
  omega arith,
  (
    omega arith,
    (
      omega arith,
      (
        omega arith,
        (
          (
            omega arith,
            (omega arith, (omega arith, (omega arith, (omega arith, (omega arith, tt))))),
          ),
          (omega arith, (omega arith, (omega arith, (omega arith, tt)))),
        ),
      ),
    ),
  ),
)

read-write_role_example :
    (s : Stream) × (role_codec.write little_endian default_role (empty_stream little_endian)
      ≡ some s)
    × ((r : Stream) × (role_codec.read big_endian
            (record default_role { channel_id = 77 })
            (stream_of big_endian s.buf)
          ≡ some (true, record default_role { channel_id = 77 }, r)))
unfolding role_bytes serializable-IsLawful members-IsLawful args-IsLawful no_args-IsLawful
    both-IsLawful role_args-IsLawful qos_codec-IsLawful string_codec-IsLawful word_codec-IsLawful
    le_bytes
read-write_role_example =
    read-write_role little_endian big_endian default_role (record default_role { channel_id = 77 })
      default-IsRole (omega arith)
