-- ===== src/Serialize/Words.antt =====
-- `DataStream::write` and `DataStream::read` of the scalar types (serialize/data_stream.cpp). A value
-- of `w` bytes is its bit pattern, a number below 256 ^ w; so are `float` and `double`, which the
-- stream only moves.
pub mod Laws
use hnu_middleware.Base.{
  ℕ, ◌+◌, ◌%◌, ◌^◌, Bool, true, false, Option, none, some, List, [], ◌∷◌, get_elem?, slice, ◌==◌,
  if◌then◌else◌, ◌>>=◌, not,
}
use hnu_middleware.Serialize.Bytes.{ByteOrder, object_bytes, from_object, reverse_if_big}
use hnu_middleware.Serialize.Codec.{Codec}
use hnu_middleware.Serialize.Stream.{
  Stream, DataType, int32, int64, uint32, uint64, float, double, write_raw, write_tag, read_raw,
  has_tag, next_pos,
}

-- The common body of the six writes of a word: the tag, then the bytes of the object, reversed on a
-- big-endian host.
unfoldable pub write_word : DataType → ℕ → ByteOrder → ℕ → Stream → Option Stream
write_word type width host v s = do
  r ← write_tag type s
  write_raw (reverse_if_big r.byte_order (object_bytes host width v)) width r

-- The common body of the six reads. The source reads through a cast pointer that may not be aligned, which
-- C++ leaves undefined; it is taken to read the bytes, as the compilers for x86 do.
unfoldable pub read_word : DataType → ℕ → ByteOrder → ℕ → Stream → Option (Bool × ℕ × Stream)
read_word type width host old s = do
  matches ← has_tag type s
  let value = do
    (bytes, r) ← read_raw width (next_pos s)
    some (true, from_object host (reverse_if_big s.byte_order bytes), r)
  if matches then value else some (false, old, s)

unfoldable pub write_int32 : ByteOrder → ℕ → Stream → Option Stream
write_int32 = write_word int32 4

unfoldable pub write_int64 : ByteOrder → ℕ → Stream → Option Stream
write_int64 = write_word int64 8

unfoldable pub write_uint32 : ByteOrder → ℕ → Stream → Option Stream
write_uint32 = write_word uint32 4

unfoldable pub write_uint64 : ByteOrder → ℕ → Stream → Option Stream
write_uint64 = write_word uint64 8

unfoldable pub write_float : ByteOrder → ℕ → Stream → Option Stream
write_float = write_word float 4

unfoldable pub write_double : ByteOrder → ℕ → Stream → Option Stream
write_double = write_word double 8

unfoldable pub read_int32 : ByteOrder → ℕ → Stream → Option (Bool × ℕ × Stream)
read_int32 = read_word int32 4

unfoldable pub read_int64 : ByteOrder → ℕ → Stream → Option (Bool × ℕ × Stream)
read_int64 = read_word int64 8

unfoldable pub read_uint32 : ByteOrder → ℕ → Stream → Option (Bool × ℕ × Stream)
read_uint32 = read_word uint32 4

unfoldable pub read_uint64 : ByteOrder → ℕ → Stream → Option (Bool × ℕ × Stream)
read_uint64 = read_word uint64 8

unfoldable pub read_float : ByteOrder → ℕ → Stream → Option (Bool × ℕ × Stream)
read_float = read_word float 4

unfoldable pub read_double : ByteOrder → ℕ → Stream → Option (Bool × ℕ × Stream)
read_double = read_word double 8

-- `write(bool)` writes the object's one byte, 0 or 1.
unfoldable pub write_bool : Bool → Stream → Option Stream
write_bool v s = do r ← write_tag DataType.bool s; write_raw ((if v then 1 else 0) ∷ []) 1 r

-- Any `char` but 0 converts to `true`.
unfoldable pub read_bool : Bool → Stream → Option (Bool × Bool × Stream)
read_bool old s = do
  matches ← has_tag DataType.bool s
  let value = do
    b ← get_elem? (next_pos s).buf (next_pos s).pos
    some (true, not (b == 0), next_pos (next_pos s))
  if matches then value else some (false, old, s)

unfoldable pub write_char : ℕ → Stream → Option Stream
write_char v s = do r ← write_tag DataType.char s; write_raw (v % 256 ∷ []) 1 r

unfoldable pub read_char : ℕ → Stream → Option (Bool × ℕ × Stream)
read_char old s = do
  matches ← has_tag DataType.char s
  let value = do
    b ← get_elem? (next_pos s).buf (next_pos s).pos
    some (true, b, next_pos (next_pos s))
  if matches then value else some (false, old, s)

-- An `int32_t v;` left unset holds anything; 0 stands for it.
unfoldable pub word_codec : DataType → ℕ → Codec ℕ
word_codec type width = record {
  write = write_word type width;
  read = read_word type width;
  fresh = 0;
}
