-- ===== src/Serialize/Text.antt =====
-- `DataStream::write` and `DataStream::read` of `std::string`, and the length that strings and
-- containers have in front (serialize/data_stream.cpp).
pub mod Laws
use hnu_middleware.Base.{
  ℕ, ◌%◌, ◌^◌, Bool, true, false, Option, none, some, List, [], length, leb, if◌then◌else◌, ◌>>=◌,
}
use hnu_middleware.Serialize.Bytes.{ByteOrder}
use hnu_middleware.Serialize.Codec.{Codec}
use hnu_middleware.Serialize.Stream.{
  Stream, DataType, int_limit, write_raw, write_tag, read_raw, has_tag, next_pos,
}
use hnu_middleware.Serialize.Words.{write_int32, read_int32}

-- `int len = value.size();`, as a bit pattern.
abbrev pub int_length {ℓ} : {A : Type ℓ} → List A → ℕ
int_length xs = length xs % 2 ^ 32

-- `int len; read(len);`: where the read fails, `len` was never set.
unfoldable pub read_len : ByteOrder → Stream → Option (ℕ × Stream)
read_len host s = do (got, len, r) ← read_int32 host 0 s; if got then some (len, r) else none

-- `write(const std::string&)`, and `write(const char*)` with the bytes before the terminating 0.
unfoldable pub write_string : ByteOrder → List ℕ → Stream → Option Stream
write_string host v s = do
  r ← write_tag DataType.string s
  r' ← write_int32 host (int_length v) r
  write_raw v (int_length v) r'

-- `read(string&)`. A negative length is refused with the position past it.
unfoldable pub read_string : ByteOrder → List ℕ → Stream → Option (Bool × List ℕ × Stream)
read_string host old s = do
  matches ← has_tag DataType.string s
  let value = do
    (len, r) ← read_len host (next_pos s)
    let assigned = do (bytes, r') ← read_raw len r; some (true, bytes, r')
    if leb int_limit len then some (false, old, r) else assigned
  if matches then value else some (false, old, s)

unfoldable pub string_codec : Codec (List ℕ)
string_codec = record { write = write_string; read = read_string; fresh = [] }
