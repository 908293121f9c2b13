-- ===== src/Serialize/Stream.antt =====
-- `class DataStream` (serialize/data_stream.h, serialize/data_stream.cpp): its state, the raw reads
-- and writes, and the members that manage the buffer.
-- `none` is what C++ leaves undefined: an access outside the buffer, an `int` overflow, the use of an
-- `int` that was never set; but a word may be read at any address (Words).
pub mod Reserve
pub mod Transfer
use hnu_middleware.Base.{
  ℕ, zero, suc, ◌+◌, ◌*◌, ◌%◌, ◌^◌, Bool, ◌&&◌, Option, none, some, List, [], ◌∷◌, ◌++◌, length,
  get_elem?, take, slice, ltb, leb, ◌==◌, if◌then◌else◌, ◌>>=◌,
}
use hnu_middleware.Serialize.Bytes.{ByteOrder, byteorder}

-- `DataStream::DataType`
pub data DataType : Type 0 where
  bool char int32 int64 uint32 uint64 float double enum string vector list map set custom : DataType

abbrev pub code : DataType → ℕ
code bool = 0
code char = 1
code int32 = 2
code int64 = 3
code uint32 = 4
code uint64 = 5
code float = 6
code double = 7
code enum = 8
code string = 9
code vector = 10
code list = 11
code map = 12
code set = 13
code custom = 14

-- `m_byteorder`, `m_buf` with its capacity, and `m_pos`. A `char` of the buffer is its bit pattern,
-- a number below 256.
pub record Stream : Type 0 where
  pub byte_order : ByteOrder
  pub buf : List ℕ
  pub capacity : ℕ
  pub pos : ℕ

-- `int` holds the numbers below this, and their negatives.
abbrev pub int_limit : ℕ
int_limit = 2 ^ 31

-- `DataStream()` on a host
unfoldable pub empty_stream : ByteOrder → Stream
empty_stream host = record { byte_order = byteorder host; buf = []; capacity = 0; pos = 0 }

-- `DataStream(char* addr, size_t len)`; the list is the `len` bytes at `addr`.
unfoldable pub stream_of : ByteOrder → List ℕ → Stream
stream_of host bytes = record {
  byte_order = byteorder host;
  buf = bytes;
  capacity = length bytes;
  pos = 0;
}

unfoldable pub clear : Stream → Stream
clear s = record s { buf = [] }

unfoldable pub reset : Stream → Stream
reset s = record s { pos = 0 }

unfoldable pub byte_size : Stream → ℕ
byte_size s = 1 * length s.buf

-- The `while` of `reserve`: double the capacity until it is `need`. Fuel 32 lets it pass through
-- every power of two of an `int`.
unfoldable pub grow : ℕ → ℕ → ℕ → Option ℕ
grow zero need held = none
grow (suc fuel) need held =
    let doubled = if held == 0 then 1 else held * 2 in
    let more = grow fuel need doubled in
    if ltb held need then (if ltb doubled int_limit then more else none) else some held

unfoldable pub grow_fuel : ℕ
grow_fuel = 33

-- The vector's own `reserve`, which makes the capacity what is asked and never less than it was
unfoldable pub reserve_buf : ℕ → Stream → Stream
reserve_buf held s = record s { capacity = if ltb s.capacity held then held else s.capacity }

-- `reserve(len)`: the capacity is cut to an `int`. Doubling a negative one overflows in the end. A buffer
-- of `int_limit` bytes is not served.
unfoldable pub reserve : ℕ → Stream → Option Stream
unfolding grow_fuel reserve_buf
reserve len s =
    let need = length s.buf + len in
    let cap = s.capacity % 2 ^ 32 in
    let grown = do held ← grow grow_fuel need cap; some (reserve_buf held s)
    in if ltb need int_limit && ltb cap int_limit
      then (if ltb cap need then grown else some s)
      else none

-- `write(const char* data, int len)`; an `int` from `int_limit` on is the pattern of a negative one.
unfoldable pub write_raw : List ℕ → ℕ → Stream → Option Stream
write_raw bytes len s =
    let written = do r ← reserve len s; some (record r { buf = r.buf ++ take len bytes })
    in if ltb len int_limit && leb len (length bytes) then written else none

-- `read(char* data, int len)`: the bytes at the position, which moves past them.
unfoldable pub read_raw : ℕ → Stream → Option (List ℕ × Stream)
read_raw len s = do bytes ← slice s.buf s.pos len; some (bytes, record s { pos = s.pos + len })

-- `m_buf[m_pos] == type`
unfoldable pub has_tag : DataType → Stream → Option Bool
has_tag type s = do b ← get_elem? s.buf s.pos; some (b == code type)

-- `++m_pos`
unfoldable pub next_pos : Stream → Stream
next_pos s = record s { pos = s.pos + 1 }

-- `char type = …; write((char*)&type, sizeof(char))`
unfoldable pub write_tag : DataType → Stream → Option Stream
write_tag type = write_raw (code type ∷ []) 1
