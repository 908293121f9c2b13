-- ===== src/Serialize/RoundTrip.antt =====
-- What one host writes to a `DataStream`, another reads back.
pub mod Values
use hnu_middleware.Base.{
  ℕ, ◌+◌, ◌^◌, ◌≤◌, ◌<◌, ◌≡◌, ◌≢◌, refl, ap, subst, ◌∙◌, Bool, true, false, Option, some, List, [],
  ◌∷◌, ◌++◌, append-nil, length, ◌==◌, ne→==_false, Bool-cases, inl, inr, if◌then◌else◌, ◌>>=◌,
  arith,
}
use hnu_middleware.Serialize.Bytes.{ByteOrder, le_bytes, byteorder, byteorder_lem}
use hnu_middleware.Serialize.Codec.{Codec, IsLawful}
use hnu_middleware.Serialize.Stream.{Stream, DataType, code, empty_stream, stream_of}
use hnu_middleware.Serialize.Stream.Reserve.{room}
use hnu_middleware.Serialize.Stream.Transfer.{at, has_tag-at, read_raw-at}
use hnu_middleware.Serialize.Words.{write_word, read_word}
use hnu_middleware.Serialize.Words.Laws.{word_bytes, write_word-Writes}
use hnu_middleware.Serialize.Custom.{serializable}

module _ {T : Type 0} {c : Codec T} {Valid : T → Type 0} (l : IsLawful c Valid) where
  pub read-encoded :
      (receiver : ByteOrder) (v old : T) (bytes : List ℕ)
      → Valid v
      → bytes ≡ l.encode v
      → (r : Stream) × (c.read receiver old (stream_of receiver bytes) ≡ some (true, v, r))
        × (r.pos ≡ length bytes)
  unfolding stream_of
  read-encoded receiver v old bytes valid e =
      rw (e, byteorder_lem)
        (
          record {
            byte_order = receiver;
            buf = l.encode v;
            capacity = length (l.encode v);
            pos = length (l.encode v);
          },
          rw append-nil at (l.read-at receiver (length (l.encode v)) [] v old [] valid),
          refl,
        )

  -- A valid value that needs at most `room` bytes is written to an empty stream on the host
  -- `sender`, and a stream made of those bytes on the host `receiver` reads it back and returns
  -- true, whatever the byte orders of the two hosts and whatever the variable held before;
  -- it has then consumed all the bytes.
  pub read-write :
      (sender receiver : ByteOrder) (v old : T)
      → Valid v
      → length (l.encode v) ≤ room
      → (s : Stream) × (c.write sender v (empty_stream sender) ≡ some s)
        × ((r : Stream) × (c.read receiver old (stream_of receiver s.buf) ≡ some (true, v, r))
            × (r.pos ≡ length s.buf))
  unfolding empty_stream
  read-write sender receiver v old valid fits =
      let (s, e, w) =
        l.write-Writes sender v (empty_stream sender) (byteorder_lem sender) valid
          (omega arith, omega arith) in
      (s, e, read-encoded receiver v old s.buf valid w.buf)

-- A scalar written with one type tag is refused by the read of another type: it returns false and
-- leaves the variable and the stream as they were.
pub read_word-mismatch :
    (wrote wants : DataType) (width asked : ℕ) (host : ByteOrder) (held v old : ℕ)
    (pre rest : List ℕ)
    → code wrote ≢ code wants
    → let s = at host held pre (word_bytes wrote width v ++ rest) in
      read_word wants asked host old s ≡ some (false, old, s)
unfolding read_word
read_word-mismatch wrote wants width asked host held v old pre rest ne = rw (
  has_tag-at host held pre wants (code wrote) (le_bytes width v ++ rest),
  ne→==_false (code wrote) (code wants) ne,
)
