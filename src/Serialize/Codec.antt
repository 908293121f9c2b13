-- ===== src/Serialize/Codec.antt =====
-- The overloads of `write` and `read` for one type, behind the laws that its users rely on.
use hnu_middleware.Base.{ℕ, ◌≡◌, Bool, true, Option, some, List, ◌++◌}
use hnu_middleware.Serialize.Bytes.{ByteOrder}
use hnu_middleware.Serialize.Stream.{Stream}
use hnu_middleware.Serialize.Stream.Transfer.{Fits, Writes, at}

-- `write(const T&)`, `read(T&)`, and what a local `T v;` holds before it is read into. A read takes
-- what the variable held, and gives the flag returned, what the variable then holds, and the stream.
pub record Codec (T : Type 0) : Type 0 where
  pub write : ByteOrder → T → Stream → Option Stream
  pub read : ByteOrder → T → Stream → Option (Bool × T × Stream)
  pub fresh : T

-- A codec that writes each value in `Valid` as the bytes `encode`, on every host alike, and that
-- reads a value back from those bytes, whatever follows them and whatever the variable held.
pub record IsLawful {T : Type 0} (c : Codec T) (Valid : T → Type 0) : Type 0 where
  pub encode : T → List ℕ
  pub write-Writes :
      (host : ByteOrder) (v : T) (s : Stream)
      → s.byte_order ≡ host
      → Valid v
      → Fits s (encode v)
      → Writes s (encode v) (c.write host v s)
  pub read-at :
      (host : ByteOrder) (held : ℕ) (pre : List ℕ) (v old : T) (rest : List ℕ)
      → Valid v
      → c.read host old (at host held pre (encode v ++ rest))
        ≡ some (true, v, at host held (pre ++ encode v) rest)
