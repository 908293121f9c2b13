-- ===== src/Serialize/Custom.antt =====
-- The `SERIALIZE(...)` macro of serialize/serializable.h, with `write_args`, `read_args` and the
-- overloads for `Serializable` (serialize/data_stream.h, serialize/data_stream.cpp).
pub mod Laws
use hnu_middleware.Base.{
  ℕ, Bool, true, false, Option, some, List, [], ◌∷◌, ◌==◌, if◌then◌else◌, ◌>>=◌,
}
use mathlib.Core.Option.{get_or}
use mathlib.Core.List.{head?}
use hnu_middleware.Serialize.Bytes.{ByteOrder}
use hnu_middleware.Serialize.Codec.{Codec}
use hnu_middleware.Serialize.Containers.{both}
use hnu_middleware.Serialize.Stream.{Stream, DataType, code, write_tag, read_raw}

-- `write_args()` and `read_args()` of no arguments.
unfoldable pub no_args : Codec (Unit {0})
no_args = record { write = λ host v s. some s; read = λ host v s. some (true, tt, s); fresh = tt }

-- `write_args(head, args...)` and `read_args(head, args...)`.
unfoldable pub args : {T R : Type 0} → Codec T → Codec R → Codec (T × R)
args c rest = both c rest

-- `serialize` and `unserialize` of a class with `SERIALIZE(...)`, for the codec of its fields. A
-- wrong type byte is consumed before it is refused, and the result of `read_args` is dropped.
unfoldable pub serializable : {T : Type 0} → Codec T → Codec T
serializable c = record {
  write = λ host v s. do
    r ← write_tag DataType.custom s
    c.write host v r;
  read = λ host old s. do
    (type, r) ← read_raw 1 s
    let fields = do
      (_, v, r') ← c.read host old r
      some (true, v, r')
    if get_or (head? type) 0 == code DataType.custom then fields else some (false, old, r);
  fresh = c.fresh;
}

-- A class whose `SERIALIZE(...)` lists the members that `get` takes out and `put` sets.
unfoldable pub members : {R T : Type 0} → (R → T) → (R → T → R) → R → Codec T → Codec R
members get put fresh c = record {
  write = λ host v s. (serializable c).write host (get v) s;
  read = λ host old s. do
    (flag, v, r) ← (serializable c).read host (get old) s
    some (flag, put old v, r);
  fresh = fresh;
}
