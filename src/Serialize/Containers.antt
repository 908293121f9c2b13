-- ===== src/Serialize/Containers.antt =====
-- The container overloads of `DataStream::write` and `DataStream::read` (serialize/data_stream.h).
-- A `std::set` is the list of its items in ascending order, a `std::map` that of its entries.
pub mod Laws
pub mod Order
use hnu_middleware.Base.{
  ℕ, zero, suc, Bool, true, false, Option, some, List, [], ◌∷◌, ◌++◌, take, ltb, if◌then◌else◌,
  ◌>>=◌,
}
use hnu_middleware.Serialize.Bytes.{ByteOrder}
use hnu_middleware.Serialize.Codec.{Codec}
use hnu_middleware.Serialize.Stream.{Stream, DataType, int_limit, write_tag, has_tag, next_pos}
use hnu_middleware.Serialize.Words.{write_int32}
use hnu_middleware.Serialize.Text.{int_length, read_len}

-- How often `for (int i = 0; i < len; i++)` runs, for the bit pattern of `len`.
unfoldable pub rounds : ℕ → ℕ
rounds len = if ltb len int_limit then len else 0

module _ {T : Type 0} where
  -- `vector::push_back`
  unfoldable pub push_back : List T → T → List T
  push_back xs v = xs ++ v ∷ []

  -- `set::insert`, for the set's order
  unfoldable pub insert : (T → T → Bool) → List T → T → List T
  insert lt [] v = v ∷ []
  insert lt (x ∷ xs) v =
      let later = insert lt xs v in
      if lt v x then v ∷ x ∷ xs else if lt x v then x ∷ later else x ∷ xs

  module _ (c : Codec T) where
    -- The loop of every container's `write`.
    unfoldable pub write_each : ByteOrder → List T → Stream → Option Stream
    write_each host [] s = some s
    write_each host (x ∷ xs) s = do r ← c.write host x s; write_each host xs r

    -- The loop of every container's `read`, with what it does with an item. The flag of each item's
    -- read is dropped.
    unfoldable pub read_each :
        (List T → T → List T) → ByteOrder → ℕ → List T → Stream → Option (List T × Stream)
    read_each add host zero value s = some (value, s)
    read_each add host (suc n) value s = do
      (_, v, r) ← c.read host c.fresh s
      read_each add host n (add value v) r

    -- `write(const std::vector<T>&)`: the loop counts up to the `int`.
    unfoldable pub write_vector : ByteOrder → List T → Stream → Option Stream
    write_vector host value s = do
      r ← write_tag DataType.vector s
      r' ← write_int32 host (int_length value) r
      write_each host (take (rounds (int_length value)) value) r'

    -- The writes of the other containers, whose loops go by iterators.
    unfoldable pub write_items : DataType → ByteOrder → List T → Stream → Option Stream
    write_items type host value s = do
      r ← write_tag type s
      r' ← write_int32 host (int_length value) r
      write_each host value r'

    -- The reads of all containers. `value.clear()` comes first, so a wrong tag leaves it empty.
    unfoldable pub read_items :
        DataType
        → (List T → T → List T)
        → ByteOrder
        → List T
        → Stream
        → Option (Bool × List T × Stream)
    read_items type add host old s = do
      matches ← has_tag type s
      let items = do
        (len, r) ← read_len host (next_pos s)
        (value, r') ← read_each add host (rounds len) [] r
        some (true, value, r')
      if matches then items else some (false, [], s)

    unfoldable pub vector_codec : Codec (List T)
    vector_codec = record {
      write = write_vector;
      read = read_items DataType.vector push_back;
      fresh = [];
    }

    unfoldable pub list_codec : Codec (List T)
    list_codec = record {
      write = write_items DataType.list;
      read = read_items DataType.list push_back;
      fresh = [];
    }

    unfoldable pub set_codec : (T → T → Bool) → Codec (List T)
    set_codec lt = record {
      write = write_items DataType.set;
      read = read_items DataType.set (insert lt);
      fresh = [];
    }

module _ {K V : Type 0} where
  -- `value[k] = v` on a `std::map`
  unfoldable pub assign : (K → K → Bool) → List (K × V) → K × V → List (K × V)
  assign lt [] (k, v) = (k, v) ∷ []
  assign lt ((j, w) ∷ m) (k, v) =
      let later = assign lt m (k, v) in
      if lt k j then (k, v) ∷ (j, w) ∷ m else if lt j k then (j, w) ∷ later else (j, v) ∷ m

  -- Two values in a row: the key and the value of a map's entry, and the arguments of `write_args`
  -- and `read_args`. The flags of the reads are dropped.
  unfoldable pub both : Codec K → Codec V → Codec (K × V)
  both c d = record {
    write = λ host (k, v) s. c.write host k s >>= d.write host v;
    read = λ host (k, v) s. do
      (_, k', r) ← c.read host k s
      (_, v', r') ← d.read host v r
      some (true, (k', v'), r');
    fresh = (c.fresh, d.fresh);
  }

  unfoldable pub map_codec : (K → K → Bool) → Codec K → Codec V → Codec (List (K × V))
  map_codec lt c d = record {
    write = write_items (both c d) DataType.map;
    read = read_items (both c d) DataType.map (assign lt);
    fresh = [];
  }
