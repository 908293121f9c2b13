-- ===== src/HashMap/Table.antt =====
-- The table of buckets: `Has`, `Get` and `Set` of `AtomicHashMap`.
use hnu_middleware.Base.{
  ℕ, ◌-◌, ◌≡◌, refl, Bool, Option, none, some, List, [], ◌==◌, if◌then◌else◌, update, is_some, ◌≢◌,
  ==_refl, ne→==_false, arith,
}
use Prim.Native.Nat.{bit_and}
use hnu_middleware.HashMap.Bucket
use hnu_middleware.HashMap.Bucket.{Entry, IsSorted, insert-IsSorted, get-insert, has-get}

-- `table_`, by index; `TableSize` is a power of two, so an index is below it.
pub record Table (V : Type 0) : Type 0 where
  pub buckets : ℕ → List (Entry V)

-- `key & mode_num_`
unfoldable pub index_of : ℕ → ℕ → ℕ
index_of table_size key = bit_and key (table_size - 1)

-- `AtomicHashMap()`
unfoldable pub empty : {V : Type 0} → Table V
empty = record { buckets = λ _. [] }

module _ {V : Type 0} (table_size : ℕ) where
  unfoldable pub has : ℕ → Table V → Bool
  has key t = Bucket.has key (t.buckets (index_of table_size key))

  unfoldable pub get : ℕ → Table V → Option V
  get key t = Bucket.get key (t.buckets (index_of table_size key))

  unfoldable pub set : ℕ → V → Table V → Table V
  set key v t = record {
    buckets =
        update t.buckets (index_of table_size key)
          (Bucket.insert key v (t.buckets (index_of table_size key)));
  }

  pub get-empty : (key : ℕ) → get key (empty {V = V}) ≡ none
  unfolding get empty Bucket.get Bucket.find
  get-empty key = refl

  -- `Set` is seen by the lookups of its key, and by no others, in whatever bucket they look.
  pub get-set :
      (key : ℕ) (v : V) (t : Table V) (j : ℕ)
      → get j (set key v t) ≡ (if key == j then some v else get j t)
  unfolding get set
  get-set key v t j = ground (arith, get-insert key v (t.buckets (index_of table_size key)) j)

  pub get-set_same : (key : ℕ) (v : V) (t : Table V) → get key (set key v t) ≡ some v
  get-set_same key v t = rw (get-set key v t key, ==_refl key) refl

  pub get-set_other :
      (key : ℕ) (v : V) (t : Table V) (j : ℕ) → key ≢ j → get j (set key v t) ≡ get j t
  get-set_other key v t j ne = rw (get-set key v t j, ne→==_false key j ne) refl

  pub has-eq-get : (key : ℕ) (t : Table V) → has key t ≡ is_some (get key t)
  unfolding has get
  has-eq-get key t = has-get key (t.buckets (index_of table_size key))

  -- Every bucket is in strictly ascending order.
  abbrev pub IsValid : Table V → Type 0
  IsValid t = (i : ℕ) → IsSorted (t.buckets i)

  -- `Set` on a table whose buckets are all in strictly ascending order of their keys leaves each bucket
  -- in that order.
  pub set-IsSorted :
      (key : ℕ) (v : V) (t : Table V) (i : ℕ) → IsValid t → IsSorted ((set key v t).buckets i)
  unfolding set
  set-IsSorted key v t i h = ground (
    arith,
    h i,
    h (index_of table_size key),
    insert-IsSorted key v (t.buckets (index_of table_size key)) (h (index_of table_size key)),
  )

  -- `Set(key)`, with a new `V()`
  unfoldable pub set_default : ℕ → V → Table V → Table V
  set_default key unset t = record {
    buckets =
        update t.buckets (index_of table_size key)
          (Bucket.insert_default key unset (t.buckets (index_of table_size key)));
  }
