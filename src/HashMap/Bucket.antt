-- ===== src/HashMap/Bucket.antt =====
-- `AtomicHashMap::Bucket`. The list holds the entries behind the sentinel `head_`.
use hnu_middleware.Base.{
  ℕ, zero, suc, ◌<◌, ◌≡◌, refl, Bool, true, false, Option, none, some, List, [], ◌∷◌, ◌++◌,
  get_elem?, is_some, ltb, ◌==◌, if◌then◌else◌, arith,
}

-- `AtomicHashMap::Entry`, with the value that `value_ptr` points to.
pub record Entry (V : Type 0) : Type 0 where
  pub key : ℕ
  pub value : V

-- What `Find` gives: the flag, the entries up to `*prev_ptr`, and those from `*target_ptr` on.
pub record Found (V : Type 0) : Type 0 where
  pub flag : Bool
  pub before : List (Entry V)
  pub target : List (Entry V)

module _ {V : Type 0} where
  abbrev pub pass : Entry V → Found V → Found V
  pass e f = record f { before = e ∷ f.before }

  -- `Bucket::Find`
  unfoldable pub find : ℕ → List (Entry V) → Found V
  find key [] = record { flag = false; before = []; target = [] }
  find key (e ∷ es) =
      let later = find key es in
      if e.key == key
      then record { flag = true; before = []; target = e ∷ es }
      else if ltb key e.key
      then record { flag = false; before = []; target = e ∷ es }
      else pass e later

  -- `Bucket::Has`
  unfoldable pub has : ℕ → List (Entry V) → Bool
  has key [] = false
  has key (e ∷ es) = let later = has key es in if ltb e.key key then later else e.key == key

  -- `Bucket::Get`: the value of the target, if it was found.
  unfoldable pub head_value : List (Entry V) → Option V
  head_value [] = none
  head_value (e ∷ es) = some e.value

  unfoldable pub get : ℕ → List (Entry V) → Option V
  unfolding head_value
  get key es = let f = find key es in if f.flag then head_value f.target else none

  -- `target->value_ptr.compare_exchange_strong(old_val_ptr, new_value)`
  unfoldable pub replace_head : V → List (Entry V) → List (Entry V)
  replace_head v [] = []
  replace_head v (e ∷ es) = record e { value = v } ∷ es

  -- The two overloads of `Bucket::Insert` with a value, copied or moved: no other thread
  -- writes, so the first compare-exchange succeeds.
  unfoldable pub insert : ℕ → V → List (Entry V) → List (Entry V)
  unfolding replace_head
  insert key v es =
      let f = find key es in
      if f.flag
      then f.before ++ replace_head v f.target
      else f.before ++ (record { key = key; value = v } ∷ f.target)

  -- `Insert(key)`, with a new `V()`
  unfoldable pub insert_default : ℕ → V → List (Entry V) → List (Entry V)
  insert_default key unset es = insert key unset es

  -- The keys rise strictly, from above `low` on.
  abbrev pub Rising : ℕ → List (Entry V) → Type 0
  Rising low [] = Unit
  Rising low (e ∷ es) = (low < e.key) × Rising e.key es

  abbrev pub IsSorted : List (Entry V) → Type 0
  IsSorted [] = Unit
  IsSorted (e ∷ es) = Rising e.key es

  -- Each operation, in terms of itself on the entries behind the first one.
  pub insert-cons :
      (key : ℕ) (v : V) (e : Entry V) (es : List (Entry V))
      → insert key v (e ∷ es) ≡ (
          if e.key == key
          then record e { value = v } ∷ es
          else if ltb key e.key
          then record { key = key; value = v } ∷ e ∷ es
          else e ∷ insert key v es)
  unfolding insert find
  insert-cons key v e es = ground arith

  pub get-cons :
      (key : ℕ) (e : Entry V) (es : List (Entry V))
      → get key (e ∷ es)
        ≡ (if e.key == key then some e.value else if ltb key e.key then none else get key es)
  unfolding get find
  get-cons key e es = ground arith

  get-nil : (key : ℕ) → get key [] ≡ none
  unfolding get find
  get-nil key = refl

  insert-nil : (key : ℕ) (v : V) → insert key v [] ≡ record { key = key; value = v } ∷ []
  unfolding insert find
  insert-nil key v = refl

  -- An insert is seen by the lookups of its key, and by no others.
  pub get-insert :
      (key : ℕ) (v : V) (es : List (Entry V)) (j : ℕ)
      → get j (insert key v es) ≡ (if key == j then some v else get j es)
  get-insert key v [] j =
      ground (arith, insert-nil key v, get-cons j (record { key = key; value = v }) [], get-nil j)
  get-insert key v (e ∷ es) j = ground (
    arith,
    insert-cons key v e es,
    get-cons j e es,
    get-cons j (record e { value = v }) es,
    get-cons j (record { key = key; value = v }) (e ∷ es),
    get-cons j e (insert key v es),
    get-insert key v es j,
  )

  -- `Has` and `Get` agree.
  pub has-get : (key : ℕ) (es : List (Entry V)) → has key es ≡ is_some (get key es)
  unfolding has
  has-get key [] = ground (arith, get-nil key)
  has-get key (e ∷ es) = ground (arith, get-cons key e es, has-get key es)

  insert-Rising :
      (low key : ℕ) (v : V) (es : List (Entry V))
      → low < key
      → Rising low es
      → Rising low (insert key v es)
  insert-Rising low key v [] h r = rw (insert-nil key v) (h, tt)
  insert-Rising low key v (e ∷ es) h r =
      ground (arith, insert-cons key v e es, insert-Rising e.key key v es)

  -- `Insert` keeps the entries in strictly ascending order.
  pub insert-IsSorted :
      (key : ℕ) (v : V) (es : List (Entry V)) → IsSorted es → IsSorted (insert key v es)
  insert-IsSorted key v [] r = rw (insert-nil key v) tt
  insert-IsSorted key v (e ∷ es) r =
      ground (arith, insert-cons key v e es, insert-Rising e.key key v es)

  get-Rising : (low : ℕ) (es : List (Entry V)) → Rising low es → get low es ≡ none
  get-Rising low [] r = get-nil low
  get-Rising low (e ∷ es) r = ground (arith, get-cons low e es)

  get-entry_above :
      (low : ℕ) (es : List (Entry V)) (i : ℕ) (e : Entry V)
      → Rising low es
      → get_elem? es i ≡ some e
      → (low < e.key) × (get e.key es ≡ some e.value)
  get-entry_above low [] i e r g = cc
  get-entry_above low (x ∷ es) zero e r g = ground (arith, get-cons e.key x es)
  get-entry_above low (x ∷ es) (suc i) e r g =
      let (above, found) = get-entry_above x.key es i e r.1 g in ground (arith, get-cons e.key x es)

  -- In a sorted bucket no entry is hidden: the lookup of an entry's key gives that entry's value.
  pub get-entry :
      (es : List (Entry V)) (i : ℕ) (e : Entry V)
      → IsSorted es
      → get_elem? es i ≡ some e
      → get e.key es ≡ some e.value
  get-entry [] i e s g = cc
  get-entry (x ∷ es) zero e s g = ground (arith, get-cons e.key x es)
  get-entry (x ∷ es) (suc i) e s g =
      let (above, found) = get-entry_above x.key es i e s g in ground (arith, get-cons e.key x es)
