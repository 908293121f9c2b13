-- ===== src/Tests/HashMap.antt =====
-- The hash map and the registry of names at fixed inputs.
use hnu_middleware.Base.{ℕ, ◌≡◌, ◌≢◌, refl, inl, some, List, [], ◌∷◌, ap, get_or, ℕ_discrete, arith}
use hnu_middleware.HashMap.Bucket
use hnu_middleware.HashMap.Bucket.{Entry, IsSorted, get-entry}
use hnu_middleware.HashMap.Table
use hnu_middleware.HashMap.Table.{Table, index_of, empty, get-set, set-IsSorted, IsValid}
use hnu_middleware.HashMap.Register.{
  Name, Name-discrete, probe, register, register-total, register-distinct,
}

abbrev held : Table ℕ
held = Table.set 256 263 20 empty

empty-IsValid : IsValid 256 (empty {V = ℕ})
unfolding empty
empty-IsValid i = tt

abbrev entries : List (Entry ℕ)
entries = record { key = 7; value = 10 } ∷ record { key = 263; value = 20 } ∷ []

-- All names have the hash 7.
abbrev hash : Name → ℕ
hash n = 7

abbrev first_name : Name
first_name = 97 ∷ []

abbrev second_name : Name
second_name = 98 ∷ []

abbrev one_name : Table Name
one_name = Table.set 256 7 first_name empty

abbrev two_names : Table Name
two_names = Table.set 256 8 second_name one_name

register_first : register 256 3 hash first_name empty ≡ some (7, one_name)
unfolding register probe Table.has Bucket.has Table.set Table.get Bucket.get Bucket.insert
    Bucket.find index_of empty ℕ_discrete Name-discrete
register_first = refl

register_second : register 256 3 hash second_name one_name ≡ some (8, two_names)
unfolding register probe Table.has Bucket.has Table.set Table.get Bucket.get Bucket.insert
    Bucket.find index_of empty ℕ_discrete Name-discrete
register_second = refl

register-total_example :
    (id : ℕ) × (register 256 3 hash second_name one_name
      ≡ some (id, Table.set 256 id second_name one_name))
unfolding Table.get Bucket.get Bucket.find Table.set ℕ_discrete index_of empty
register-total_example =
    register-total 256 3 hash second_name 1 one_name (omega arith) (omega arith) (inl refl)

names-differ : first_name ≢ second_name
names-differ e = let heads : ◌≡◌ {A = ℕ} 97 98 = ap (λ n. get_or n 0 0) e in absurd (omega arith)

register-distinct_example : ◌≢◌ {A = ℕ} 7 8
register-distinct_example =
    register-distinct 256 3 hash first_name second_name empty one_name two_names 7 8 names-differ
      register_first register_second
