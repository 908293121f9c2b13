-- ===== src/HashMap/Register.antt =====
-- `GlobalData::RegisterChannel`, `RegisterNode` and `GetChannelById` (common/global_data.cpp): names
-- get the ids of a global map, from their hash on. `std::hash` is a parameter.
use hnu_middleware.Base.{
  ℕ, zero, suc, ◌+◌, ◌%◌, ◌^◌, ◌<◌, ◌≡◌, ◌≢◌, refl, sym, ap, subst, ◌∙◌, Option, none, some, List,
  [], ◌⊎◌, if◌then◌else◌, ◌>>=◌, ℕ_discrete, Option-cases, inl, inr, arith,
}
use mathlib.Core.Option.{get_or, some-injective}
use mathlib.Core.Logic.{ite, if_pos, if_neg}
use hnu_middleware.HashMap.Table
use hnu_middleware.HashMap.Table.{Table, has-eq-get, get-set, get-set_same, get-set_other}

abbrev pub Name : Type 0
Name = List ℕ

unfoldable pub Name-discrete : Discrete Name
Name-discrete = hlevel ℕ_discrete

abbrev pub next_id : ℕ → ℕ
next_id id = (id + 1) % 2 ^ 64

-- `channel_id_map_` has 256 buckets and `node_id_map_` 512; the two functions are otherwise alike.
module _ (table_size : ℕ) where
  -- The `while`: on to the next id while the id belongs to another name.
  unfoldable pub probe : ℕ → Name → ℕ → Table Name → Option ℕ
  probe zero name id t = none
  probe (suc fuel) name id t =
      let further = probe fuel name (next_id id) t in
      let taken = do
        other ← Table.get table_size id t
        ite (Name-discrete name other) (some id) further
      in if Table.has table_size id t then taken else some id

  unfoldable pub register : ℕ → (Name → ℕ) → Name → Table Name → Option ((id : ℕ) × Table Name)
  register fuel hash name t = do
    id ← probe fuel name (hash name) t
    some (id, Table.set table_size id name t)

  -- `GetChannelById`, with `kEmptyString` for an id that is not registered.
  unfoldable pub get_name_by_id : ℕ → Table Name → Name
  get_name_by_id id t = get_or (Table.get table_size id t) []

  -- The ids that the loop may stop at: those that are free or have the name.
  abbrev pub IsOpen : Name → Table Name → ℕ → Type 0
  IsOpen name t id = (Table.get table_size id t ≡ none) ⊎ (Table.get table_size id t ≡ some name)

  probe-stop :
      (fuel : ℕ) (name : Name) (id : ℕ) (t : Table Name)
      → IsOpen name t id
      → probe (suc fuel) name id t ≡ some id
  unfolding probe
  probe-stop fuel name id t (inl free) = rw (has-eq-get table_size id t, free)
  probe-stop fuel name id t (inr own) =
      rw (has-eq-get table_size id t, own) (if_pos (Name-discrete name name) refl _ _)

  probe-pass :
      (fuel : ℕ) (name other : Name) (id : ℕ) (t : Table Name)
      → Table.get table_size id t ≡ some other
      → name ≢ other
      → probe (suc fuel) name id t ≡ probe fuel name (next_id id) t
  unfolding probe
  probe-pass fuel name other id t taken ne =
      rw (has-eq-get table_size id t, taken) (if_neg (Name-discrete name other) ne _ _)

  -- What a probe that ends has found.
  probe-IsOpen :
      (fuel : ℕ) (name : Name) (id : ℕ) (t : Table Name) {r : ℕ}
      → probe fuel name id t ≡ some r
      → IsOpen name t r
  unfolding probe
  probe-IsOpen zero name id t e = ground arith
  probe-IsOpen (suc fuel) name id t {r} e = elim (Option-cases (Table.get table_size id t)) [
    | inl free ↦
        subst (λ i. IsOpen name t i)
          (some-injective _ _ (sym (probe-stop fuel name id t (inl free)) ∙ e)) (inl free)
    | inr (other, taken) ↦ elim (Name-discrete name other) [
      | yes same ↦
          (let own = inr (taken ∙ ap some (sym same)) in
            subst (λ i. IsOpen name t i)
              (some-injective _ _ (sym (probe-stop fuel name id t own) ∙ e)) own)
      | no differ ↦
          probe-IsOpen fuel name (next_id id) t
            (sym (probe-pass fuel name other id t taken differ) ∙ e)
    ]
  ]

  -- One more step of the loop, whatever the other ids hold.
  probe-further :
      (fuel : ℕ) (name : Name) (id : ℕ) (t : Table Name)
      → ((r : ℕ) × (probe fuel name (next_id id) t ≡ some r))
      → (r : ℕ) × (probe (suc fuel) name id t ≡ some r)
  probe-further fuel name id t (r, e) = elim (Option-cases (Table.get table_size id t)) [
    | inl free ↦ (id, probe-stop fuel name id t (inl free))
    | inr (other, taken) ↦ elim (Name-discrete name other) [
      | yes same ↦ (id, probe-stop fuel name id t (inr (taken ∙ ap some (sym same))))
      | no differ ↦ (r, probe-pass fuel name other id t taken differ ∙ e)
    ]
  ]

  -- Ids go round `uint64_t`: among as many as the fuel, one that is open is found.
  pub probe-total :
      (fuel : ℕ) (name : Name) (id k : ℕ) (t : Table Name)
      → k < fuel
      → id < 2 ^ 64
      → IsOpen name t ((id + k) % 2 ^ 64)
      → (r : ℕ) × (probe fuel name id t ≡ some r)
  probe-total zero name id k t lt below stop = ground arith
  probe-total (suc fuel) name id zero t lt below stop =
      let here : (id + 0) % 2 ^ 64 ≡ id = omega arith in
      (id, probe-stop fuel name id t (subst (λ i. IsOpen name t i) here stop))
  probe-total (suc fuel) name id (suc k) t lt below stop =
      let next : (id + suc k) % 2 ^ 64 ≡ (next_id id + k) % 2 ^ 64 = omega arith in
      probe-further fuel name id t (
        probe-total fuel name (next_id id) k t (omega arith) (omega arith)
          (subst (λ i. IsOpen name t i) next stop))

  -- After the id that a probe found is set to the name, the probe finds it again.
  probe-again :
      (fuel : ℕ) (name : Name) (id : ℕ) (t : Table Name) {r : ℕ}
      → probe fuel name id t ≡ some r
      → probe fuel name id (Table.set table_size r name t) ≡ some r
  unfolding probe
  probe-again zero name id t e = ground arith
  probe-again (suc fuel) name id t {r} e = elim (ℕ_discrete r id) [
    | yes same ↦
        (let own : IsOpen name (Table.set table_size r name t) id = inr (
            subst (λ i. Table.get table_size i (Table.set table_size r name t) ≡ some name) same
              (get-set_same table_size r name t)) in
          probe-stop fuel name id (Table.set table_size r name t) own ∙ ap some (sym same))
    | no differ ↦ elim (Option-cases (Table.get table_size id t)) [
      | inl free ↦ ground (arith, probe-stop fuel name id t (inl free), differ)
      | inr (other, taken) ↦ elim (Name-discrete name other) [
        | yes same ↦
            ground (arith, probe-stop fuel name id t (inr (taken ∙ ap some (sym same))), differ)
        | no ne ↦
            probe-pass fuel name other id (Table.set table_size r name t)
              (get-set_other table_size r name t id differ ∙ taken) ne
            ∙ probe-again fuel name (next_id id) t
                (sym (probe-pass fuel name other id t taken ne) ∙ e)
      ]
    ]
  ]

  register-of :
      (fuel : ℕ) (hash : Name → ℕ) (name : Name) (t : Table Name) (id : ℕ)
      → probe fuel name (hash name) t ≡ some id
      → register fuel hash name t ≡ some (id, Table.set table_size id name t)
  unfolding register
  register-of fuel hash name t id e = rw (e) refl

  register-parts :
      (fuel : ℕ) (hash : Name → ℕ) (name : Name) (t t' : Table Name) (id : ℕ)
      → register fuel hash name t ≡ some (id, t')
      → (probe fuel name (hash name) t ≡ some id) × (t' ≡ Table.set table_size id name t)
  unfolding register
  register-parts fuel hash name t t' id e = elim (Option-cases (probe fuel name (hash name) t)) [
    | inl end ↦ ground (arith, end)
    | inr (r, found) ↦
        let same =
          some-injective (r, Table.set table_size r name t) (id, t')
            (sym (register-of fuel hash name t r found) ∙ e) in
        let id_eq : r ≡ id = ap (λ p. p.0) same in
        (
          found ∙ ap some id_eq,
          sym (ap (λ p. p.1) same) ∙ ap (λ i. Table.set table_size i name t) id_eq,
        )
  ]

  -- If one of the ids that the fuel reaches from the hash on, round `uint64_t`, is free or has the
  -- name, then `register` ends.
  pub register-total :
      (fuel : ℕ) (hash : Name → ℕ) (name : Name) (k : ℕ) (t : Table Name)
      → k < fuel
      → hash name < 2 ^ 64
      → IsOpen name t ((hash name + k) % 2 ^ 64)
      → (id : ℕ) × (register fuel hash name t ≡ some (id, Table.set table_size id name t))
  register-total fuel hash name k t lt below stop =
      let found = probe-total fuel name (hash name) k t lt below stop in
      (found.0, register-of fuel hash name t found.0 found.1)

  get_name-some :
      (id : ℕ) (name : Name) (t : Table Name)
      → Table.get table_size id t ≡ some name
      → get_name_by_id id t ≡ name
  unfolding get_name_by_id
  get_name-some id name t h = rw (h) refl

  get_name-set :
      (id : ℕ) (name : Name) (t : Table Name)
      → get_name_by_id id (Table.set table_size id name t) ≡ name
  get_name-set id name t =
      get_name-some id name (Table.set table_size id name t) (get-set_same table_size id name t)

  set-keeps :
      (id : ℕ) (name : Name) (t : Table Name) (j : ℕ) (n : Name)
      → IsOpen name t id
      → Table.get table_size j t ≡ some n
      → Table.get table_size j (Table.set table_size id name t) ≡ some n
  set-keeps id name t j n stop h = elim (ℕ_discrete id j) [
    | yes same ↦ elim stop [
      | inl free ↦ ground (arith, same, free, h)
      | inr own ↦ cc (get-set_same table_size id name t)
    ]
    | no differ ↦ get-set_other table_size id name t j differ ∙ h
  ]

  -- When `register` ends, `get_name_by_id` of its id is the name.
  pub get_name-register :
      (fuel : ℕ) (hash : Name → ℕ) (name : Name) (t t' : Table Name) (id : ℕ)
      → register fuel hash name t ≡ some (id, t')
      → get_name_by_id id t' ≡ name
  get_name-register fuel hash name t t' id e =
      ap (λ u. get_name_by_id id u) (register-parts fuel hash name t t' id e).1
      ∙ get_name-set id name t

  -- When `register` ends, an id that was registered before has the name it had.
  pub register-keeps :
      (fuel : ℕ) (hash : Name → ℕ) (name : Name) (t t' : Table Name) (id j : ℕ) (n : Name)
      → register fuel hash name t ≡ some (id, t')
      → Table.get table_size j t ≡ some n
      → Table.get table_size j t' ≡ some n
  register-keeps fuel hash name t t' id j n e h =
      let (found, after) = register-parts fuel hash name t t' id e in
      subst (λ u. Table.get table_size j u ≡ some n) (sym after)
        (set-keeps id name t j n (probe-IsOpen fuel name (hash name) t found) h)

  -- When `register` has ended, the same call on the table it left ends with the same id.
  pub register_again :
      (fuel : ℕ) (hash : Name → ℕ) (name : Name) (t t' : Table Name) (id : ℕ)
      → register fuel hash name t ≡ some (id, t')
      → register fuel hash name t' ≡ some (id, Table.set table_size id name t')
  register_again fuel hash name t t' id e =
      let (found, after) = register-parts fuel hash name t t' id e in
      register-of fuel hash name t' id (
        subst (λ u. probe fuel name (hash name) u ≡ some id) (sym after)
          (probe-again fuel name (hash name) t found))

  -- Two calls of `register`, one on the table that the other left, give distinct names distinct ids.
  pub register-distinct :
      (fuel : ℕ) (hash : Name → ℕ) (a b : Name) (t t₁ t₂ : Table Name) (i j : ℕ)
      → a ≢ b
      → register fuel hash a t ≡ some (i, t₁)
      → register fuel hash b t₁ ≡ some (j, t₂)
      → i ≢ j
  register-distinct fuel hash a b t t₁ t₂ i j ne first second same =
      let (found, after) = register-parts fuel hash a t t₁ i first in
      let held : Table.get table_size i t₁ ≡ some a =
        subst (λ u. Table.get table_size i u ≡ some a) (sym after)
          (get-set_same table_size i a t) in
      let kept = register-keeps fuel hash b t₁ t₂ j i a second held in
      let name_j = get_name-register fuel hash b t₁ t₂ j second in
      ne (sym (get_name-some i a t₂ kept) ∙ ap (λ k. get_name_by_id k t₂) same ∙ name_j)
