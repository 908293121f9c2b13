-- ===== src/Locks/Counting.antt =====
-- What both locks do to their `int32_t`, and why a writer is alone: the number is that of the
-- readers, or -1 and there is one writer.
use hnu_middleware.Base.{
  ℕ, zero, suc, ◌+◌, ◌-◌, ◌%◌, ◌^◌, ◌≤◌, ◌<◌, ◌≡◌, ◌≢◌, refl, ap, ap₂, subst, update, update_self,
  update-other, ℕ_discrete, arith,
}

-- An `int32_t` as its bit pattern.
abbrev pub minus_one : ℕ
minus_one = 2 ^ 32 - 1

abbrev pub increment : ℕ → ℕ
increment v = (v + 1) % 2 ^ 32

abbrev pub decrement : ℕ → ℕ
decrement v = (v + minus_one) % 2 ^ 32

abbrev pub int_limit : ℕ
int_limit = 2 ^ 31

-- How a thread has the lock.
pub data Hold : Type 0 where
  nothing reader writer : Hold

abbrev pub readers : Hold → ℕ
readers reader = 1
readers nothing = 0
readers writer = 0

abbrev pub writers : Hold → ℕ
writers writer = 1
writers nothing = 0
writers reader = 0

-- What a thread's access does to the lock and to its hold.
pub data Change (v : ℕ) : Hold → ℕ → Hold → Type 0 where
  stay : {h : Hold} → Change v h v h
  take_read : v < int_limit → Change v nothing (increment v) reader
  take_write : v ≡ 0 → Change v nothing minus_one writer
  drop_read : Change v reader (decrement v) nothing
  drop_write : Change v writer (increment v) nothing

-- The sum of a weight over the threads below a number.
abbrev pub total {ℓ} : {A : Type ℓ} → (A → ℕ) → (ℕ → A) → ℕ → ℕ
total w f zero = 0
total w f (suc n) = total w f n + w (f n)

module _ {ℓ} {A : Type ℓ} (w : A → ℕ) (f : ℕ → A) where
  total-update_above : (n i : ℕ) (a : A) → n ≤ i → total w (update f i a) n ≡ total w f n
  total-update_above zero i a h = refl
  total-update_above (suc n) i a h =
      ap₂ (λ m k. m + k) (total-update_above n i a (omega arith))
        (ap w (update-other f i n a (omega arith)))

  pub total-update :
      (n i : ℕ) (a : A) → i < n → total w (update f i a) n + w (f i) ≡ total w f n + w a
  total-update zero i a h = omega arith
  total-update (suc n) i a h = elim (ℕ_discrete i n) [
    | yes same ↦ omega (
      arith,
      total-update_above n i a (omega arith),
      ap (λ k. w (f k)) same,
      ap w (subst (λ k. update f i a k ≡ a) same (update_self f i a)),
    )
    | no ne ↦ omega (arith, total-update n i a (omega arith), ap w (update-other f i n a ne))
  ]

  pub weight≤total : (n i : ℕ) → i < n → w (f i) ≤ total w f n
  weight≤total zero i h = omega arith
  weight≤total (suc n) i h = elim (ℕ_discrete i n) [
    | yes same ↦ omega (arith, ap (λ k. w (f k)) same)
    | no ne ↦ omega (arith, weight≤total n i (omega arith))
  ]

  pub total-two : (n i j : ℕ) → i < n → j < n → i ≢ j → w (f i) + w (f j) ≤ total w f n
  total-two zero i j h k ne = omega arith
  total-two (suc n) i j h k ne = elim (ℕ_discrete i n) [
    | yes same ↦ omega (arith, ap (λ m. w (f m)) same, weight≤total n j (omega arith))
    | no more ↦ elim (ℕ_discrete j n) [
      | yes same ↦ omega (arith, ap (λ m. w (f m)) same, weight≤total n i (omega arith))
      | no further ↦ omega (arith, total-two n i j (omega arith) (omega arith) ne)
    ]
  ]

  pub total≤ : (n : ℕ) → ((a : A) → w a ≤ 1) → total w f n ≤ n
  total≤ zero h = omega arith
  total≤ (suc n) h = omega (arith, h (f n), total≤ n h)

-- The lock's number is what the threads' holds say.
pub data Tally (v reading writing : ℕ) : Type 0 where
  shared : v ≡ reading → writing ≡ 0 → Tally v reading writing
  exclusive : v ≡ minus_one → reading ≡ 0 → writing ≡ 1 → Tally v reading writing

-- The change that one thread makes, seen by the sums over all threads.
record Moved (a b : Hold) (r r' w w' : ℕ) : Type 0 where
  in_readers : r' + readers a ≡ r + readers b
  in_writers : w' + writers a ≡ w + writers b

Tally-Change :
    {v v' r r' w w' : ℕ} {a b : Hold}
    → r < int_limit
    → writers a ≤ w
    → readers a ≤ r
    → r' < int_limit
    → Change v a v' b
    → Moved a b r r' w w'
    → Tally v r w
    → Tally v' r' w'
Tally-Change few wa ra few' stay m (shared p q) =
    shared (omega (arith, m.in_readers)) (omega (arith, m.in_writers))
Tally-Change few wa ra few' stay m (exclusive p q e) =
    exclusive p (omega (arith, m.in_readers)) (omega (arith, m.in_writers))
Tally-Change few wa ra few' (take_read lt) m (shared p q) =
    shared (omega (arith, m.in_readers)) (omega (arith, m.in_writers))
Tally-Change few wa ra few' (take_read lt) m (exclusive p q e) = absurd (omega arith)
Tally-Change few wa ra few' (take_write zero_) m (shared p q) =
    exclusive refl (omega (arith, m.in_readers)) (omega (arith, m.in_writers))
Tally-Change few wa ra few' (take_write zero_) m (exclusive p q e) = absurd (omega arith)
Tally-Change few wa ra few' drop_read m (shared p q) =
    shared (omega (arith, m.in_readers)) (omega (arith, m.in_writers))
Tally-Change few wa ra few' drop_read m (exclusive p q e) = absurd (omega arith)
Tally-Change few wa ra few' drop_write m (shared p q) = absurd (omega arith)
Tally-Change few wa ra few' drop_write m (exclusive p q e) =
    shared (omega (arith, m.in_readers)) (omega (arith, m.in_writers))

readers≤1 : (h : Hold) → readers h ≤ 1
readers≤1 nothing = omega arith
readers≤1 reader = omega arith
readers≤1 writer = omega arith

alone : {v r w : ℕ} (h : Hold) → Tally v r w → 1 + writers h ≤ w → readers h ≤ r → h ≡ nothing
alone nothing t wh rh = refl
alone reader (shared p q) wh rh = absurd (omega arith)
alone reader (exclusive p q e) wh rh = absurd (omega arith)
alone writer (shared p q) wh rh = absurd (omega arith)
alone writer (exclusive p q e) wh rh = absurd (omega arith)

-- Threads of any kind that have the lock or not, where they stand.
module _ {P : Type 0} (hold : P → Hold) (n : ℕ) where
  abbrev reading : (ℕ → P) → ℕ
  reading pc = total (λ p. readers (hold p)) pc n

  abbrev writing : (ℕ → P) → ℕ
  writing pc = total (λ p. writers (hold p)) pc n

  abbrev pub Counted : ℕ → (ℕ → P) → Type 0
  Counted v pc = Tally v (reading pc) (writing pc)

  pub Counted-update :
      (v v' : ℕ) (pc : ℕ → P) (i : ℕ) (p' : P)
      → n < int_limit
      → i < n
      → Change v (hold (pc i)) v' (hold p')
      → Counted v pc
      → Counted v' (update pc i p')
  Counted-update v v' pc i p' few lt c t =
      let few_readers : (f : ℕ → P) → reading f < int_limit =
        λ f. omega (arith, total≤ (λ p. readers (hold p)) f n (λ p. readers≤1 (hold p))) in
      Tally-Change (few_readers pc) (weight≤total (λ p. writers (hold p)) pc n i lt)
        (weight≤total (λ p. readers (hold p)) pc n i lt) (few_readers (update pc i p')) c
        record {
          in_readers = total-update (λ p. readers (hold p)) pc n i p' lt;
          in_writers = total-update (λ p. writers (hold p)) pc n i p' lt;
        }
        t

  -- While one thread writes, no other one reads or writes.
  pub Counted-alone :
      (v : ℕ) (pc : ℕ → P) (i j : ℕ)
      → Counted v pc
      → i < n
      → j < n
      → i ≢ j
      → hold (pc i) ≡ writer
      → hold (pc j) ≡ nothing
  Counted-alone v pc i j t lt_i lt_j ne wrote =
      alone (hold (pc j)) t
        (omega (arith, total-two (λ p. writers (hold p)) pc n i j lt_i lt_j ne, ap writers wrote))
        (weight≤total (λ p. readers (hold p)) pc n j lt_j)
