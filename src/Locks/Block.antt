-- ===== src/Locks/Block.antt =====
-- The lock of a `Block` (transport/shm/core/block.cpp): `TryLockForWrite`, `TryLockForRead` and the
-- two releases, which `Segment` calls. The threads of all processes that map the block are numbered.
use hnu_middleware.Base.{
  ℕ, zero, suc, ◌+◌, ◌-◌, ◌*◌, ◌≤◌, ◌<◌, ◌≡◌, ◌≢◌, refl, sym, subst, update, update_self,
  update-other, ℕ_discrete, arith,
}
use hnu_middleware.Locks.Counting.{
  Hold, nothing, reader, writer, Change, stay, take_read, take_write, drop_read, drop_write,
  increment, decrement, minus_one, int_limit, Tally, shared, total, readers, writers, Counted,
  Counted-update, Counted-alone,
}

abbrev pub max_try_lock_times : ℕ
max_try_lock_times = 5

-- Where a thread stands, with its local variables `lock_num` and `try_times`.
pub data Pc : Type 0 where
  idle reading writing : Pc
  read_cas : (lock_num try_times : ℕ) → Pc  -- before the compare-exchange
  read_load : (try_times : ℕ) → Pc  -- before the load in the loop

-- One access to `lock_num_`, from a value of it to another. A weak compare-exchange may fail with the
-- value as expected, so a failure has no condition.
pub data Move (v : ℕ) : Pc → ℕ → Pc → Type 0 where
  write_win : v ≡ 0 → Move v idle minus_one writing
  write_fail : Move v idle v idle
  read_begin : v < int_limit → Move v idle v (read_cas v 0)
  read_refused : int_limit ≤ v → Move v idle v idle
  read_win : {e t : ℕ} → v ≡ e → Move v (read_cas e t) (increment v) reading
  read_lose : {e t : ℕ} → t + 1 ≢ max_try_lock_times → Move v (read_cas e t) v (read_load (t + 1))
  read_give_up : {e t : ℕ} → t + 1 ≡ max_try_lock_times → Move v (read_cas e t) v idle
  load_free : {t : ℕ} → v < int_limit → Move v (read_load t) v (read_cas v t)
  load_written : {t : ℕ} → int_limit ≤ v → Move v (read_load t) v idle
  release_read : Move v reading (decrement v) idle
  release_write : Move v writing (increment v) idle

pub record System : Type 0 where
  pub lock_num : ℕ
  pub pc : ℕ → Pc

abbrev pub init : System
init = record { lock_num = 0; pc = λ i. idle }

-- A step of one of the threads below `n`.
pub data Step (n : ℕ) (s : System) : System → Type 0 where
  step :
      (i v : ℕ) (p : Pc)
      → i < n
      → Move s.lock_num (s.pc i) v p
      → Step n s record { lock_num = v; pc = update s.pc i p }

pub data Reach (n : ℕ) : System → Type 0 where
  start : Reach n init
  next : {s s' : System} → Reach n s → Step n s s' → Reach n s'

unfoldable pub hold : Pc → Hold
hold idle = nothing
hold reading = reader
hold writing = writer
hold (read_cas e t) = nothing
hold (read_load t) = nothing

-- What a thread's local variables keep to.
abbrev Local : Pc → Type 0
Local idle = Unit {0}
Local reading = Unit {0}
Local writing = Unit {0}
Local (read_cas e t) = (e < int_limit) × (t < max_try_lock_times)
Local (read_load t) = t < max_try_lock_times

Move-Change : (v v' : ℕ) (p p' : Pc) → Local p → Move v p v' p' → Change v (hold p) v' (hold p')
unfolding hold
Move-Change v v' p p' l (write_win e) = take_write e
Move-Change v v' p p' l write_fail = stay
Move-Change v v' p p' l (read_begin h) = stay
Move-Change v v' p p' l (read_refused h) = stay
Move-Change v v' p p' l (read_win e) = take_read (omega (arith, l.0))
Move-Change v v' p p' l (read_lose h) = stay
Move-Change v v' p p' l (read_give_up h) = stay
Move-Change v v' p p' l (load_free h) = stay
Move-Change v v' p p' l (load_written h) = stay
Move-Change v v' p p' l release_read = drop_read
Move-Change v v' p p' l release_write = drop_write

Move-Local : (v v' : ℕ) (p p' : Pc) → Local p → Move v p v' p' → Local p'
Move-Local v v' p p' l (write_win e) = tt
Move-Local v v' p p' l write_fail = tt
Move-Local v v' p p' l (read_begin h) = (h, omega arith)
Move-Local v v' p p' l (read_refused h) = tt
Move-Local v v' p p' l (read_win e) = tt
Move-Local v v' p p' l (read_lose h) = omega (arith, l.1)
Move-Local v v' p p' l (read_give_up h) = tt
Move-Local v v' p p' l (load_free h) = (h, l)
Move-Local v v' p p' l (load_written h) = tt
Move-Local v v' p p' l release_read = tt
Move-Local v v' p p' l release_write = tt

module _ (n : ℕ) (few : n < int_limit) where
  record Inv (s : System) : Type 0 where
    counted : Counted hold n s.lock_num s.pc
    each : (i : ℕ) → Local (s.pc i)

  idle-total :
      (m : ℕ)
      → (total (λ p. readers (hold p)) (λ i. idle) m ≡ 0)
        × (total (λ p. writers (hold p)) (λ i. idle) m ≡ 0)
  unfolding hold
  idle-total zero = (refl, refl)
  idle-total (suc m) = (omega (arith, (idle-total m).0), omega (arith, (idle-total m).1))

  init-Inv : Inv init
  init-Inv = record { counted = shared (sym (idle-total n).0) (idle-total n).1; each = λ i. tt }

  Step-Inv : (s s' : System) → Step n s s' → Inv s → Inv s'
  Step-Inv s s' (step i v p lt m) h = record {
    counted =
        Counted-update hold n s.lock_num v s.pc i p few lt
          (Move-Change s.lock_num v (s.pc i) p (h.each i) m) h.counted;
    each = λ j. elim (ℕ_discrete i j) [
      | yes same ↦
          subst (λ k. Local (update s.pc i p k)) same
            (subst Local (sym (update_self s.pc i p))
              (Move-Local s.lock_num v (s.pc i) p (h.each i) m))
      | no ne ↦ subst Local (sym (update-other s.pc i j p ne)) (h.each j)
    ];
  }

  Reach-Inv : (s : System) → Reach n s → Inv s
  Reach-Inv s start = init-Inv
  Reach-Inv s' (next {s} r t) = Step-Inv s s' t (Reach-Inv s r)

  -- In every state that fewer than 2^31 threads reach, while one thread has a block's write lock, no
  -- other one has its write lock or a read lock.
  pub Reach-exclusive_block :
      (s : System) (i j : ℕ)
      → Reach n s
      → i < n
      → j < n
      → i ≢ j
      → hold (s.pc i) ≡ writer
      → hold (s.pc j) ≡ nothing
  Reach-exclusive_block s i j r lt_i lt_j ne wrote =
      Counted-alone hold n s.lock_num s.pc i j (Reach-Inv s r).counted lt_i lt_j ne wrote

  -- In every state that fewer than 2^31 threads reach, `lock_num_` is the number of the threads that
  -- have a read lock while none has the write lock; and it is -1, with no read lock held, while one
  -- has the write lock.
  pub Reach-counts :
      (s : System)
      → Reach n s
      → Tally s.lock_num
          (total (λ p. readers (hold p)) s.pc n)
          (total (λ p. writers (hold p)) s.pc n)
  Reach-counts s r = (Reach-Inv s r).counted

  -- The accesses that a call of `TryLockForRead` still makes at most.
  abbrev pub accesses_left : Pc → ℕ
  accesses_left idle = 0
  accesses_left reading = 0
  accesses_left writing = 0
  accesses_left (read_cas e t) = 2 * (max_try_lock_times - t) - 1
  accesses_left (read_load t) = 2 * (max_try_lock_times - t)

  Move-left :
      (v v' : ℕ) (p p' : Pc)
      → Local p
      → 0 < accesses_left p
      → Move v p v' p'
      → accesses_left p' < accesses_left p
  Move-left v v' p p' l some_left (write_win e) = absurd (omega arith)
  Move-left v v' p p' l some_left write_fail = absurd (omega arith)
  Move-left v v' p p' l some_left (read_begin h) = absurd (omega arith)
  Move-left v v' p p' l some_left (read_refused h) = absurd (omega arith)
  Move-left v v' p p' l some_left (read_win e) = some_left
  Move-left v v' p p' l some_left (read_lose h) = omega (arith, l.1)
  Move-left v v' p p' l some_left (read_give_up h) = some_left
  Move-left v v' p p' l some_left (load_free h) = omega arith
  Move-left v v' p p' l some_left (load_written h) = some_left
  Move-left v v' p p' l some_left release_read = absurd (omega arith)
  Move-left v v' p p' l some_left release_write = absurd (omega arith)

  accesses_left≤10 : (p : Pc) → accesses_left p ≤ 10
  accesses_left≤10 idle = omega arith
  accesses_left≤10 reading = omega arith
  accesses_left≤10 writing = omega arith
  accesses_left≤10 (read_cas e t) = omega arith
  accesses_left≤10 (read_load t) = omega arith

  -- A thread within `TryLockForRead` has at most 10 accesses left, and each of its moves leaves fewer,
  -- whatever the other threads did before: the call ends, with the lock or without.
  pub try_lock_for_read-ends :
      (s : System) (i v : ℕ) (p : Pc)
      → Reach n s
      → 0 < accesses_left (s.pc i)
      → Move s.lock_num (s.pc i) v p
      → (accesses_left (s.pc i) ≤ 10) × (accesses_left p < accesses_left (s.pc i))
  try_lock_for_read-ends s i v p r within m = (
    accesses_left≤10 (s.pc i),
    Move-left s.lock_num v (s.pc i) p ((Reach-Inv s r).each i) within m,
  )
