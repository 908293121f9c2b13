-- ===== src/Locks/Atomic.antt =====
-- `AtomicRWLock` (base/atomic_rw_lock.h): `ReadLock`, `WriteLock` and the two unlocks. The count of
-- retries, which only says when a thread yields, is left out.
pub mod Safety
use hnu_middleware.Base.{ℕ, ◌+◌, ◌-◌, ◌≤◌, ◌<◌, ◌≡◌, ◌≢◌, ◌⊎◌, Bool, true, false, update}
use hnu_middleware.Locks.Counting.{
  Hold, nothing, reader, writer, increment, decrement, minus_one, int_limit,
}

-- Where a thread stands, with its local variable `lock_num`.
pub data Pc : Type 0 where
  idle reading writing : Pc
  read_wait : (lock_num : ℕ) → Pc  -- before `need_wait()`
  read_load : Pc  -- before the load in the loop
  read_cas : (lock_num : ℕ) → Pc  -- before the compare-exchange
  write_cas : Pc  -- before the compare-exchange
  write_leave : Pc  -- before the `fetch_sub` on the count of waiting writers

-- `lock_num_` and `write_lock_wait_num_`
pub record Shared : Type 0 where
  pub lock_num : ℕ
  pub write_lock_wait_num : ℕ

-- `need_wait()`, with what it loads of the count of waiting writers
abbrev pub NeedWait : Bool → ℕ → ℕ → Type 0
NeedWait write_first lock_num waiting =
    (int_limit ≤ lock_num) ⊎ ((write_first ≡ true) × (0 < waiting))

-- One access to a shared variable. A weak compare-exchange may fail with the value as expected; a
-- failed one of `ReadLock` sets `lock_num` to the value found.
pub data Move (write_first : Bool) (m : Shared) : Pc → Shared → Pc → Type 0 where
  read_begin : Move write_first m idle m (read_wait m.lock_num)
  read_waits :
      {e : ℕ}
      → NeedWait write_first e m.write_lock_wait_num
      → Move write_first m (read_wait e) m read_load
  read_ready :
      {e : ℕ}
      → ¬ (NeedWait write_first e m.write_lock_wait_num)
      → Move write_first m (read_wait e) m (read_cas e)
  read_loaded : Move write_first m read_load m (read_wait m.lock_num)
  read_win :
      {e : ℕ}
      → m.lock_num ≡ e
      → Move write_first m (read_cas e) (record m { lock_num = increment m.lock_num }) reading
  read_lose : {e : ℕ} → Move write_first m (read_cas e) m (read_wait m.lock_num)
  write_begin :
      Move write_first m idle
        (record m { write_lock_wait_num = increment m.write_lock_wait_num })
        write_cas
  write_win :
      m.lock_num ≡ 0 → Move write_first m write_cas (record m { lock_num = minus_one }) write_leave
  write_lose : Move write_first m write_cas m write_cas
  write_left :
      Move write_first m write_leave
        (record m { write_lock_wait_num = decrement m.write_lock_wait_num })
        writing
  read_unlock : Move write_first m reading (record m { lock_num = decrement m.lock_num }) idle
  write_unlock : Move write_first m writing (record m { lock_num = increment m.lock_num }) idle

pub record System : Type 0 where
  pub shared : Shared
  pub pc : ℕ → Pc

abbrev pub init : System
init = record { shared = record { lock_num = 0; write_lock_wait_num = 0 }; pc = λ i. idle }

-- A step of one of the threads below `n`.
pub data Step (write_first : Bool) (n : ℕ) (s : System) : System → Type 0 where
  step :
      (i : ℕ) (m : Shared) (p : Pc)
      → i < n
      → Move write_first s.shared (s.pc i) m p
      → Step write_first n s record { shared = m; pc = update s.pc i p }

pub data Reach (write_first : Bool) (n : ℕ) : System → Type 0 where
  start : Reach write_first n init
  next : {s s' : System} → Reach write_first n s → Step write_first n s s' → Reach write_first n s'

-- How a thread has the lock; from its compare-exchange on, a writer has it.
unfoldable pub hold : Pc → Hold
hold idle = nothing
hold reading = reader
hold writing = writer
hold (read_wait e) = nothing
hold read_load = nothing
hold (read_cas e) = nothing
hold write_cas = nothing
hold write_leave = writer

-- Whether a thread stands in the count of waiting writers.
unfoldable pub waits : Pc → ℕ
waits idle = 0
waits reading = 0
waits writing = 0
waits (read_wait e) = 0
waits read_load = 0
waits (read_cas e) = 0
waits write_cas = 1
waits write_leave = 1
