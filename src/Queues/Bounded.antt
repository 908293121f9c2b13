-- ===== src/Queues/Bounded.antt =====
-- `BoundedQueue<T>` (base/bounded_queue.h): any number of threads that enqueue and dequeue, one
-- access to the shared counters or to the pool at a time. All accesses are taken in one order.
pub mod Index
pub mod Defs
pub mod Frames
pub mod Moves
pub mod Safety
pub mod Waiting
use hnu_middleware.Base.{
  ℕ, suc, ◌+◌, ◌-◌, ◌*◌, ◌/◌, ◌%◌, ◌^◌, ◌<◌, ◌≡◌, ◌≢◌, List, [], ◌∷◌, ◌++◌, Option, none, some,
  update,
}

-- `uint64_t` addition
abbrev pub u64 : ℕ → ℕ
u64 n = n % 2 ^ 64

-- `GetIndex(num)` with `pool_size_`
unfoldable pub get_index : ℕ → ℕ → ℕ
get_index pool_size num = num - num / pool_size * pool_size

-- `head_`, `tail_`, `commit_` and `pool_`
pub record Shared (T : Type 0) : Type 0 where
  pub head : ℕ
  pub tail : ℕ
  pub commit : ℕ
  pub pool : ℕ → T

-- Where a thread stands, with its local variables.
pub data Pc (T : Type 0) : Type 0 where
  idle : Pc T
  enq_check : (element : T) (old_tail : ℕ) → Pc T  -- before the load of `head_`
  enq_cas : (element : T) (old_tail : ℕ) → Pc T  -- before the compare-exchange on `tail_`
  enq_store : (element : T) (old_tail : ℕ) → Pc T  -- before the assignment to the pool
  enq_commit : (element : T) (old_tail : ℕ) → Pc T  -- before the compare-exchange on `commit_`
  deq_check : (old_head : ℕ) → Pc T  -- before the load of `commit_`
  deq_load : (old_head : ℕ) → Pc T  -- before the copy from the pool
  deq_cas : (old_head : ℕ) (element : T) → Pc T  -- before the compare-exchange on `head_`

-- What a move shows to the outside: an element that took its place in the queue, one handed out, a
-- call that returned false.
pub data Event (T : Type 0) : Type 0 where
  quiet refused : Event T
  took : T → Event T
  gave : T → Event T

module _ {T : Type 0} (pool_size : ℕ) where
  -- One step of `Enqueue` or `Dequeue`. A weak compare-exchange may fail with the counter as
  -- expected, so a failure has no condition.
  pub data Move (m : Shared T) : Pc T → Shared T → Pc T → Event T → Type 0 where
    enq_begin : (x : T) → Move m idle m (enq_check x m.tail) quiet
    enq_full :
        {x : T} {t : ℕ}
        → get_index pool_size (u64 (t + 1)) ≡ get_index pool_size m.head
        → Move m (enq_check x t) m idle refused
    enq_room :
        {x : T} {t : ℕ}
        → get_index pool_size (u64 (t + 1)) ≢ get_index pool_size m.head
        → Move m (enq_check x t) m (enq_cas x t) quiet
    enq_win :
        {x : T} {t : ℕ}
        → m.tail ≡ t
        → Move m (enq_cas x t) (record m { tail = u64 (t + 1) }) (enq_store x t) (took x)
    enq_lose : {x : T} {t : ℕ} → Move m (enq_cas x t) m (enq_check x m.tail) quiet
    store :
        {x : T} {t : ℕ}
        → Move m
            (enq_store x t)
            (record m { pool = update m.pool (get_index pool_size t) x })
            (enq_commit x t)
            quiet
    commit_win :
        {x : T} {t : ℕ}
        → m.commit ≡ t
        → Move m (enq_commit x t) (record m { commit = u64 (t + 1) }) idle quiet
    commit_lose : {x : T} {t : ℕ} → Move m (enq_commit x t) m (enq_commit x t) quiet
    deq_begin : Move m idle m (deq_check m.head) quiet
    deq_empty : {h : ℕ} → u64 (h + 1) ≡ m.commit → Move m (deq_check h) m idle refused
    deq_some : {h : ℕ} → u64 (h + 1) ≢ m.commit → Move m (deq_check h) m (deq_load h) quiet
    load :
        {h : ℕ}
        → Move m (deq_load h) m (deq_cas h (m.pool (get_index pool_size (u64 (h + 1))))) quiet
    deq_win :
        {h : ℕ} {x : T}
        → m.head ≡ h
        → Move m (deq_cas h x) (record m { head = u64 (h + 1) }) idle (gave x)
    deq_lose : {h : ℕ} {x : T} → Move m (deq_cas h x) m (deq_check m.head) quiet

-- The elements in the order of the winning compare-exchanges on `tail_`, and those handed out in
-- the order of the winning ones on `head_`.
pub record System (T : Type 0) : Type 0 where
  pub mem : Shared T
  pub pc : ℕ → Pc T
  pub entered : List T
  pub left : List T

abbrev pub log_entered : {T : Type 0} → List T → Event T → List T
log_entered xs (took x) = xs ++ x ∷ []
log_entered xs _ = xs

abbrev pub log_left : {T : Type 0} → List T → Event T → List T
log_left xs (gave x) = xs ++ x ∷ []
log_left xs _ = xs

pub data Step {T : Type 0} (pool_size : ℕ) (s : System T) : System T → Type 0 where
  pick :
      (i : ℕ) {m : Shared T} {p : Pc T} {e : Event T}
      → Move pool_size s.mem (s.pc i) m p e
      → Step pool_size s (record {
        mem = m;
        pc = update s.pc i p;
        entered = log_entered s.entered e;
        left = log_left s.left e;
      })

-- `pool_size_` after `Init(size)`
abbrev pub pool_size_of : ℕ → ℕ
pool_size_of size = u64 (size + 2)

-- `Init(size)`: a pool of `pool_size_of size` cells, constructed by `T()`.
abbrev pub init : {T : Type 0} → (ℕ → T) → System T
init cells = record {
  mem = record { head = 0; tail = 1; commit = 1; pool = cells };
  pc = λ _. Pc.idle;
  entered = [];
  left = [];
}

-- What is reached in a number of steps.
pub data Reach {T : Type 0} (pool_size : ℕ) : ℕ → System T → Type 0 where
  start : (cells : ℕ → T) → Reach pool_size 0 (init cells)
  later :
      {k : ℕ} {s t : System T}
      → Reach pool_size k s
      → Step pool_size s t
      → Reach pool_size (suc k) t

-- `Size()` and `Empty()`, which read the two counters at one moment here.
unfoldable pub size : {T : Type 0} → Shared T → ℕ
size m = (m.tail + 2 ^ 64 - m.head + 2 ^ 64 - 1) % 2 ^ 64
