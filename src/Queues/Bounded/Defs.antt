-- ===== src/Queues/Bounded/Defs.antt =====
-- What holds of the counters, the pool and every thread of a bounded queue.
use hnu_middleware.Base.{
  ℕ, ◌+◌, ◌-◌, ◌≤◌, ◌<◌, ◌≡◌, List, get_elem?, length, take, Option, none, some,
}
use hnu_middleware.Queues.Bounded.{
  Shared, Pc, idle, enq_check, enq_cas, enq_store, enq_commit, deq_check, deq_load, deq_cas,
  get_index,
}

-- The place in the queue that a thread has taken and not yet published.
abbrev pub place : {T : Type 0} → Pc T → Option ℕ
place (enq_store x t) = some t
place (enq_commit x t) = some t
place _ = none

module _ {T : Type 0} (n : ℕ) (log : List T) where
  -- What a thread's locals say about the shared counters and the pool. The element of place `t` is
  -- `log[t - 1]`.
  abbrev pub Local : Shared T → Pc T → Type 0
  Local m idle = Unit
  Local m (enq_check x t) = t ≤ m.tail
  Local m (enq_cas x t) = (t ≤ m.tail) × (m.tail ≡ t → t + 1 < m.head + n)
  Local m (enq_store x t) = (m.commit ≤ t) × (t < m.tail) × (get_elem? log (t - 1) ≡ some x)
  Local m (enq_commit x t) =
      (m.commit ≤ t)
      × (t < m.tail)
      × (get_elem? log (t - 1) ≡ some x)
      × (m.pool (get_index n t) ≡ x)
  Local m (deq_check h) = h ≤ m.head
  Local m (deq_load h) = (h ≤ m.head) × (m.head ≡ h → h + 1 < m.commit)
  Local m (deq_cas h x) =
      (h ≤ m.head) × (m.head ≡ h → (h + 1 < m.commit) × (get_elem? log h ≡ some x))

  pub record Inv (left : List T) (m : Shared T) (pc : ℕ → Pc T) : Type 0 where
    pub cells : 2 ≤ n
    pub behind : m.head < m.commit
    pub published : m.commit ≤ m.tail
    pub room : m.tail < m.head + n
    pub logged : length log + 1 ≡ m.tail
    pub fifo : left ≡ take m.head log
    pub stored :
        (t : ℕ) → m.head < t → t < m.commit → get_elem? log (t - 1) ≡ some (m.pool (get_index n t))
    pub locals : (i : ℕ) → Local m (pc i)
    pub unique : (i j t : ℕ) → place (pc i) ≡ some t → place (pc j) ≡ some t → i ≡ j
