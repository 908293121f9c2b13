-- ===== src/Queues/Bounded/Frames.antt =====
-- What a change of one counter, or of one cell, leaves true of the threads that did not make it.
use hnu_middleware.Base.{
  ℕ, ◌+◌, ◌-◌, ◌≤◌, ◌<◌, ◌≢◌, List, ◌++◌, get_elem?-append_left, some, update, arith,
}
use hnu_middleware.Queues.Bounded.{
  Shared, Pc, idle, enq_check, enq_cas, enq_store, enq_commit, deq_check, deq_load, deq_cas,
  get_index,
}
use hnu_middleware.Queues.Bounded.Index.{get_index-injective}
use hnu_middleware.Queues.Bounded.Defs.{place, Local}

module _ {T : Type 0} (n : ℕ) (log : List T) (m : Shared T) where
  pub Local-tail :
      (ys : List T) (t : ℕ) (q : Pc T)
      → m.tail < t
      → Local n log m q
      → Local n (log ++ ys) (record m { tail = t }) q
  Local-tail ys t idle h l = tt
  Local-tail ys t (enq_check x u) h l = omega arith
  Local-tail ys t (enq_cas x u) h l = (omega arith, λ e. absurd (omega arith))
  Local-tail ys t (enq_store x u) h l = (l.0, omega arith, get_elem?-append_left log ys (u - 1) l.2)
  Local-tail ys t (enq_commit x u) h l =
      (l.0, omega arith, get_elem?-append_left log ys (u - 1) l.2, l.3)
  Local-tail ys t (deq_check u) h l = l
  Local-tail ys t (deq_load u) h l = l
  Local-tail ys t (deq_cas u x) h l =
      (l.0, λ e. ((l.1 e).0, get_elem?-append_left log ys u (l.1 e).1))

  pub Local-head :
      (h' : ℕ) (q : Pc T) → m.head < h' → Local n log m q → Local n log (record m { head = h' }) q
  Local-head h' idle h l = tt
  Local-head h' (enq_check x u) h l = l
  Local-head h' (enq_cas x u) h l = (l.0, λ e. omega (arith, l.1 e))
  Local-head h' (enq_store x u) h l = l
  Local-head h' (enq_commit x u) h l = l
  Local-head h' (deq_check u) h l = omega arith
  Local-head h' (deq_load u) h l = (omega arith, λ e. absurd (omega arith))
  Local-head h' (deq_cas u x) h l = (omega arith, λ e. absurd (omega arith))

  -- The place that is published is held by another thread.
  pub Local-commit :
      (q : Pc T)
      → place q ≢ some m.commit
      → Local n log m q
      → Local n log (record m { commit = m.commit + 1 }) q
  Local-commit idle ne l = tt
  Local-commit (enq_check x u) ne l = l
  Local-commit (enq_cas x u) ne l = l
  Local-commit (enq_store x u) ne l = (ground arith, l.1, l.2)
  Local-commit (enq_commit x u) ne l = (ground arith, l.1, l.2, l.3)
  Local-commit (deq_check u) ne l = l
  Local-commit (deq_load u) ne l = (l.0, λ e. omega (arith, l.1 e))
  Local-commit (deq_cas u x) ne l = (l.0, λ e. (omega (arith, (l.1 e).0), (l.1 e).1))

  -- The cell that is written belongs to a place that another thread does not hold.
  pub Local-store :
      (t : ℕ) (y : T) (q : Pc T)
      → m.head < m.commit
      → m.tail < m.head + n
      → m.commit ≤ t
      → t < m.tail
      → place q ≢ some t
      → Local n log m q
      → Local n log (record m { pool = update m.pool (get_index n t) y }) q
  Local-store t y idle b r lo hi ne l = tt
  Local-store t y (enq_check x u) b r lo hi ne l = l
  Local-store t y (enq_cas x u) b r lo hi ne l = l
  Local-store t y (enq_store x u) b r lo hi ne l = l
  Local-store t y (enq_commit x u) b r lo hi ne l =
      (l.0, l.1, l.2, ground (arith, get_index-injective n m.head t u))
  Local-store t y (deq_check u) b r lo hi ne l = l
  Local-store t y (deq_load u) b r lo hi ne l = l
  Local-store t y (deq_cas u x) b r lo hi ne l = l
