-- ===== src/Locks/Atomic/Safety.antt =====
-- What holds of an `AtomicRWLock` in every state that its threads reach.
use hnu_middleware.Base.{
  ℕ, zero, suc, ◌+◌, ◌≤◌, ◌<◌, ◌≡◌, ◌≢◌, inl, inr, refl, sym, subst, Bool, true, update,
  update_self, update-other, ℕ_discrete, dec_lt, arith,
}
use hnu_middleware.Locks.Counting.{
  nothing, writer, Change, stay, take_read, take_write, drop_read, drop_write, int_limit, shared,
  total, total-update, weight≤total, total≤, readers, writers, Counted, Counted-update,
  Counted-alone,
}
use hnu_middleware.Locks.Atomic.{
  Pc, idle, reading, writing, read_wait, read_load, read_cas, write_cas, write_leave, Shared,
  NeedWait, Move, read_begin, read_waits, read_ready, read_loaded, read_win, read_lose, write_begin,
  write_win, write_lose, write_left, read_unlock, write_unlock, System, init, Step, step, Reach,
  start, next, hold, waits,
}

-- What a thread's local variable keeps to.
abbrev Local : Pc → Type 0
Local idle = Unit {0}
Local reading = Unit {0}
Local writing = Unit {0}
Local (read_wait e) = Unit {0}
Local read_load = Unit {0}
Local (read_cas e) = e < int_limit
Local write_cas = Unit {0}
Local write_leave = Unit {0}

-- A change of the count of waiting writers with the threads that are in it.
abbrev Waited : Shared → Pc → Shared → Pc → Type 0
Waited m p m' p' =
    (k : ℕ)
    → waits p ≤ k
    → k < int_limit
    → m.write_lock_wait_num ≡ k
    → m'.write_lock_wait_num + waits p ≡ k + waits p'

module _ (write_first : Bool) where
  Move-Change :
      (m m' : Shared) (p p' : Pc)
      → Local p
      → Move write_first m p m' p'
      → Change m.lock_num (hold p) m'.lock_num (hold p')
  unfolding hold
  Move-Change m m' p p' l read_begin = stay
  Move-Change m m' p p' l (read_waits h) = stay
  Move-Change m m' p p' l (read_ready h) = stay
  Move-Change m m' p p' l read_loaded = stay
  Move-Change m m' p p' l (read_win e) = take_read (omega arith)
  Move-Change m m' p p' l read_lose = stay
  Move-Change m m' p p' l write_begin = stay
  Move-Change m m' p p' l (write_win e) = take_write e
  Move-Change m m' p p' l write_lose = stay
  Move-Change m m' p p' l write_left = stay
  Move-Change m m' p p' l read_unlock = drop_read
  Move-Change m m' p p' l write_unlock = drop_write

  Move-Local : (m m' : Shared) (p p' : Pc) → Local p → Move write_first m p m' p' → Local p'
  Move-Local m m' p p' l read_begin = tt
  Move-Local m m' p p' l (read_waits h) = tt
  Move-Local m m' p p' l (read_ready {e} h) = elim (dec_lt e int_limit) [
    | yes below ↦ below
    | no above ↦ absurd (h (inl (omega arith)))
  ]
  Move-Local m m' p p' l read_loaded = tt
  Move-Local m m' p p' l (read_win e) = tt
  Move-Local m m' p p' l read_lose = tt
  Move-Local m m' p p' l write_begin = tt
  Move-Local m m' p p' l (write_win e) = tt
  Move-Local m m' p p' l write_lose = tt
  Move-Local m m' p p' l write_left = tt
  Move-Local m m' p p' l read_unlock = tt
  Move-Local m m' p p' l write_unlock = tt

  Move-Waited : (m m' : Shared) (p p' : Pc) → Move write_first m p m' p' → Waited m p m' p'
  unfolding waits
  Move-Waited m m' p p' read_begin k w b e = omega arith
  Move-Waited m m' p p' (read_waits h) k w b e = omega arith
  Move-Waited m m' p p' (read_ready h) k w b e = omega arith
  Move-Waited m m' p p' read_loaded k w b e = omega arith
  Move-Waited m m' p p' (read_win h) k w b e = omega arith
  Move-Waited m m' p p' read_lose k w b e = omega arith
  Move-Waited m m' p p' write_begin k w b e = omega arith
  Move-Waited m m' p p' (write_win h) k w b e = omega arith
  Move-Waited m m' p p' write_lose k w b e = omega arith
  Move-Waited m m' p p' write_left k w b e = omega arith
  Move-Waited m m' p p' read_unlock k w b e = omega arith
  Move-Waited m m' p p' write_unlock k w b e = omega arith

  module _ (n : ℕ) (few : n < int_limit) where
    abbrev waiting : (ℕ → Pc) → ℕ
    waiting pc = total waits pc n

    record Inv (s : System) : Type 0 where
      counted : Counted hold n s.shared.lock_num s.pc
      waited : s.shared.write_lock_wait_num ≡ waiting s.pc
      each : (i : ℕ) → Local (s.pc i)

    idle-total : (w : Pc → ℕ) → w idle ≡ 0 → (m : ℕ) → total w (λ i. idle) m ≡ 0
    idle-total w h zero = refl
    idle-total w h (suc m) = omega (arith, h, idle-total w h m)

    init-Inv : Inv init
    unfolding hold waits
    init-Inv = record {
      counted =
          shared (sym (idle-total (λ p. readers (hold p)) refl n))
            (idle-total (λ p. writers (hold p)) refl n);
      waited = sym (idle-total waits refl n);
      each = λ i. tt;
    }

    waits≤1 : (p : Pc) → waits p ≤ 1
    unfolding waits
    waits≤1 idle = omega arith
    waits≤1 reading = omega arith
    waits≤1 writing = omega arith
    waits≤1 (read_wait e) = omega arith
    waits≤1 read_load = omega arith
    waits≤1 (read_cas e) = omega arith
    waits≤1 write_cas = omega arith
    waits≤1 write_leave = omega arith

    Step-Inv : (s s' : System) → Step write_first n s s' → Inv s → Inv s'
    Step-Inv s s' (step i m p lt move) h = record {
      counted =
          Counted-update hold n s.shared.lock_num m.lock_num s.pc i p few lt
            (Move-Change s.shared m (s.pc i) p (h.each i) move) h.counted;
      waited = omega (
        arith,
        Move-Waited s.shared m (s.pc i) p move (waiting s.pc) (weight≤total waits s.pc n i lt)
            (omega (arith, total≤ waits s.pc n waits≤1)) h.waited,
        total-update waits s.pc n i p lt,
      );
      each = λ j. elim (ℕ_discrete i j) [
        | yes same ↦
            subst (λ k. Local (update s.pc i p k)) same
              (subst Local (sym (update_self s.pc i p))
                (Move-Local s.shared m (s.pc i) p (h.each i) move))
        | no ne ↦ subst Local (sym (update-other s.pc i j p ne)) (h.each j)
      ];
    }

    Reach-Inv : (s : System) → Reach write_first n s → Inv s
    Reach-Inv s start = init-Inv
    Reach-Inv s' (next {s} r t) = Step-Inv s s' t (Reach-Inv s r)

    -- In every state that fewer than 2^31 threads reach, while one thread has the lock as a writer,
    -- no other one has it as a writer or a reader.
    pub Reach-exclusive_rw_lock :
        (s : System) (i j : ℕ)
        → Reach write_first n s
        → i < n
        → j < n
        → i ≢ j
        → hold (s.pc i) ≡ writer
        → hold (s.pc j) ≡ nothing
    Reach-exclusive_rw_lock s i j r lt_i lt_j ne wrote =
        Counted-alone hold n s.shared.lock_num s.pc i j (Reach-Inv s r).counted lt_i lt_j ne wrote

    -- In every state that fewer than 2^31 threads reach, the count of waiting writers is the number of
    -- threads in `WriteLock`, from its `fetch_add` to its `fetch_sub`.
    pub Reach-waiting :
        (s : System) → Reach write_first n s → s.shared.write_lock_wait_num ≡ total waits s.pc n
    Reach-waiting s r = (Reach-Inv s r).waited

    -- With `write_first`, a thread whose `need_wait()` is false in a state that fewer than 2^31 threads
    -- reach finds no thread of them in `WriteLock` there.
    pub ready-no_writer :
        (s : System) (e j : ℕ)
        → write_first ≡ true
        → Reach write_first n s
        → j < n
        → ¬ (NeedWait write_first e s.shared.write_lock_wait_num)
        → waits (s.pc j) ≡ 0
    ready-no_writer s e j first r lt ready = elim (dec_lt 0 s.shared.write_lock_wait_num) [
      | yes some_wait ↦ absurd (ready (inr (first, some_wait)))
      | no none_wait ↦ omega (arith, Reach-waiting s r, weight≤total waits s.pc n j lt)
    ]
