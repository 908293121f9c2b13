-- ===== src/Queues/Bounded/Moves.antt =====
-- Every step keeps the invariant of the bounded queue, field by field.
use hnu_middleware.Base.{
  ℕ, suc, ◌+◌, ◌-◌, ◌^◌, ◌≤◌, ◌<◌, ◌≡◌, ◌≢◌, refl, sym, ap, ◌∙◌, List, [], ◌∷◌, ◌++◌, get_elem?,
  get_elem?-append, get_elem?-append_left, take-append_left, take-next, length, length-append, take,
  some, update, ℕ_discrete, dec_lt, subst, arith,
}
use mathlib.Core.Logic.{if_pos, if_neg}
use hnu_middleware.Queues.Bounded.{
  Shared, Pc, idle, enq_store, enq_commit, Event, log_entered, log_left, get_index, u64, Move,
  enq_begin, enq_full, enq_room, enq_win, enq_lose, store, commit_win, commit_lose, deq_begin,
  deq_empty, deq_some, load, deq_win, deq_lose,
}
use hnu_middleware.Queues.Bounded.Index.{get_index-injective, get_index-turn}
use hnu_middleware.Queues.Bounded.Defs.{place, Local, Inv}
use hnu_middleware.Queues.Bounded.Frames.{Local-tail, Local-head, Local-commit, Local-store}

module _ {T : Type 0} {n : ℕ} {log left : List T} {m : Shared T} {pc : ℕ → Pc T}
    (inv : Inv n log left m pc) (small : m.tail + 1 < 2 ^ 64) where
  open inv use {cells, behind, published, room, logged, fifo, stored, locals, unique}

  record Counters (m' : Shared T) (e : Event T) : Type 0 where
    behind : m'.head < m'.commit
    published : m'.commit ≤ m'.tail
    room : m'.tail < m'.head + n
    logged : length (log_entered log e) + 1 ≡ m'.tail

  Move-Counters :
      {p p' : Pc T} {m' : Shared T} {e : Event T}
      → Move n m p m' p' e
      → Local n log m p
      → Counters m' e
  Move-Counters (enq_win {x} {t} g) l = ground (arith, length-append log (x ∷ []), l.1 g)
  Move-Counters (commit_win g) l = ground arith
  Move-Counters (deq_win g) l = ground (arith, (l.1 g).0)
  Move-Counters (enq_begin x) l = ground arith
  Move-Counters _ l = ground arith

  Move-fifo :
      {p p' : Pc T} {m' : Shared T} {e : Event T}
      → Move n m p m' p' e
      → Local n log m p
      → log_left left e ≡ take m'.head (log_entered log e)
  Move-fifo (enq_win {x} {t} g) l = fifo ∙ sym (take-append_left m.head log (x ∷ []) (omega arith))
  Move-fifo (deq_win {h} {x} g) l =
      let next : u64 (h + 1) ≡ suc m.head = omega arith in
      let last : get_elem? log m.head ≡ some x =
        subst (λ k. get_elem? log k ≡ some x) (sym g) (l.1 g).1 in
      ap (λ xs. xs ++ x ∷ []) fifo
      ∙ sym (take-next m.head log last)
      ∙ ap (λ k. take k log) (sym next)
  Move-fifo (enq_begin x) l = fifo
  Move-fifo _ l = fifo

  abbrev Stored : Shared T → Event T → Type 0
  Stored m' e =
      (t : ℕ)
      → m'.head < t
      → t < m'.commit
      → get_elem? (log_entered log e) (t - 1) ≡ some (m'.pool (get_index n t))

  Move-Stored :
      {p p' : Pc T} {m' : Shared T} {e : Event T}
      → Move n m p m' p' e
      → Local n log m p
      → Stored m' e
  Move-Stored (enq_win {x} {t} g) l u lo hi =
      get_elem?-append_left log (x ∷ []) (u - 1) (stored u lo hi)
  Move-Stored (store {x} {t}) l u lo hi = ground (arith, stored u, get_index-injective n m.head t u)
  Move-Stored (commit_win {x} {t} g) l u lo hi = ground (arith, stored u)
  Move-Stored (deq_win {h} g) l u lo hi = stored u (omega arith) hi
  Move-Stored (enq_begin x) l u lo hi = stored u lo hi
  Move-Stored _ l u lo hi = stored u lo hi

  -- Where the new tail goes to another cell than the head, the pool has room for one more.
  not_full :
      (x : T) (t : ℕ)
      → get_index n (u64 (t + 1)) ≢ get_index n m.head
      → m.tail ≡ t
      → t + 1 < m.head + n
  not_full x t g e = elim (dec_lt (t + 1) (m.head + n)) [
    | yes lt ↦ lt
    | no ge ↦
        let turn : u64 (t + 1) ≡ m.head + n = omega arith in
        absurd (g (ap (get_index n) turn ∙ get_index-turn n m.head (omega arith)))
  ]

  -- The thread that moves.
  Move-own :
      {p p' : Pc T} {m' : Shared T} {e : Event T}
      → Move n m p m' p' e
      → Local n log m p
      → Local n (log_entered log e) m' p'
  Move-own (enq_begin x) l = omega arith
  Move-own (enq_full g) l = tt
  Move-own (enq_room {x} {t} g) l = (l, λ e. not_full x t g e)
  Move-own (enq_win {x} {t} g) l = (
    omega arith,
    omega arith,
    subst (λ k. get_elem? (log ++ x ∷ []) k ≡ some x) (omega arith) (get_elem?-append log x []),
  )
  Move-own enq_lose l = omega arith
  Move-own (store {x} {t}) l = (l.0, l.1, l.2, ground arith)
  Move-own (commit_win g) l = tt
  Move-own commit_lose l = l
  Move-own deq_begin l = omega arith
  Move-own (deq_empty g) l = tt
  Move-own (deq_some {h} g) l = (l, λ e. omega arith)
  Move-own (load {h}) l = (l.0, λ e. (l.1 e, ground (arith, stored (h + 1))))
  Move-own (deq_win g) l = tt
  Move-own deq_lose l = omega arith

  -- A thread that does not move.
  Move-other :
      (i j : ℕ) {p p' : Pc T} {m' : Shared T} {e : Event T}
      → Move n m p m' p' e
      → pc i ≡ p
      → i ≢ j
      → Local n log m p
      → Local n (log_entered log e) m' (pc j)
  Move-other i j (enq_win {x} {t} g) at ne l =
      Local-tail n log m (x ∷ []) (u64 (t + 1)) (pc j) (omega arith) (locals j)
  Move-other i j (store {x} {t}) at ne l =
      Local-store n log m t x (pc j) behind room l.0 l.1
        (λ held. ne (unique i j t (rw at refl) held)) (locals j)
  Move-other i j (commit_win {x} {t} g) at ne l =
      let next : u64 (t + 1) ≡ m.commit + 1 = omega arith in
      let mine : place (pc i) ≡ some m.commit = rw (at, g) in
      subst (λ c. Local n log (record m { commit = c }) (pc j)) (sym next)
        (Local-commit n log m (pc j) (λ held. ne (unique i j m.commit mine held)) (locals j))
  Move-other i j (deq_win {h} {x} g) at ne l =
      Local-head n log m (u64 (h + 1)) (pc j) (omega (arith, l.1 g)) (locals j)
  Move-other i j (enq_begin x) at ne l = locals j
  Move-other i j _ at ne l = locals j

  place-lt : (u : ℕ) (q : Pc T) → Local n log m q → place q ≡ some u → u < m.tail
  place-lt u idle l e = cc
  place-lt u (enq_store x t) l e = ground arith
  place-lt u (enq_commit x t) l e = ground arith
  place-lt u _ l e = cc

  Move-unique :
      (i : ℕ) {p p' : Pc T} {m' : Shared T} {e : Event T}
      → Move n m p m' p' e
      → pc i ≡ p
      → Local n log m p
      → (a b t : ℕ) → place (update pc i p' a) ≡ some t
      → place (update pc i p' b) ≡ some t
      → a ≡ b
  Move-unique i (enq_win {x} {t} g) at l a b u ha hb =
      ground (arith, unique a b u, place-lt u (pc a) (locals a), place-lt u (pc b) (locals b))
  Move-unique i (enq_begin x) at l a b t ha hb = ground (arith, unique a b t)
  Move-unique i _ at l a b t ha hb = ground (arith, unique a b t)

  pub Move-Inv :
      (i : ℕ) {p' : Pc T} {m' : Shared T} {e : Event T}
      → Move n m (pc i) m' p' e
      → Inv n (log_entered log e) (log_left left e) m' (update pc i p')
  Move-Inv i {p'} {m'} {e} mv = record {
    cells = cells;
    behind = c.behind;
    published = c.published;
    room = c.room;
    logged = c.logged;
    fifo = Move-fifo mv (locals i);
    stored = Move-Stored mv (locals i);
    locals = each;
    unique = Move-unique i mv refl (locals i);
  }
    where
      c : Counters m' e
      c = Move-Counters mv (locals i)

      each : (j : ℕ) → Local n (log_entered log e) m' (update pc i p' j)
      each j = elim (ℕ_discrete i j) [
        | yes same ↦ rw (if_pos (ℕ_discrete i j) same) (Move-own mv (locals i))
        | no other ↦ rw (if_neg (ℕ_discrete i j) other) (Move-other i j mv refl other (locals i))
      ]
