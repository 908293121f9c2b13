-- ===== src/Queues/Bounded/Safety.antt =====
-- What holds of a bounded queue in every run of fewer than 2 ^ 64 - 2 steps.
use hnu_middleware.Base.{
  ℕ, ◌+◌, ◌^◌, ◌≤◌, ◌<◌, ◌≡◌, refl, sym, ap, subst, ◌∙◌, length, take, length-take, arith,
}
use hnu_middleware.Queues.Bounded.{
  pool_size_of, Shared, Pc, Event, Move, System, pick, init, Reach, start, later, size, enq_begin,
  enq_win,
}
use hnu_middleware.Queues.Bounded.Defs.{Inv}
use hnu_middleware.Queues.Bounded.Moves.{Move-Inv}

abbrev pub Holds : {T : Type 0} → ℕ → System T → Type 0
Holds n s = Inv n s.entered s.left s.mem s.pc

init-Holds : {T : Type 0} (n : ℕ) (cells : ℕ → T) → 2 ≤ n → Holds n (init cells)
init-Holds n cells h = record {
  cells = h;
  behind = omega arith;
  published = omega arith;
  room = omega arith;
  logged = refl;
  fifo = refl;
  stored = λ t lo hi. absurd (omega arith);
  locals = λ i. tt;
  unique = λ i j t a b. cc;
}

tail-Move :
    {T : Type 0} {n : ℕ} {m m' : Shared T} {p p' : Pc T} {e : Event T}
    → Move n m p m' p' e
    → m'.tail ≤ m.tail + 1
tail-Move (enq_win g) = omega arith
tail-Move (enq_begin x) = omega arith
tail-Move _ = omega arith

-- Each step takes at most one place, so the counters stay below the number of steps.
pub Reach-Holds :
    {T : Type 0} {n k : ℕ} {s : System T}
    → 2 ≤ n
    → k + 2 < 2 ^ 64
    → Reach n k s
    → Holds n s × (s.mem.tail ≤ k + 1)
Reach-Holds h b (start cells) = (init-Holds _ cells h, omega arith)
Reach-Holds {n = n} h b (later r (pick i mv)) =
    let (inv, t) = Reach-Holds {n = n} h (omega arith) r in
    (Move-Inv inv (omega arith) i mv, omega (arith, tail-Move mv))

pub left-length :
    {T : Type 0} {n : ℕ} {s : System T}
    → Holds n s
    → (length s.left ≡ s.mem.head) × (length s.entered + 1 ≡ s.mem.tail)
left-length {s = s} inv = (
  omega (
    arith,
    ap length inv.fifo,
    length-take s.mem.head s.entered,
    inv.behind,
    inv.published,
    inv.logged,
  ),
  inv.logged,
)

-- In a queue made by `Init(capacity)`, where `capacity + 2` is below 2^64, after any run of any number of
-- threads of fewer than 2^64 - 2 steps: the elements handed out are, in order, the first of those that were enqueued,
-- each as often as it was enqueued; at most `capacity` more than those have been enqueued; and
-- `Size()` is the number of elements that were enqueued and not handed out.
pub Reach-fifo :
    {T : Type 0} (capacity k : ℕ) {s : System T}
    → capacity + 2 < 2 ^ 64
    → k + 2 < 2 ^ 64
    → Reach (pool_size_of capacity) k s
    → (s.left ≡ take (length s.left) s.entered)
      × (length s.entered ≤ length s.left + capacity)
      × (size s.mem + length s.left ≡ length s.entered)
unfolding size
Reach-fifo capacity k {s} small b r =
    let whole : pool_size_of capacity ≡ capacity + 2 = omega arith in
    let (inv, t) =
      Reach-Holds {n = capacity + 2} {s = s} (omega arith) b (subst (λ n. Reach n k s) whole r) in
    let (l, e) = left-length inv in
    let open_room : s.mem.tail < s.mem.head + (capacity + 2) = inv.room in
    let order : s.mem.head < s.mem.tail = omega (arith, inv.behind, inv.published) in
    (inv.fifo ∙ ap (λ h. take h s.entered) (sym l), omega arith, omega arith)
