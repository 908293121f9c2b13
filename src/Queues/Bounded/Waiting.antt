-- ===== src/Queues/Bounded/Waiting.antt =====
-- `WaitEnqueue` and `WaitDequeue` of base/bounded_queue.h: a call repeated while a wait strategy
-- (base/wait_strategy.h) says so.
use hnu_middleware.Base.{
  ℕ, zero, suc, ◌≡◌, refl, Bool, true, false, List, [], ◌∷◌, Option, none, some, get_elem?,
  if◌then◌else◌, ap, ◌∙◌, arith,
}
use mathlib.Core.Option.{some-injective}

-- What one turn of the loop meets: `break_all_wait_`, the result of `Enqueue` or `Dequeue` if it
-- succeeds, and what `EmptyWait` returns.
pub record Turn (R : Type 0) : Type 0 where
  pub break_all_wait : Bool
  pub attempt : Option R
  pub empty_wait : Bool

module _ {R : Type 0} where
  -- `none` is a loop that is not over yet; `some none` is false.
  unfoldable pub wait_call : List (Turn R) → Option (Option R)
  wait_call [] = none
  wait_call (t ∷ ts) =
      let later = wait_call ts in
      let waited = if t.empty_wait then later else some none in
      let turn : Option (Option R) = elim t.attempt [ none ↦ waited | some r ↦ some (some r) ] in
      if t.break_all_wait then some none else turn

  over :
      (u : Turn R) (ts : List (Turn R)) → u.break_all_wait ≡ true → wait_call (u ∷ ts) ≡ some none
  unfolding wait_call
  over u ts e = ground (arith, e)

  -- One more turn, whatever it meets.
  turn_ends :
      (stop : Bool) (attempt : Option R) (again : Bool) (ts : List (Turn R))
      → ((r : Option R) × (wait_call ts ≡ some r))
      → (r : Option R) × (wait_call
            (record { break_all_wait = stop; attempt = attempt; empty_wait = again } ∷ ts)
          ≡ some r)
  unfolding wait_call
  turn_ends true attempt again ts later = (none, refl)
  turn_ends false (some r) again ts later = (some r, refl)
  turn_ends false none false ts later = (none, refl)
  turn_ends false none true ts later = later

  -- A waiting call is over, with the attempt's result or with false, once `break_all_wait_` is set,
  -- whatever the turns before met.
  pub wait_call-ends :
      (ts : List (Turn R)) (k : ℕ) (t : Turn R)
      → get_elem? ts k ≡ some t
      → t.break_all_wait ≡ true
      → (r : Option R) × (wait_call ts ≡ some r)
  wait_call-ends [] k t h set = cc
  wait_call-ends (u ∷ ts) zero t h set =
      (none, over u ts (ap (λ v. v.break_all_wait) (some-injective u t h) ∙ set))
  wait_call-ends (u ∷ ts) (suc k) t h set =
      turn_ends u.break_all_wait u.attempt u.empty_wait ts (wait_call-ends ts k t h set)
