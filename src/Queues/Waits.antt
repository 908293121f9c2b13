-- ===== src/Queues/Waits.antt =====
-- The wait strategies of base/wait_strategy.h, and the waiting calls of a `BoundedQueue` (base/bounded_queue.h)
-- with one of them. A strategy's mutex and condition variable are objects of the system: of a wait on them
-- the model has whether it ended by its timeout.
use hnu_middleware.Base.{
  ℕ, ◌≡◌, ◌≢◌, refl, sym, ap, ◌∙◌, Bool, true, false, List, [], ◌∷◌, map, Option, none, some,
  if◌then◌else◌, Bool-cases, inl, inr, ◌⊎◌,
}
use hnu_middleware.Queues.Bounded.Waiting.{Turn, wait_call}

-- With the sleeping time in µs and the timeout in ms
pub data Strategy : Type 0 where
  block : Strategy
  sleep : ℕ → Strategy
  yield_now : Strategy
  busy_spin : Strategy
  timeout_block : ℕ → Strategy

abbrev pub default_sleep : Strategy
default_sleep = sleep 10000

-- `EmptyWait`, on whether the wait on the condition variable, where there is one with a timeout, ends by it
unfoldable pub empty_wait : Strategy → Bool → Bool
empty_wait block timed_out = true
empty_wait (sleep us) timed_out = true
empty_wait yield_now timed_out = true
empty_wait busy_spin timed_out = true
empty_wait (timeout_block ms) timed_out = if timed_out then false else true

unfoldable pub set_sleep_time_micro_seconds : ℕ → Strategy → Strategy
set_sleep_time_micro_seconds us (sleep old) = sleep us
set_sleep_time_micro_seconds us block = block
set_sleep_time_micro_seconds us yield_now = yield_now
set_sleep_time_micro_seconds us busy_spin = busy_spin
set_sleep_time_micro_seconds us (timeout_block ms) = timeout_block ms

unfoldable pub set_timeout : ℕ → Strategy → Strategy
set_timeout ms (timeout_block old) = timeout_block ms
set_timeout ms block = block
set_timeout ms (sleep us) = sleep us
set_timeout ms yield_now = yield_now
set_timeout ms busy_spin = busy_spin

stopped :
    (s : Strategy) (timed_out : Bool)
    → empty_wait s timed_out ≡ false
    → (timed_out ≡ true) × ((ms : ℕ) × (s ≡ timeout_block ms))
unfolding empty_wait
stopped (timeout_block ms) true e = (refl, (ms, refl))
stopped (timeout_block ms) false e = absurd (cc)
stopped block timed_out e = absurd (cc)
stopped (sleep us) timed_out e = absurd (cc)
stopped yield_now timed_out e = absurd (cc)
stopped busy_spin timed_out e = absurd (cc)

-- What a turn of the loop meets: `break_all_wait_`, the result of the attempt, and whether a wait with a
-- timeout ends by it
pub record Round (R : Type 0) : Type 0 where
  pub break_all_wait : Bool
  pub attempt : Option R
  pub timed_out : Bool

module _ {R : Type 0} where
  unfoldable pub turn_of : Strategy → Round R → Turn R
  turn_of s r = record {
    break_all_wait = r.break_all_wait;
    attempt = r.attempt;
    empty_wait = empty_wait s r.timed_out;
  }

  -- `WaitEnqueue` or `WaitDequeue` with a strategy: `none` is a loop that is not over yet, and `some none` is
  -- false.
  unfoldable pub wait_with : Strategy → List (Round R) → Option (Option R)
  wait_with s rounds = wait_call (map (turn_of s) rounds)

  -- Why a waiting call can give up in a turn
  abbrev pub GivesUp : Strategy → Round R → Type 0
  GivesUp s r =
      (r.break_all_wait ≡ true)
      ⊎ ((r.attempt ≡ none) × (r.timed_out ≡ true) × ((ms : ℕ) × (s ≡ timeout_block ms)))

  -- One of the rounds of a list
  pub data Among (r : Round R) : List (Round R) → Type 0 where
    here : (rs : List (Round R)) → Among r (r ∷ rs)
    later : (u : Round R) (rs : List (Round R)) → Among r rs → Among r (u ∷ rs)

  -- One round of the loop that gives false, or goes on.
  round_lem :
      (s : Strategy) (stop : Bool) (attempt : Option R) (timed_out : Bool) (rs : List (Round R))
      → wait_with s
          (record { break_all_wait = stop; attempt = attempt; timed_out = timed_out } ∷ rs)
        ≡ some none
      → GivesUp s (record { break_all_wait = stop; attempt = attempt; timed_out = timed_out })
        ⊎ (wait_with s rs ≡ some none)
  unfolding wait_with wait_call turn_of
  round_lem s true attempt timed_out rs e = inl (inl refl)
  round_lem s false (some r) timed_out rs e = absurd (cc)
  round_lem s false none timed_out rs e = elim (Bool-cases (empty_wait s timed_out)) [
    | inl again ↦
        inr (sym (ap (λ b. if b then wait_call (map (turn_of s) rs) else some none) again) ∙ e)
    | inr gave_up ↦ let (ended, kind) = stopped s timed_out gave_up in inl (inr (refl, ended, kind))
  ]

  over_nothing : (s : Strategy) → wait_with s [] ≢ some none
  unfolding wait_with wait_call
  over_nothing s e = cc

  -- If a waiting call gives false, then in one of its turns `break_all_wait_` was set, or the attempt failed, the
  -- strategy is the one with a timeout, and the wait ended by it: with any other strategy a
  -- call goes on until it succeeds or `BreakAllWait` is called.
  pub wait_with-GivesUp :
      (s : Strategy) (rounds : List (Round R))
      → wait_with s rounds ≡ some none
      → (r : Round R) × Among r rounds × GivesUp s r
  wait_with-GivesUp s [] e = absurd (over_nothing s e)
  wait_with-GivesUp s (r ∷ rs) e = elim (round_lem s r.break_all_wait r.attempt r.timed_out rs e) [
    | inl now ↦ (r, here rs, now)
    | inr then_on ↦ let (u, at, why) = wait_with-GivesUp s rs then_on in (u, later r rs at, why)
  ]
