-- ===== src/Serialize/Stream/Reserve.antt =====
-- The doubling loop of `DataStream::reserve`.
use hnu_middleware.Base.{
  ℕ, zero, suc, ◌+◌, ◌*◌, ◌%◌, ◌^◌, ◌≤◌, ◌<◌, ◌≡◌, refl, ◌⊎◌, ◌∙◌, Option, some, length, dec_lt,
  arith, inl, inr,
}
use native.Mathlib.Nat.{pow-succ', mul_assoc}
use hnu_middleware.Serialize.Stream.{Stream, int_limit, grow, grow_fuel, reserve_buf, reserve}

-- Up to this many bytes no `int` of the loop overflows.
abbrev pub room : ℕ
room = 2 ^ 30

grow-enough : (fuel need held : ℕ) → need ≤ held → grow (suc fuel) need held ≡ some held
unfolding grow
grow-enough fuel need held h = ground arith

grow-double :
    (fuel need held : ℕ)
    → held < need
    → 0 < held
    → held * 2 < int_limit
    → grow (suc fuel) need held ≡ grow fuel need (held * 2)
unfolding grow
grow-double fuel need held h p q = ground arith

grow-first : (fuel need : ℕ) → 0 < need → grow (suc fuel) need 0 ≡ grow fuel need 1
unfolding grow
grow-first fuel need h = ground arith

-- The loop ends with a capacity that is enough, and below twice the need if it is a new one.
abbrev Grown : ℕ → ℕ → Option ℕ → Type 0
Grown need held r = (c : ℕ) × (r ≡ some c) × (need ≤ c) × ((c ≡ held) ⊎ (c < 2 * need))

grow_from :
    (fuel need held : ℕ)
    → need ≤ room
    → need ≤ held * 2 ^ fuel
    → 0 < held
    → held < 2 * need
    → (c : ℕ) × (grow (suc fuel) need held ≡ some c) × (need ≤ c) × (c < 2 * need)
grow_from zero need held r h p q = (held, grow-enough 0 need held (omega arith), omega arith, q)
grow_from (suc fuel) need held r h p q = elim (dec_lt held need) [
  | yes small ↦
      let (c, e, lo, hi) =
        grow_from fuel need (held * 2) r (rw (pow-succ', ← mul_assoc) at h) (omega arith)
          (omega arith) in
      (c, grow-double (suc fuel) need held small p (omega arith) ∙ e, lo, hi)
  | no large ↦ (held, grow-enough (suc fuel) need held (omega arith), omega arith, q)
]

-- The capacity that `reserve` asks for exists for every need up to `room`.
pub grow-Grown : (need held : ℕ) → need ≤ room → Grown need held (grow grow_fuel need held)
unfolding grow_fuel
grow-Grown need zero r = elim (dec_lt 0 need) [
  | yes pos ↦
      let (c, e, lo, hi) = grow_from 31 need 1 r (omega arith) (omega arith) (omega arith) in
      (c, grow-first 32 need pos ∙ e, lo, inr hi)
  | no none_asked ↦ (0, grow-enough 32 need 0 (omega arith), omega arith, inl refl)
]
grow-Grown need (suc held) r = elim (dec_lt (suc held) need) [
  | yes small ↦
      let (c, e, lo, hi) =
        grow_from 32 need (suc held) r (omega arith) (omega arith) (omega arith) in
      (c, e, lo, inr hi)
  | no large ↦ (suc held, grow-enough 32 need (suc held) (omega arith), omega arith, inl refl)
]

reserve-grown :
    (len c : ℕ) (s : Stream)
    → length s.buf + len ≤ room
    → s.capacity < length s.buf + len
    → length s.buf + len ≤ c
    → grow grow_fuel (length s.buf + len) s.capacity ≡ some c
    → reserve len s ≡ some (record s { capacity = c })
unfolding reserve reserve_buf
reserve-grown len c s fits small lo e =
    let same : s.capacity % 2 ^ 32 ≡ s.capacity = omega arith in rw (same) (ground (arith, e))

reserve-held :
    (len : ℕ) (s : Stream)
    → length s.buf + len ≤ room
    → s.capacity < int_limit
    → length s.buf + len ≤ s.capacity
    → reserve len s ≡ some s
unfolding reserve
reserve-held len s fits few large =
    let same : s.capacity % 2 ^ 32 ≡ s.capacity = omega arith in rw (same) (ground arith)

-- Where the buffer has at most 2^30 bytes after `len` more and its capacity is below 2^31, `reserve`
-- succeeds, leaves all but the capacity alone, and the capacity is enough and below 2^31 again.
pub reserve_total :
    (len : ℕ) (s : Stream)
    → length s.buf + len ≤ room
    → s.capacity < int_limit
    → (c : ℕ) × (reserve len s ≡ some (record s { capacity = c }))
      × (length s.buf + len ≤ c)
      × (c < int_limit)
reserve_total len s h few = elim (dec_lt s.capacity (length s.buf + len)) [
  | yes small ↦
      let (c, e, lo, hi) = grow-Grown (length s.buf + len) s.capacity h in
      (
        c,
        reserve-grown len c s h small lo e,
        lo,
        elim hi [ inl same ↦ omega arith | inr below ↦ omega arith ],
      )
  | no large ↦ (s.capacity, reserve-held len s h few (omega arith), omega arith, few)
]
