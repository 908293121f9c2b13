-- ===== src/Queues/Bounded/Index.antt =====
-- `GetIndex` is the remainder, and tells apart the counters of one turn of the pool.
use hnu_middleware.Base.{ℕ, ◌+◌, ◌*◌, ◌/◌, ◌%◌, ◌≤◌, ◌<◌, ◌≡◌, sym, ◌∙◌, dec_lt, arith}
use native.Mathlib.Nat.{div-add-mod}
use hnu_middleware.Queues.Bounded.{get_index}

pub get_index-eq-mod : (n k : ℕ) → 0 < n → get_index n k ≡ k % n
unfolding get_index
get_index-eq-mod n k h = grind arith

pub get_index-lt : (n k : ℕ) → 0 < n → get_index n k < n
get_index-lt n k h = grind (arith, get_index-eq-mod)

mul-lt : (n x y : ℕ) → x < y → n * x + n ≤ n * y
mul-lt n x y h = grind arith

-- Counters of one turn of a pool of `n` cells, counted from `h + 1`, go to different cells.
pub get_index-injective :
    (n h a b : ℕ)
    → h < a
    → h < b
    → a < h + n + 1
    → b < h + n + 1
    → get_index n a ≡ get_index n b
    → a ≡ b
get_index-injective n h a b p q r s e =
    let same : a % n ≡ b % n =
      sym (get_index-eq-mod n a (omega arith)) ∙ e ∙ get_index-eq-mod n b (omega arith) in
    elim (dec_lt (a / n) (b / n)) [
      | yes lt ↦
          absurd (omega (arith, mul-lt n (a / n) (b / n) lt, div-add-mod a n, div-add-mod b n))
      | no ge ↦ elim (dec_lt (b / n) (a / n)) [
        | yes gt ↦
            absurd (omega (arith, mul-lt n (b / n) (a / n) gt, div-add-mod a n, div-add-mod b n))
        | no le ↦
            let quotients : a / n ≡ b / n = omega arith in
            sym (div-add-mod a n) ∙ cc (quotients, same) ∙ div-add-mod b n
      ]
    ]

add-mod_self : (n h : ℕ) → 0 < n → (h + n) % n ≡ h % n
add-mod_self n h p = grind arith

pub get_index-turn : (n h : ℕ) → 0 < n → get_index n (h + n) ≡ get_index n h
get_index-turn n h p =
    get_index-eq-mod n (h + n) p ∙ add-mod_self n h p ∙ sym (get_index-eq-mod n h p)
