-- ===== src/Base/Family.antt =====
-- Families indexed by thread or by memory cell.
use Prim.Native.Nat.{ℕ}
use mathlib.Core.Bool.{Bool, true, false}
use mathlib.Core.Path.{◌≡◌, refl, sym, ap, subst, ◌∙◌, fun_ext}
use mathlib.Core.Logic.{◌≢◌, ite, if_pos, if_neg}
use native.Mathlib.Decide.{ℕ_discrete}

abbrev pub update {ℓ} : {A : Type ℓ} → (ℕ → A) → ℕ → A → ℕ → A
update f i a j = ite (ℕ_discrete i j) a (f j)

module _ {ℓ} {A : Type ℓ} (f : ℕ → A) where
  pub update_self : (i : ℕ) (a : A) → update f i a i ≡ a
  update_self i a = if_pos (ℕ_discrete i i) refl _ _

  pub update-other : (i j : ℕ) (a : A) → i ≢ j → update f i a j ≡ f j
  update-other i j a ne = if_neg (ℕ_discrete i j) ne _ _

  -- A value that is put in and taken out again
  pub update_back : (i : ℕ) (a b : A) → f i ≡ b → update (update f i a) i b ≡ f
  update_back i a b was = fun_ext λ j. elim (ℕ_discrete i j) [
    | yes e ↦
        subst (λ k. update (update f i a) i b k ≡ f k) e
          (if_pos (ℕ_discrete i i) refl _ _ ∙ sym was)
    | no ne ↦ if_neg (ℕ_discrete i j) ne _ _ ∙ if_neg (ℕ_discrete i j) ne _ _
  ]

true_not_false : true ≢ false
true_not_false e = cc

-- Two marks that are set at places without one, and are removed in the order in which they were set
pub update_back_both :
    (f : ℕ → Bool) (i j : ℕ)
    → f i ≡ false
    → update f i true j ≡ false
    → update (update (update (update f i true) j true) i false) j false ≡ f
update_back_both f i j was_i was_j =
    let g = update (update (update f i true) j true) i false in
    let apart : i ≢ j =
      λ e. true_not_false (sym (update_self f i true) ∙ ap (update f i true) e ∙ was_j) in
    let was : f j ≡ false = sym (update-other f i j true apart) ∙ was_j in
    fun_ext λ k. elim (ℕ_discrete j k) [
      | yes e ↦ subst (λ n. update g j false n ≡ f n) e (update_self g j false ∙ sym was)
      | no ne ↦ update-other g j k false ne ∙ elim (ℕ_discrete i k) [
        | yes e ↦
            subst (λ n. g n ≡ f n) e
              (update_self (update (update f i true) j true) i false ∙ sym was_i)
        | no other ↦
            update-other (update (update f i true) j true) i k false other
            ∙ update-other (update f i true) j k true ne
            ∙ update-other f i k true other
      ]
    ]
