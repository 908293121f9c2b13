-- ===== src/Serialize/Containers/Order.antt =====
-- Items that come in ascending order are appended by the inserts of `std::set` and `std::map`.
use hnu_middleware.Base.{
  ◌≡◌, refl, sym, Bool, true, false, List, [], ◌∷◌, ◌++◌, append-nil, append_assoc, ◌∙◌, arith,
}
use mathlib.Core.List.{foldl}
use hnu_middleware.Serialize.Containers.{push_back, insert, assign}

abbrev pub All {ℓ κ} : {A : Type ℓ} → (A → Type κ) → List A → Type κ
All P [] = Unit
All P (x ∷ xs) = P x × All P xs

-- Each item lies above all those before it, `before` among them.
abbrev pub Ascending {ℓ} : {A : Type ℓ} → (A → A → Bool) → List A → List A → Type 0
Ascending lt before [] = Unit
Ascending lt before (x ∷ xs) = All (λ a. lt a x ≡ true) before × Ascending lt (before ++ x ∷ []) xs

abbrev pub IsAsymmetric {ℓ} : {A : Type ℓ} → (A → A → Bool) → Type ℓ
IsAsymmetric {A = A} lt = (a b : A) → lt a b ≡ true → lt b a ≡ false

-- An add that appends, on lists in ascending order, rebuilds the list that it goes through.
abbrev Appends : {A : Type 0} → (A → A → Bool) → (List A → A → List A) → Type 0
Appends {A = A} lt add =
    (xs : List A) (v : A) → All (λ a. lt a v ≡ true) xs → add xs v ≡ xs ++ v ∷ []

foldl-Appends :
    {A : Type 0} (lt : A → A → Bool) (add : List A → A → List A)
    → Appends lt add
    → (before xs : List A) → Ascending lt before xs
    → foldl add before xs ≡ before ++ xs
foldl-Appends lt add h before [] p = sym (append-nil before)
foldl-Appends lt add h before (x ∷ xs) p =
    rw (h before x p.0)
      (foldl-Appends lt add h (before ++ x ∷ []) xs p.1 ∙ append_assoc before (x ∷ []) xs)

pub foldl-push_back : {A : Type 0} (before xs : List A) → foldl push_back before xs ≡ before ++ xs
unfolding push_back
foldl-push_back before [] = sym (append-nil before)
foldl-push_back before (x ∷ xs) =
    foldl-push_back (before ++ x ∷ []) xs ∙ append_assoc before (x ∷ []) xs

insert-Appends : {A : Type 0} (lt : A → A → Bool) → IsAsymmetric lt → Appends lt (insert lt)
unfolding insert
insert-Appends lt asym [] v h = refl
insert-Appends lt asym (x ∷ xs) v h = ground (arith, asym x v, insert-Appends lt asym xs v h.1)

pub foldl-insert :
    {A : Type 0} (lt : A → A → Bool) (xs : List A)
    → IsAsymmetric lt
    → Ascending lt [] xs
    → foldl (insert lt) [] xs ≡ xs
foldl-insert lt xs asym h = foldl-Appends lt (insert lt) (insert-Appends lt asym) [] xs h

module _ {K V : Type 0} (lt : K → K → Bool) where
  abbrev pub by_key : K × V → K × V → Bool
  by_key (j, v) (k, w) = lt j k

  assign-Appends : IsAsymmetric lt → Appends by_key (assign lt)
  unfolding assign
  assign-Appends asym [] (k, v) h = refl
  assign-Appends asym ((j, w) ∷ m) (k, v) h =
      ground (arith, asym j k, assign-Appends asym m (k, v) h.1)

  pub foldl-assign :
      (m : List (K × V)) → IsAsymmetric lt → Ascending by_key [] m → foldl (assign lt) [] m ≡ m
  foldl-assign m asym h = foldl-Appends by_key (assign lt) (assign-Appends asym) [] m h
