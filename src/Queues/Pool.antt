-- ===== src/Queues/Pool.antt =====
-- `ObjectPool` of base/object_pool.h: nodes by their index in the arena, and the list of the free ones
-- through their `next`. The objects themselves are not looked at.
use hnu_middleware.Base.{
  ℕ, zero, suc, ◌+◌, ◌<◌, ◌≡◌, ◌≢◌, refl, sym, ap, subst, Option, none, some, List, [], ◌∷◌,
  get_elem?, ltb, ◌==◌, if◌then◌else◌, update, update_self, update-other, ◌⊎◌, inl, inr,
  Option-cases, arith,
}

pub record Pool : Type 0 where
  pub num_objects : ℕ
  pub next : ℕ → Option ℕ
  pub free_head : Option ℕ

-- The head of the list of free nodes becomes `node`.
unfoldable pub put_free : ℕ → Pool → Pool
put_free node p = record p { next = update p.next node p.free_head; free_head = some node }

-- The loop of the constructors, for the nodes below a number
unfoldable pub link_objects : ℕ → Pool → Pool
unfolding put_free
link_objects zero p = p
link_objects (suc i) p = put_free i (link_objects i p)

-- `ObjectPool(num_objects, ...)`
unfoldable pub new_pool : ℕ → Pool
unfolding link_objects
new_pool num_objects =
    link_objects num_objects
      (record { num_objects = num_objects; next = λ i. none; free_head = none })

-- `ReleaseObject`
unfoldable pub release_object : Option ℕ → Pool → Pool
unfolding put_free
release_object none p = p
release_object (some object) p = put_free object p

-- `GetObject` from the head of the list
unfoldable pub get_head : Option ℕ → Pool → Option ℕ × Pool
get_head none p = (none, p)
get_head (some node) p = (some node, record p { free_head = p.next node })

-- `GetObject`, without the deleter, which calls `ReleaseObject`
unfoldable pub get_object : Pool → Option ℕ × Pool
unfolding get_head
get_object p = get_head p.free_head p

-- What the users of a pool do: they take an object, or the last owner of a taken one goes.
pub data Call : Type 0 where
  take_one : Call
  give_back : (place : ℕ) → Call

abbrev pub remove_at : ℕ → List ℕ → List ℕ
remove_at k [] = []
remove_at zero (x ∷ xs) = xs
remove_at (suc k) (x ∷ xs) = x ∷ remove_at k xs

abbrev pub handed : Option ℕ × Pool → List ℕ → Pool × List ℕ
handed (none, p) taken = (p, taken)
handed (some x, p) taken = (p, x ∷ taken)

abbrev pub given_back : ℕ → Option ℕ → Pool × List ℕ → Pool × List ℕ
given_back k none st = st
given_back k (some x) (p, taken) = (release_object (some x) p, remove_at k taken)

-- A call on the pool and the objects that are taken
unfoldable pub use_pool : Call → Pool × List ℕ → Pool × List ℕ
unfolding get_object release_object
use_pool take_one (p, taken) = handed (get_object p) taken
use_pool (give_back k) (p, taken) = given_back k (get_elem? taken k) (p, taken)

unfoldable pub use_all : List Call → Pool × List ℕ → Pool × List ℕ
use_all [] st = st
use_all (c ∷ cs) st = use_all cs (use_pool c st)

abbrev pub count : ℕ → List ℕ → ℕ
count i [] = 0
count i (x ∷ xs) = let rest = count i xs in if x == i then suc rest else rest

-- From `head` the `next` of the nodes leads through the list, to null.
abbrev Linked : (ℕ → Option ℕ) → Option ℕ → List ℕ → Type 0
Linked next head [] = head ≡ none
Linked next head (x ∷ xs) = (head ≡ some x) × Linked next (next x) xs

-- Every object below `n` is free or taken, once.
abbrev Shares : ℕ → List ℕ → List ℕ → Type 0
Shares n free taken = (i : ℕ) → count i free + count i taken ≡ (if ltb i n then 1 else 0)

record Inv (n : ℕ) (p : Pool) (taken : List ℕ) : Type 0 where
  free : List ℕ
  linked : Linked p.next p.free_head free
  shares : Shares n free taken

count-cons_self : (x : ℕ) (xs : List ℕ) → count x (x ∷ xs) ≡ suc (count x xs)
count-cons_self x xs = ground arith

Linked-update :
    (next : ℕ → Option ℕ) (head v : Option ℕ) (x : ℕ) (free : List ℕ)
    → count x free ≡ 0
    → Linked next head free
    → Linked (update next x v) head free
Linked-update next head v x [] absent l = l
Linked-update next head v x (y ∷ ys) absent (at, l) =
    let ne : x ≢ y = λ same. ground arith in
    let less : count x ys ≡ 0 = ground arith in
    (
      at,
      subst (λ h. Linked (update next x v) h ys) (sym (update-other next x y v ne))
          (Linked-update next (next y) v x ys less l),
    )

-- The list with one more free node
Linked-put_free :
    (p : Pool) (x : ℕ) (free : List ℕ)
    → count x free ≡ 0
    → Linked p.next p.free_head free
    → Linked (put_free x p).next (put_free x p).free_head (x ∷ free)
unfolding put_free
Linked-put_free p x free absent l = (
  refl,
  subst (λ h. Linked (update p.next x p.free_head) h free) (sym (update_self p.next x p.free_head))
      (Linked-update p.next p.free_head p.free_head x free absent l),
)

count-remove_at :
    (k x i : ℕ) (taken : List ℕ)
    → get_elem? taken k ≡ some x
    → count i (x ∷ remove_at k taken) ≡ count i taken
count-remove_at k x i [] at = cc
count-remove_at zero x i (y ∷ ys) at = ground arith
count-remove_at (suc k) x i (y ∷ ys) at = ground (arith, count-remove_at k x i ys at)

abbrev below : ℕ → List ℕ
below zero = []
below (suc n) = n ∷ below n

count-below : (i n : ℕ) → count i (below n) ≡ (if ltb i n then 1 else 0)
count-below i zero = ground arith
count-below i (suc n) = ground (arith, count-below i n)

count-below_self : (n : ℕ) → count n (below n) ≡ 0
count-below_self n = ground (arith, count-below n n)

new-Linked :
    (n : ℕ) (p : Pool)
    → p.free_head ≡ none
    → Linked (link_objects n p).next (link_objects n p).free_head (below n)
unfolding link_objects
new-Linked zero p empty = empty
new-Linked (suc n) p empty =
    Linked-put_free (link_objects n p) n (below n) (count-below_self n) (new-Linked n p empty)

new-Inv : (n : ℕ) → Inv n (new_pool n) []
unfolding new_pool
new-Inv n = record {
  free = below n;
  linked = new-Linked n (record { num_objects = n; next = λ i. none; free_head = none }) refl;
  shares = λ i. ground (arith, count-below i n);
}

-- What `GetObject` gives: null where no object is free, else a free one, which is then off the list.
data Got (n : ℕ) (p : Pool) (taken : List ℕ) : Type 0 where
  empty :
      get_object p ≡ (none, p)
      → ((i : ℕ) → count i taken ≡ (if ltb i n then 1 else 0))
      → Got n p taken
  given :
      (x : ℕ) (p' : Pool)
      → get_object p ≡ (some x, p')
      → Inv n p' (x ∷ taken)
      → x < n
      → count x taken ≡ 0
      → Got n p taken

get_object-none : (p : Pool) → p.free_head ≡ none → get_object p ≡ (none, p)
unfolding get_object
get_object-none p e = ap (λ h. get_head h p) e

get_object-some :
    (p : Pool) (x : ℕ)
    → p.free_head ≡ some x
    → get_object p ≡ (some x, record p { free_head = p.next x })
unfolding get_object
get_object-some p x e = ap (λ h. get_head h p) e

Inv-Got :
    (n : ℕ) (p : Pool) (taken free : List ℕ)
    → Linked p.next p.free_head free
    → Shares n free taken
    → Got n p taken
Inv-Got n p taken [] l sh = empty (get_object-none p l) (λ i. ground (arith, sh i))
Inv-Got n p taken (x ∷ xs) (at, l) sh =
    let once = sh x in
    let self = count-cons_self x xs in
    given x (record p { free_head = p.next x }) (get_object-some p x at)
      (record { free = xs; linked = l; shares = λ i. ground (arith, sh i) }) (ground arith)
      (ground arith)

take_one-Inv :
    (n : ℕ) (p : Pool) (taken : List ℕ)
    → Inv n p taken
    → Inv n (use_pool take_one (p, taken)).0 (use_pool take_one (p, taken)).1
unfolding use_pool
take_one-Inv n p taken inv = elim (Inv-Got n p taken inv.free inv.linked inv.shares) [
  | empty e all ↦ subst (λ g. Inv n (handed g taken).0 (handed g taken).1) (sym e) inv
  | given x p' e inv' below fresh ↦
      subst (λ g. Inv n (handed g taken).0 (handed g taken).1) (sym e) inv'
]

give_back-Inv :
    (n k : ℕ) (p : Pool) (taken : List ℕ)
    → Inv n p taken
    → Inv n (use_pool (give_back k) (p, taken)).0 (use_pool (give_back k) (p, taken)).1
unfolding use_pool release_object
give_back-Inv n k p taken inv = elim (Option-cases (get_elem? taken k)) [
  | inl e ↦
      subst (λ g. Inv n (given_back k g (p, taken)).0 (given_back k g (p, taken)).1) (sym e) inv
  | inr (x, e) ↦
      let once = inv.shares x in
      let held = count-remove_at k x x taken e in
      let self = count-cons_self x (remove_at k taken) in
      let absent : count x inv.free ≡ 0 = ground arith in
      let after : Inv n (put_free x p) (remove_at k taken) = record {
        free = x ∷ inv.free;
        linked = Linked-put_free p x inv.free absent inv.linked;
        shares = λ i. ground (arith, inv.shares i, count-remove_at k x i taken e);
      } in
      subst (λ g. Inv n (given_back k g (p, taken)).0 (given_back k g (p, taken)).1) (sym e) after
]

use_all-Inv :
    (n : ℕ) (cs : List Call) (st : Pool × List ℕ)
    → Inv n st.0 st.1
    → Inv n (use_all cs st).0 (use_all cs st).1
unfolding use_all
use_all-Inv n [] st inv = inv
use_all-Inv n (take_one ∷ cs) st inv =
    use_all-Inv n cs (use_pool take_one st) (take_one-Inv n st.0 st.1 inv)
use_all-Inv n (give_back k ∷ cs) st inv =
    use_all-Inv n cs (use_pool (give_back k) st) (give_back-Inv n k st.0 st.1 inv)

-- After any run of `GetObject`s and returns on a new pool of `n` objects, `GetObject` gives an object
-- of the pool that nobody has, or it gives null, and then object `i`, any of the `n`, is taken once.
pub get_object-fresh :
    (n : ℕ) (cs : List Call) (i : ℕ)
    → i < n
    → (((get_object (use_all cs (new_pool n, [])).0).0 ≡ none)
        × (count i (use_all cs (new_pool n, [])).1 ≡ 1))
      ⊎ ((x : ℕ) × ((get_object (use_all cs (new_pool n, [])).0).0 ≡ some x)
          × (x < n)
          × (count x (use_all cs (new_pool n, [])).1 ≡ 0))
get_object-fresh n cs i lt =
    let st = use_all cs (new_pool n, []) in
    let inv = use_all-Inv n cs (new_pool n, []) (new-Inv n) in
    elim (Inv-Got n st.0 st.1 inv.free inv.linked inv.shares) [
      | empty e all ↦ inl (ap (λ g. g.0) e, ground (arith, all i))
      | given x p' e inv' low fresh ↦ inr (x, ap (λ g. g.0) e, low, fresh)
    ]
