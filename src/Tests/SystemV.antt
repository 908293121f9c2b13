-- ===== src/Tests/SystemV.antt =====
-- A small system with System V shared memory, on which the hypotheses about the calls hold.
use hnu_middleware.Base.{
  ℕ, ◌+◌, ◌≤◌, ◌≡◌, ◌≢◌, refl, sym, ap, subst, ◌∙◌, true, false, List, [], ◌∷◌, length, Option,
  none, some, ◌==◌, if◌then◌else◌, update, update_self, update-other, arith,
}
use hnu_middleware.Shm.Memory.Pointers.{Pointer, null, failed, address}
use hnu_middleware.Shm.Memory.System.{System, Documented, Got, created, refused, eexist}

-- The memory of each key, what stands in it, its size, and where it is attached
pub record Machine (C : Type 0) : Type 0 where
  pub keys : ℕ → Option ℕ
  pub cells : ℕ → C
  pub sizes : ℕ → ℕ
  pub maps : List (ℕ × ℕ)

abbrev pub find : ℕ → List (ℕ × ℕ) → Option ℕ
find k [] = none
find k ((a, id) ∷ l) = if k == a then some id else find k l

abbrev pub drop_first : ℕ → List (ℕ × ℕ) → List (ℕ × ℕ)
drop_first k [] = []
drop_first k ((a, id) ∷ l) = if k == a then l else (a, id) ∷ drop_first k l

-- Above every address and every id of a list
abbrev pub above : List (ℕ × ℕ) → ℕ
above [] = 1
above ((a, id) ∷ l) = a + id + above l

above_pos : (l : List (ℕ × ℕ)) → 1 ≤ above l
above_pos [] = omega arith
above_pos ((a, id) ∷ l) = omega (arith, above_pos l)

find-above :
    (k id : ℕ) (l : List (ℕ × ℕ)) → find k l ≡ some id → (k + 1 ≤ above l) × (id + 1 ≤ above l)
find-above k id [] e = cc
find-above k id ((a, v) ∷ l) e = ground (arith, above_pos l, find-above k id l)

pub find-drop_first :
    (k other : ℕ) (l : List (ℕ × ℕ)) → k ≢ other → find other (drop_first k l) ≡ find other l
find-drop_first k other [] ne = refl
find-drop_first k other ((a, v) ∷ l) ne = ground (arith, find-drop_first k other l ne)

pub length-drop_first :
    (k id : ℕ) (l : List (ℕ × ℕ)) → find k l ≡ some id → length (drop_first k l) + 1 ≡ length l
length-drop_first k id [] e = cc
length-drop_first k id ((a, v) ∷ l) e = ground (arith, length-drop_first k id l)

pub find-attach :
    (base id other : ℕ) (l : List (ℕ × ℕ))
    → find base l ≡ some other
    → find base ((above l, id) ∷ l) ≡ some other
find-attach base id other l e =
    let apart : (base == above l) ≡ false = ground (arith, find-above base other l e) in
    ap (λ b. if b then some id else find base l) apart ∙ e

pub found_there :
    (id base : ℕ) (l : List (ℕ × ℕ))
    → ◌≡◌ {A = Pointer} (address (above l)) (address base)
    → (find base ((above l, id) ∷ l) ≡ some id) × (length ((above l, id) ∷ l) ≡ length l + 1)
found_there id base l e =
    let here : above l ≡ base = cc in
    let same : (base == above l) ≡ true = ground (arith, here) in
    (ap (λ b. if b then some id else find base l) same, omega arith)

pub new_not_found : (base id : ℕ) (l : List (ℕ × ℕ)) → id ≡ above l → find base l ≢ some id
new_not_found base id l new e = absurd (omega (arith, new, find-above base id l e))

pub not_null : (a : ℕ) → address a ≢ null
not_null a e = cc

pub not_failed : (a : ℕ) → address a ≢ failed
not_failed a e = cc

module _ {C : Type 0} where
  abbrev pub answer : ℕ → ℕ → Option ℕ → Machine C → Got × Machine C
  answer key bytes (some id) w = (refused eexist, w)
  answer key bytes none w =
      let id = above w.maps in
      (created id, record w { keys = update w.keys key (some id); sizes = update w.sizes id bytes })

  abbrev pub cell_of : C → Option ℕ → Machine C → C
  cell_of other none w = other
  cell_of other (some id) w = w.cells id

  abbrev pub put_cell : Option ℕ → C → Machine C → Machine C
  put_cell none c w = w
  put_cell (some id) c w = record w { cells = update w.cells id c }

  abbrev pub unmapped : Pointer → Machine C → Machine C
  unmapped (address base) w = record w { maps = drop_first base w.maps }
  unmapped null w = w
  unmapped failed w = w

  abbrev pub machine : C → System (Machine C) C
  machine other = record {
    shmget_excl = λ key bytes w. answer key bytes (w.keys key) w;
    shmget = λ key w. w.keys key;
    shmat = λ id w. (address (above w.maps), record w { maps = (above w.maps, id) ∷ w.maps });
    shmdt = unmapped;
    shmctl_rmid = λ id w. (
      true,
      record w {
        keys = λ key. elim (w.keys key) [ none ↦ none | some k ↦ if k == id then none else some k ];
      },
    );
    load = λ base w. cell_of other (find base w.maps) w;
    store = λ base c w. put_cell (find base w.maps) c w;
  }

  pub answer_lem :
      (key bytes id : ℕ) (got : Option ℕ) (w : Machine C)
      → (answer key bytes got w).0 ≡ created id
      → (id ≡ above w.maps)
        × ((answer key bytes got w).1.keys key ≡ some id)
        × (bytes ≤ (answer key bytes got w).1.sizes id)
  answer_lem key bytes id (some old) w e = cc
  answer_lem key bytes id none w e =
      let new : above w.maps ≡ id = cc in
      let keys = update_self w.keys key (some (above w.maps)) in
      let sizes = update_self w.sizes (above w.maps) bytes in
      (
        sym new,
        keys ∙ ap some new,
        subst (λ k. bytes ≤ update w.sizes (above w.maps) bytes k) new
            (subst (λ n. bytes ≤ n) (sym sizes) (omega arith)),
      )

  pub answer_kept :
      (key bytes : ℕ) (got : Option ℕ) (w : Machine C)
      → ((answer key bytes got w).1.maps ≡ w.maps) × ((answer key bytes got w).1.cells ≡ w.cells)
  answer_kept key bytes (some old) w = (refl, refl)
  answer_kept key bytes none w = (refl, refl)

  pub put_cell_kept :
      (o : Option ℕ) (c : C) (w : Machine C)
      → ((put_cell o c w).maps ≡ w.maps)
        × ((put_cell o c w).keys ≡ w.keys)
        × ((put_cell o c w).sizes ≡ w.sizes)
  put_cell_kept none c w = (refl, refl, refl)
  put_cell_kept (some id) c w = (refl, refl, refl)

  pub unmapped_kept :
      (p : Pointer) (w : Machine C)
      → ((unmapped p w).keys ≡ w.keys) × ((unmapped p w).cells ≡ w.cells)
  unmapped_kept null w = (refl, refl)
  unmapped_kept failed w = (refl, refl)
  unmapped_kept (address base) w = (refl, refl)

  unfoldable pub documented : (other : C) → Documented (machine other)
  documented other = record {
    attached = λ base w. find base w.maps;
    attachments = λ w. length w.maps;
    contents = λ id w. w.cells id;
    size = λ id w. w.sizes id;
    created_found = λ key bytes id w shared e.
        let (new, keys, sizes) = answer_lem key bytes id (w.keys key) w e in (keys, sizes);
    shmget_same = λ key bytes w. ap length (answer_kept key bytes (w.keys key) w).0;
    excl_kept = λ key bytes base id w e.
        let (maps, cells) = answer_kept key bytes (w.keys key) w in
        (ap (find base) maps ∙ e, ap (λ f. f id) cells);
    created_new = λ key bytes base id w e at.
        new_not_found base id w.maps (answer_lem key bytes id (w.keys key) w e).0 at;
    shmat_not_null = λ id w e. not_null (above w.maps) e;
    shmat_failed = λ id w e. absurd (not_failed (above w.maps) e);
    shmat_address = λ id base w e. found_there id base w.maps e;
    shmat_same = λ id k key w. (refl, refl, refl);
    shmat_kept = λ id base k w e. find-attach base id k w.maps e;
    shmdt_kept = λ base k id w ne e. (find-drop_first base k w.maps ne ∙ e, refl);
    shmdt_key = λ p key w. ap (λ f. f key) (unmapped_kept p w).0;
    rmid_kept = λ id base k w e. (e, refl);
    shmdt_address = λ id base w e. length-drop_first base id w.maps e;
    rmid_same = λ id w. refl;
    load_lem = λ id base w e. ap (λ o. cell_of other o w) e;
    store_lem = λ id base c w e. ap (λ o. (put_cell o c w).cells id) e ∙ update_self w.cells id c;
    store_same = λ base k key c w.
        let (maps, keys, sizes) = put_cell_kept (find base w.maps) c w in
        (ap (find k) maps, ap length maps, ap (λ f. f key) sizes, ap (λ f. f key) keys);
    store_other =
        λ id k base c w e ne. ap (λ o. (put_cell o c w).cells k) e ∙ update-other w.cells id k c ne;
  }
