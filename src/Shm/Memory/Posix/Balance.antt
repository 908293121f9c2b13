-- ===== src/Shm/Memory/Posix/Balance.antt =====
-- What the calls of `PosixSegment` leave open and mapped, on every branch, and the buffers that an
-- opener has.
use hnu_middleware.Base.{
  ℕ, ◌+◌, ◌≡◌, refl, sym, ap, subst, ◌∙◌, Bool, true, false, Option, none, some, if◌then◌else◌,
  update, update_back, arith,
}
use hnu_middleware.Shm.Memory.Pointers.{Pointer, null, failed, address}
use hnu_middleware.Shm.Memory.System.{Got, created, refused, einval, eexist, other_error}
use hnu_middleware.Shm.Memory.Objects.{Objects, Documented}
use hnu_middleware.Shm.Memory.{Sizes, Contents, Members, count_reference, new_state, new_blocks}
use hnu_middleware.Shm.Memory.Posix.{
  map_only, stat_only, get_only, open_only, map_new, truncated, got_new, open_or_create,
}

-- One address more if the result is true, and none if it is false
abbrev pub mapped_by : Bool → ℕ
mapped_by b = if b then 1 else 0

-- A call leaves one address more mapped if its result is true, and none more if it is false.
abbrev Mapped :
    {W : Type 0} {os : Objects W Contents} → Documented os → W → Bool × Members × W → Type 0
Mapped d w r = d.mappings r.2 ≡ d.mappings w + mapped_by r.0

-- ... and closes the descriptor `fd`, or leaves the descriptors as they were.
abbrev Closed :
    {W : Type 0} {os : Objects W Contents} → Documented os → ℕ → W → Bool × Members × W → Type 0
Closed d fd w r = (d.is_open r.2 ≡ update (d.is_open w) fd false) × Mapped d w r

abbrev Kept :
    {W : Type 0} {os : Objects W Contents} → Documented os → W → Bool × Members × W → Type 0
Kept d w r = (d.is_open r.2 ≡ d.is_open w) × Mapped d w r

module _ {W : Type 0} (os : Objects W Contents) (d : Documented os) (sizes : Sizes) where
  -- The world after `close` of a descriptor that was just used for `mmap`
  closed_after_mmap :
      (size fd : ℕ) (w : W)
      → d.is_open (os.close fd (os.mmap size fd w).1) ≡ update (d.is_open w) fd false
  closed_after_mmap size fd w =
      (d.close_lem fd (os.mmap size fd w).1).0 ∙ ap (λ f. update f fd false) (d.mmap_same size fd w)

  -- Closing a descriptor that a call has opened brings the descriptors back.
  opened-closed :
      (fd : ℕ) (before after : ℕ → Bool)
      → before fd ≡ false
      → after ≡ update before fd true
      → update after fd false ≡ before
  opened-closed fd before after was now =
      ap (λ f. update f fd false) now ∙ update_back before fd true false was

  map_only-Closed :
      (fd size : ℕ) (p : Pointer) (x : Members) (w : W)
      → (os.mmap size fd w).0 ≡ p
      → Closed d fd w (map_only os sizes fd size p x (os.mmap size fd w).1)
  unfolding map_only
  map_only-Closed fd size failed x w e =
      let w1 = (os.mmap size fd w).1 in
      (closed_after_mmap size fd w, omega (arith, d.close_lem fd w1, d.mmap_failed size fd w e))
  map_only-Closed fd size null x w e = absurd (d.mmap_not_null size fd w e)
  map_only-Closed fd size (address base) x w e =
      let w1 = (os.mmap size fd w).1 in
      let w2 = os.close fd w1 in
      let kept = d.store_same base (count_reference (os.load base w2)) w2 in
      (
        kept.0 ∙ closed_after_mmap size fd w,
        kept.1 ∙ (d.close_lem fd w1).1 ∙ d.mmap_address size fd base w e,
      )

  stat_only-Closed :
      (fd : ℕ) (size : Option ℕ) (x : Members) (w : W)
      → Closed d fd w (stat_only os sizes fd size x w)
  unfolding stat_only
  stat_only-Closed fd none x w = ((d.close_lem fd w).0, omega (arith, (d.close_lem fd w).1))
  stat_only-Closed fd (some size) x w = map_only-Closed fd size (os.mmap size fd w).0 x w refl

  get_only-Kept :
      (name : ℕ) (got : Option ℕ) (x : Members) (w : W)
      → (os.shm_open name w).0 ≡ got
      → Kept d w (get_only os sizes got x (os.shm_open name w).1)
  unfolding get_only
  get_only-Kept name none x w e = (d.open_missing name w e, omega (arith, d.open_mappings name w))
  get_only-Kept name (some fd) x w e =
      let w1 = (os.shm_open name w).1 in
      let (was, now) = d.open_found name fd w e in
      let later = stat_only-Closed fd (os.fstat fd w1) x w1 in
      (
        later.0 ∙ opened-closed fd (d.is_open w) (d.is_open w1) was now,
        later.1
            ∙ ap (λ n. n + mapped_by (stat_only os sizes fd (os.fstat fd w1) x w1).0)
                (d.open_mappings name w),
      )

  open_only-Kept :
      (name : ℕ) (x : Members) (w : W) → x.init ≡ false → Kept d w (open_only os sizes name x w)
  unfolding open_only
  open_only-Kept name x w closed =
      subst
        (λ b. Kept d w (
          if b
          then (true, x, w)
          else get_only os sizes (os.shm_open name w).0 x (os.shm_open name w).1))
        (sym closed) (get_only-Kept name (os.shm_open name w).0 x w refl)

  map_new-Closed :
      (name fd size : ℕ) (p : Pointer) (x : Members) (w : W)
      → (os.mmap size fd w).0 ≡ p
      → Closed d fd w (map_new os sizes name fd p x (os.mmap size fd w).1)
  unfolding map_new
  map_new-Closed name fd size failed x w e =
      let w1 = (os.mmap size fd w).1 in
      let gone = d.unlink_same name (os.close fd w1) in
      (
        gone.0 ∙ closed_after_mmap size fd w,
        omega (arith, gone.1, (d.close_lem fd w1).1, d.mmap_failed size fd w e),
      )
  map_new-Closed name fd size null x w e = absurd (d.mmap_not_null size fd w e)
  map_new-Closed name fd size (address base) x w e =
      let w1 = (os.mmap size fd w).1 in
      let w2 = os.close fd w1 in
      let w3 = os.store base (new_state x.conf.ceiling_msg_size (os.load base w2)) w2 in
      let w4 = os.store base (new_blocks x.conf.block_num (os.load base w3)) w3 in
      let s3 = d.store_same base (new_state x.conf.ceiling_msg_size (os.load base w2)) w2 in
      let s4 = d.store_same base (new_blocks x.conf.block_num (os.load base w3)) w3 in
      let s5 = d.store_same base (count_reference (os.load base w4)) w4 in
      (
        s5.0 ∙ s4.0 ∙ s3.0 ∙ closed_after_mmap size fd w,
        s5.1 ∙ s4.1 ∙ s3.1 ∙ (d.close_lem fd w1).1 ∙ d.mmap_address size fd base w e,
      )

  truncated-Closed :
      (name fd : ℕ) (done : Bool) (x : Members) (w : W)
      → Closed d fd w (truncated os sizes name fd done x w)
  unfolding truncated
  truncated-Closed name fd false x w = ((d.close_lem fd w).0, omega (arith, (d.close_lem fd w).1))
  truncated-Closed name fd true x w =
      map_new-Closed name fd x.conf.managed_shm_size (os.mmap x.conf.managed_shm_size fd w).0 x w
        refl

  got_new-Kept :
      (name : ℕ) (got : Got) (x : Members) (w : W)
      → (os.shm_open_excl name w).0 ≡ got
      → x.init ≡ false
      → Kept d w (got_new os sizes name got x (os.shm_open_excl name w).1)
  unfolding got_new
  got_new-Kept name (created fd) x w e closed =
      let w1 = (os.shm_open_excl name w).1 in
      let cut = os.ftruncate fd x.conf.managed_shm_size w1 in
      let same = d.ftruncate_same fd x.conf.managed_shm_size w1 in
      let (was, now) = d.excl_opened name fd w e in
      let later = truncated-Closed name fd cut.0 x cut.1 in
      (
        later.0 ∙ opened-closed fd (d.is_open w) (d.is_open cut.1) was (same.0 ∙ now),
        later.1
            ∙ ap (λ n. n + mapped_by (truncated os sizes name fd cut.0 x cut.1).0)
                (same.1 ∙ d.excl_mappings name w),
      )
  got_new-Kept name (refused eexist) x w e closed =
      let w1 = (os.shm_open_excl name w).1 in
      let later = open_only-Kept name x w1 closed in
      (
        later.0 ∙ d.excl_refused name eexist w e,
        later.1 ∙ ap (λ n. n + mapped_by (open_only os sizes name x w1).0) (d.excl_mappings name w),
      )
  got_new-Kept name (refused einval) x w e closed =
      (d.excl_refused name einval w e, omega (arith, d.excl_mappings name w))
  got_new-Kept name (refused other_error) x w e closed =
      (d.excl_refused name other_error w e, omega (arith, d.excl_mappings name w))

  -- `OpenOrCreate` of a segment that is not open leaves the same descriptors open as there were, on every
  -- branch and after every failure: it closes each one that it opens, and no other. It leaves one
  -- address more mapped if it gives true, and none more if it gives false.
  pub open_or_create-clean :
      (name : ℕ) (x : Members) (w : W)
      → x.init ≡ false
      → (d.is_open (open_or_create os sizes name x w).2 ≡ d.is_open w)
        × (d.mappings (open_or_create os sizes name x w).2
            ≡ d.mappings w + mapped_by (open_or_create os sizes name x w).0)
  unfolding open_or_create
  open_or_create-clean name x w closed =
      subst
        (λ b. Kept d w (
          if b
          then (true, x, w)
          else got_new os sizes name (os.shm_open_excl name w).0 x (os.shm_open_excl name w).1))
        (sym closed) (got_new-Kept name (os.shm_open_excl name w).0 x w refl closed)
