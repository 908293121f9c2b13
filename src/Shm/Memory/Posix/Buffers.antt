-- ===== src/Shm/Memory/Posix/Buffers.antt =====
-- The addresses of the buffers that `PosixSegment::OpenOnly` leaves in `block_buf_addrs_`: the loop
-- computes each address and does not keep it.
use hnu_middleware.Base.{
  ℕ, ◌≡◌, refl, sym, ap, subst, ◌∙◌, Bool, true, false, Option, none, some, if◌then◌else◌,
  Bool-cases, inl, inr,
}
use hnu_middleware.Shm.Memory.Pointers.{Pointer, null, failed, address}
use hnu_middleware.Shm.Memory.System.{refused, eexist}
use hnu_middleware.Shm.Memory.Objects.{Objects}
use hnu_middleware.Shm.Memory.{Sizes, Contents, Members}
use hnu_middleware.Shm.Memory.Posix.{
  map_only, stat_only, get_only, open_only, got_new, open_or_create,
}

module _ {W : Type 0} (os : Objects W Contents) (sizes : Sizes) where
  map_only-buffers :
      (fd size : ℕ) (p : Pointer) (x : Members) (w : W)
      → (map_only os sizes fd size p x w).1.block_buf_addrs ≡ x.block_buf_addrs
  unfolding map_only
  map_only-buffers fd size null x w = refl
  map_only-buffers fd size failed x w = refl
  map_only-buffers fd size (address base) x w = refl

  stat_only-buffers :
      (fd : ℕ) (got : Option ℕ) (x : Members) (w : W)
      → (stat_only os sizes fd got x w).1.block_buf_addrs ≡ x.block_buf_addrs
  unfolding stat_only
  stat_only-buffers fd none x w = refl
  stat_only-buffers fd (some size) x w =
      map_only-buffers fd size (os.mmap size fd w).0 x (os.mmap size fd w).1

  get_only-buffers :
      (got : Option ℕ) (x : Members) (w : W)
      → (get_only os sizes got x w).1.block_buf_addrs ≡ x.block_buf_addrs
  unfolding get_only
  get_only-buffers none x w = refl
  get_only-buffers (some fd) x w = stat_only-buffers fd (os.fstat fd w) x w

  -- `OpenOnly` sets no address of a buffer, whatever it gives.
  pub open_only-buffers :
      (name : ℕ) (x : Members) (w : W)
      → (open_only os sizes name x w).1.block_buf_addrs ≡ x.block_buf_addrs
  unfolding open_only
  open_only-buffers name x w =
      let Goal : Bool → Type 0 = λ b.
        (if b
          then (true, x, w)
          else get_only os sizes (os.shm_open name w).0 x (os.shm_open name w).1).1.block_buf_addrs
        ≡ x.block_buf_addrs in
      elim (Bool-cases x.init) [
        | inl opened ↦ subst Goal (sym opened) refl
        | inr closed ↦
            subst Goal (sym closed)
              (get_only-buffers (os.shm_open name w).0 x (os.shm_open name w).1)
      ]

  -- A segment that is opened, and not created, by `OpenOrCreate` has no address for any block's
  -- buffer, if it had none before: the memory of the name exists already.
  pub open_or_create-no_buffers :
      (name i : ℕ) (x : Members) (w : W)
      → x.init ≡ false
      → x.block_buf_addrs i ≡ none
      → (os.shm_open_excl name w).0 ≡ refused eexist
      → (open_or_create os sizes name x w).1.block_buf_addrs i ≡ none
  unfolding open_or_create got_new
  open_or_create-no_buffers name i x w closed empty exists =
      let w1 = (os.shm_open_excl name w).1 in
      let steps : open_or_create os sizes name x w ≡ open_only os sizes name x w1 =
        ap (λ b. if b then (true, x, w) else got_new os sizes name (os.shm_open_excl name w).0 x w1)
          closed
        ∙ ap (λ got. got_new os sizes name got x w1) exists in
      ap (λ r. r.1.block_buf_addrs i) steps
      ∙ ap (λ bufs. bufs i) (open_only-buffers name x w1)
      ∙ empty
