-- ===== src/Shm/Memory/Posix.antt =====
-- `PosixSegment` (transport/shm/segment/posix_segment.cpp): a segment in POSIX shared memory.
pub mod Balance
pub mod Buffers
use hnu_middleware.Base.{ℕ, Bool, true, false, Option, none, some, if◌then◌else◌}
use hnu_middleware.Shm.Conf.{conf_of}
use hnu_middleware.Shm.Memory.Pointers.{Pointer, null, failed, address}
use hnu_middleware.Shm.Memory.System.{Got, created, refused, einval, eexist, other_error}
use hnu_middleware.Shm.Memory.Objects.{Objects}
use hnu_middleware.Shm.Memory.{
  Sizes, Contents, Members, new_state, new_blocks, count_reference, blocks_address, fill_buf_addrs,
  forget,
}

module _ {W : Type 0} (os : Objects W Contents) where
  unfoldable pub unmap : Pointer → ℕ → W → W
  unmap null size w = w
  unmap failed size w = os.munmap failed size w
  unmap (address base) size w = os.munmap (address base) size w

  unfoldable pub reset : Members → W → Members × W
  reset x w = (forget x, unmap x.managed_shm x.conf.managed_shm_size w)

  unfoldable pub remove : ℕ → W → Bool × W
  remove name w = os.shm_unlink name w

  -- `OpenOnly` from the pointer that `mmap` gives
  unfoldable pub map_only : Sizes → ℕ → ℕ → Pointer → Members → W → Bool × Members × W
  map_only sizes fd size failed x w = (false, record x { managed_shm = failed }, os.close fd w)
  map_only sizes fd size null x w =
      (false, record x { state = null; managed_shm = null }, os.munmap null size (os.close fd w))
  map_only sizes fd size (address base) x w =
      let closed = os.close fd w in
      (
        true,
        record x {
          init = true;
          conf = conf_of (os.load base closed).ceiling_msg_size;
          state = address base;
          blocks = address (blocks_address sizes base);
          managed_shm = address base;
        },
        os.store base (count_reference (os.load base closed)) closed,
      )

  -- ... from the size that `fstat` gives
  unfoldable pub stat_only : Sizes → ℕ → Option ℕ → Members → W → Bool × Members × W
  stat_only sizes fd none x w = (false, x, os.close fd w)
  stat_only sizes fd (some size) x w =
      map_only sizes fd size (os.mmap size fd w).0 x (os.mmap size fd w).1

  -- ... and from the descriptor that `shm_open` gives
  unfoldable pub get_only : Sizes → Option ℕ → Members → W → Bool × Members × W
  get_only sizes none x w = (false, x, w)
  get_only sizes (some fd) x w = stat_only sizes fd (os.fstat fd w) x w

  unfoldable pub open_only : Sizes → ℕ → Members → W → Bool × Members × W
  open_only sizes name x w =
      if x.init
      then (true, x, w)
      else get_only sizes (os.shm_open name w).0 x (os.shm_open name w).1

  -- `OpenOrCreate` from the pointer to the new memory
  unfoldable pub map_new : Sizes → ℕ → ℕ → Pointer → Members → W → Bool × Members × W
  map_new sizes name fd failed x w =
      (false, record x { managed_shm = failed }, (os.shm_unlink name (os.close fd w)).1)
  map_new sizes name fd null x w = (
    false,
    record x { state = null; managed_shm = null },
    (os.shm_unlink name (os.munmap null x.conf.managed_shm_size (os.close fd w))).1,
  )
  map_new sizes name fd (address base) x w =
      let closed = os.close fd w in
      let placed = os.store base (new_state x.conf.ceiling_msg_size (os.load base closed)) closed in
      let built = os.store base (new_blocks x.conf.block_num (os.load base placed)) placed in
      (
        true,
        record x {
          init = true;
          state = address base;
          blocks = address (blocks_address sizes base);
          managed_shm = address base;
          block_buf_addrs = fill_buf_addrs sizes x.conf base x.conf.block_num x.block_buf_addrs;
        },
        os.store base (count_reference (os.load base built)) built,
      )

  -- ... from the result of `ftruncate`
  unfoldable pub truncated : Sizes → ℕ → ℕ → Bool → Members → W → Bool × Members × W
  truncated sizes name fd false x w = (false, x, os.close fd w)
  truncated sizes name fd true x w =
      let size = x.conf.managed_shm_size in
      map_new sizes name fd (os.mmap size fd w).0 x (os.mmap size fd w).1

  -- ... and from the descriptor of the new memory
  unfoldable pub got_new : Sizes → ℕ → Got → Members → W → Bool × Members × W
  got_new sizes name (created fd) x w =
      let cut = os.ftruncate fd x.conf.managed_shm_size w in truncated sizes name fd cut.0 x cut.1
  got_new sizes name (refused eexist) x w = open_only sizes name x w
  got_new sizes name (refused einval) x w = (false, x, w)
  got_new sizes name (refused other_error) x w = (false, x, w)

  unfoldable pub open_or_create : Sizes → ℕ → Members → W → Bool × Members × W
  open_or_create sizes name x w =
      if x.init
      then (true, x, w)
      else got_new sizes name (os.shm_open_excl name w).0 x (os.shm_open_excl name w).1
