-- ===== src/Shm/Memory/Objects.antt =====
-- The calls of POSIX shared memory, as their manual pages document them: a parameter, on worlds `W` in
-- which memory holds a `C`. A name is the number whose decimal digits it is.
use hnu_middleware.Base.{ℕ, ◌+◌, ◌≡◌, ◌≢◌, Bool, true, false, update, Option, none, some}
use hnu_middleware.Shm.Memory.Pointers.{Pointer, null, failed, address}
use hnu_middleware.Shm.Memory.System.{Got, created, refused, Errno}

pub record Objects (W C : Type 0) : Type 0 where
  -- `shm_open(name, O_RDWR | O_CREAT | O_EXCL, 0644)`
  pub shm_open_excl : ℕ → W → Got × W
  -- `shm_open(name, O_RDWR, 0644)`, with none for -1
  pub shm_open : ℕ → W → Option ℕ × W
  -- `ftruncate(fd, size)`: whether it is not below 0
  pub ftruncate : ℕ → ℕ → W → Bool × W
  -- `fstat(fd, &file_attr)`, with `st_size`, and none where it is below 0
  pub fstat : ℕ → W → Option ℕ
  -- `mmap(nullptr, size, PROT_READ | PROT_WRITE, MAP_SHARED, fd, 0)`, with `failed` for `MAP_FAILED`
  pub mmap : ℕ → ℕ → W → Pointer × W
  pub close : ℕ → W → W
  pub munmap : Pointer → ℕ → W → W
  -- Whether it is not below 0
  pub shm_unlink : ℕ → W → Bool × W
  pub load : ℕ → W → C
  pub store : ℕ → C → W → W

-- What is documented of the calls: `is_open` tells which descriptors are open in a world, and `mappings`
-- counts the addresses that are mapped.
pub record Documented {W C : Type 0} (os : Objects W C) : Type 0 where
  pub is_open : W → ℕ → Bool
  pub mappings : W → ℕ
  pub excl_opened :
      (name fd : ℕ) (w : W)
      → (os.shm_open_excl name w).0 ≡ created fd
      → (is_open w fd ≡ false) × (is_open (os.shm_open_excl name w).1 ≡ update (is_open w) fd true)
  pub excl_refused :
      (name : ℕ) (e : Errno) (w : W)
      → (os.shm_open_excl name w).0 ≡ refused e
      → is_open (os.shm_open_excl name w).1 ≡ is_open w
  pub excl_mappings : (name : ℕ) (w : W) → mappings (os.shm_open_excl name w).1 ≡ mappings w
  pub open_found :
      (name fd : ℕ) (w : W)
      → (os.shm_open name w).0 ≡ some fd
      → (is_open w fd ≡ false) × (is_open (os.shm_open name w).1 ≡ update (is_open w) fd true)
  pub open_missing :
      (name : ℕ) (w : W)
      → (os.shm_open name w).0 ≡ none
      → is_open (os.shm_open name w).1 ≡ is_open w
  pub open_mappings : (name : ℕ) (w : W) → mappings (os.shm_open name w).1 ≡ mappings w
  pub ftruncate_same :
      (fd size : ℕ) (w : W)
      → (is_open (os.ftruncate fd size w).1 ≡ is_open w)
        × (mappings (os.ftruncate fd size w).1 ≡ mappings w)
  pub mmap_not_null : (size fd : ℕ) (w : W) → (os.mmap size fd w).0 ≢ null
  pub mmap_failed :
      (size fd : ℕ) (w : W)
      → (os.mmap size fd w).0 ≡ failed
      → mappings (os.mmap size fd w).1 ≡ mappings w
  pub mmap_address :
      (size fd base : ℕ) (w : W)
      → (os.mmap size fd w).0 ≡ address base
      → mappings (os.mmap size fd w).1 ≡ mappings w + 1
  pub mmap_same : (size fd : ℕ) (w : W) → is_open (os.mmap size fd w).1 ≡ is_open w
  -- After `close` that descriptor is not open, and the others are as they were.
  pub close_lem :
      (fd : ℕ) (w : W)
      → (is_open (os.close fd w) ≡ update (is_open w) fd false)
        × (mappings (os.close fd w) ≡ mappings w)
  pub unlink_same :
      (name : ℕ) (w : W)
      → (is_open (os.shm_unlink name w).1 ≡ is_open w)
        × (mappings (os.shm_unlink name w).1 ≡ mappings w)
  pub store_same :
      (base : ℕ) (c : C) (w : W)
      → (is_open (os.store base c w) ≡ is_open w) × (mappings (os.store base c w) ≡ mappings w)
