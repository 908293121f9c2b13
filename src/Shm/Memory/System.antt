-- ===== src/Shm/Memory/System.antt =====
-- The calls of System V shared memory, as their manual pages document them. The code uses them and does
-- not define them: they are a parameter, on worlds `W` in which memory holds a `C`. The address spaces
-- of all processes lie in one world, and addresses in two processes are two addresses.
use hnu_middleware.Base.{ℕ, ◌+◌, ◌≤◌, ◌≡◌, ◌≢◌, Bool, false, Option, none, some}
use hnu_middleware.Shm.Memory.Pointers.{Pointer, null, failed, address}

pub data Errno : Type 0 where
  einval eexist other_error : Errno

-- `IPC_PRIVATE`: memory that is made with this key is found by none.
abbrev pub ipc_private : ℕ
ipc_private = 0

-- The id of new memory, or -1 with `errno`
pub data Got : Type 0 where
  created : ℕ → Got
  refused : Errno → Got

pub record System (W C : Type 0) : Type 0 where
  -- `shmget(key, size, 0644 | IPC_CREAT | IPC_EXCL)`
  pub shmget_excl : ℕ → ℕ → W → Got × W
  -- `shmget(key, 0, 0644)`, with none for -1
  pub shmget : ℕ → W → Option ℕ
  -- `shmat(shmid, nullptr, 0)`
  pub shmat : ℕ → W → Pointer × W
  pub shmdt : Pointer → W → W
  -- `shmctl(shmid, IPC_RMID, 0)`: whether it is not -1
  pub shmctl_rmid : ℕ → W → Bool × W
  -- What stands at an address, and a store there
  pub load : ℕ → W → C
  pub store : ℕ → C → W → W

-- What is documented of the calls. In a world, `attached` is the memory that an address was attached to,
-- `attachments` counts the addresses that are attached, and `contents` and `size` are of the memory.
pub record Documented {W C : Type 0} (os : System W C) : Type 0 where
  pub attached : ℕ → W → Option ℕ
  pub attachments : W → ℕ
  pub contents : ℕ → W → C
  pub size : ℕ → W → ℕ
  pub created_found :
      (key bytes id : ℕ) (w : W)
      → key ≢ ipc_private
      → (os.shmget_excl key bytes w).0 ≡ created id
      → (os.shmget key (os.shmget_excl key bytes w).1 ≡ some id)
        × (bytes ≤ size id (os.shmget_excl key bytes w).1)
  pub shmget_same :
      (key bytes : ℕ) (w : W) → attachments (os.shmget_excl key bytes w).1 ≡ attachments w
  pub excl_kept :
      (key bytes base id : ℕ) (w : W)
      → attached base w ≡ some id
      → (attached base (os.shmget_excl key bytes w).1 ≡ some id)
        × (contents id (os.shmget_excl key bytes w).1 ≡ contents id w)
  pub created_new :
      (key bytes base id : ℕ) (w : W)
      → (os.shmget_excl key bytes w).0 ≡ created id
      → attached base w ≢ some id
  pub shmat_not_null : (id : ℕ) (w : W) → (os.shmat id w).0 ≢ null
  pub shmat_failed :
      (id : ℕ) (w : W) → (os.shmat id w).0 ≡ failed → attachments (os.shmat id w).1 ≡ attachments w
  pub shmat_address :
      (id base : ℕ) (w : W)
      → (os.shmat id w).0 ≡ address base
      → (attached base (os.shmat id w).1 ≡ some id)
        × (attachments (os.shmat id w).1 ≡ attachments w + 1)
  pub shmat_same :
      (id other key : ℕ) (w : W)
      → (contents other (os.shmat id w).1 ≡ contents other w)
        × (size other (os.shmat id w).1 ≡ size other w)
        × (os.shmget key (os.shmat id w).1 ≡ os.shmget key w)
  pub shmat_kept :
      (id base other : ℕ) (w : W)
      → attached base w ≡ some other
      → attached base (os.shmat id w).1 ≡ some other
  pub shmdt_kept :
      (base other id : ℕ) (w : W)
      → base ≢ other
      → attached other w ≡ some id
      → (attached other (os.shmdt (address base) w) ≡ some id)
        × (contents id (os.shmdt (address base) w) ≡ contents id w)
  pub shmdt_key : (p : Pointer) (key : ℕ) (w : W) → os.shmget key (os.shmdt p w) ≡ os.shmget key w
  pub rmid_kept :
      (id base other : ℕ) (w : W)
      → attached base w ≡ some other
      → (attached base (os.shmctl_rmid id w).1 ≡ some other)
        × (contents other (os.shmctl_rmid id w).1 ≡ contents other w)
  pub shmdt_address :
      (id base : ℕ) (w : W)
      → attached base w ≡ some id
      → attachments (os.shmdt (address base) w) + 1 ≡ attachments w
  pub rmid_same : (id : ℕ) (w : W) → attachments (os.shmctl_rmid id w).1 ≡ attachments w
  pub load_lem : (id base : ℕ) (w : W) → attached base w ≡ some id → os.load base w ≡ contents id w
  pub store_lem :
      (id base : ℕ) (c : C) (w : W)
      → attached base w ≡ some id
      → contents id (os.store base c w) ≡ c
  pub store_same :
      (base other key : ℕ) (c : C) (w : W)
      → (attached other (os.store base c w) ≡ attached other w)
        × (attachments (os.store base c w) ≡ attachments w)
        × (size key (os.store base c w) ≡ size key w)
        × (os.shmget key (os.store base c w) ≡ os.shmget key w)
  pub store_other :
      (id other base : ℕ) (c : C) (w : W)
      → attached base w ≡ some id
      → id ≢ other
      → contents other (os.store base c w) ≡ contents other w

-- `managed_shm_` after a `Reset` has unmapped what there was
unfoldable pub detach : {W C : Type 0} → System W C → Pointer → W → W
detach os null w = w
detach os failed w = os.shmdt failed w
detach os (address base) w = os.shmdt (address base) w

-- `Remove`, which finds the memory by its key
unfoldable pub remove_id : {W C : Type 0} → System W C → Option ℕ → W → Bool × W
remove_id os none w = (false, w)
remove_id os (some id) w = os.shmctl_rmid id w
