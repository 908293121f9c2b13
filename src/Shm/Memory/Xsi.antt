-- ===== src/Shm/Memory/Xsi.antt =====
-- `XsiSegment` (transport/shm/segment/xsi_segment.cpp): a segment in System V shared memory.
pub mod Steps
pub mod Balance
pub mod Opening
pub mod Agreement
pub mod Outcome
pub mod Calls
pub mod Others
pub mod Regrown
pub mod Faults
use hnu_middleware.Base.{
  ℕ, zero, suc, ◌%◌, ◌^◌, Bool, true, false, Option, none, some, if◌then◌else◌,
}
use hnu_middleware.Shm.Conf.{conf_of}
use hnu_middleware.Shm.Memory.Pointers.{Pointer, null, failed, address}
use hnu_middleware.Shm.Memory.System.{
  System, Got, created, refused, einval, eexist, other_error, detach, remove_id,
}
use hnu_middleware.Shm.Memory.{
  Sizes, Contents, Members, new_state, new_blocks, count_reference, blocks_address, fill_buf_addrs,
  forget,
}

-- The bits of `key_`, a 32-bit integer
unfoldable pub key_of : ℕ → ℕ
key_of channel_id = channel_id % 2 ^ 32

module _ {W : Type 0} (os : System W Contents) where
  unfoldable pub reset : Members → W → Members × W
  reset x w = (forget x, detach os x.managed_shm w)

  unfoldable pub remove : ℕ → W → Bool × W
  remove key w = remove_id os (os.shmget key w) w

  -- `OpenOnly` from the pointer that `shmat` gives
  unfoldable pub attach_only : Sizes → Pointer → Members → W → Bool × Members × W
  attach_only sizes failed x w = (false, record x { managed_shm = failed }, w)
  attach_only sizes null x w =
      (false, record x { state = null; managed_shm = null }, os.shmdt null w)
  attach_only sizes (address base) x w =
      let conf = conf_of (os.load base w).ceiling_msg_size in
      (
        true,
        record {
          init = true;
          conf = conf;
          state = address base;
          blocks = address (blocks_address sizes base);
          managed_shm = address base;
          block_buf_addrs = fill_buf_addrs sizes conf base conf.block_num x.block_buf_addrs;
        },
        os.store base (count_reference (os.load base w)) w,
      )

  -- ... and from the id that `shmget` gives
  unfoldable pub get_only : Sizes → Option ℕ → Members → W → Bool × Members × W
  get_only sizes none x w = (false, x, w)
  get_only sizes (some shmid) x w = attach_only sizes (os.shmat shmid w).0 x (os.shmat shmid w).1

  unfoldable pub open_only : Sizes → ℕ → Members → W → Bool × Members × W
  open_only sizes key x w = if x.init then (true, x, w) else get_only sizes (os.shmget key w) x w

  -- `OpenOrCreate` from the pointer to the new memory
  unfoldable pub attach_new : Sizes → ℕ → Pointer → Members → W → Bool × Members × W
  attach_new sizes shmid failed x w =
      (false, record x { managed_shm = failed }, (os.shmctl_rmid shmid w).1)
  attach_new sizes shmid null x w = (
    false,
    record x { state = null; managed_shm = null },
    (os.shmctl_rmid shmid (os.shmdt null w)).1,
  )
  attach_new sizes shmid (address base) x w =
      let placed = os.store base (new_state x.conf.ceiling_msg_size (os.load base w)) w in
      let conf = conf_of (os.load base placed).ceiling_msg_size in
      let built = os.store base (new_blocks conf.block_num (os.load base placed)) placed in
      (
        true,
        record {
          init = true;
          conf = conf;
          state = address base;
          blocks = address (blocks_address sizes base);
          managed_shm = address base;
          block_buf_addrs = fill_buf_addrs sizes conf base conf.block_num x.block_buf_addrs;
        },
        os.store base (count_reference (os.load base built)) built,
      )

  -- The loop of `OpenOrCreate`, with the number of tries it has left, and what follows it
  unfoldable pub create : Sizes → ℕ → ℕ → Members → W → Bool × Members × W
  create sizes key zero x w = (false, x, w)
  create sizes key (suc tries) x w =
      let (got, w') = os.shmget_excl key x.conf.managed_shm_size w in
      elim got [
        | created shmid ↦ attach_new sizes shmid (os.shmat shmid w').0 x (os.shmat shmid w').1
        | refused errno ↦ elim errno [
          | einval ↦ let (x1, w1) = reset x w' in create sizes key tries x1 (remove key w1).1
          | eexist ↦ open_only sizes key x w'
          | other_error ↦ (false, x, w')
        ]
      ]

  unfoldable pub open_or_create : Sizes → ℕ → Members → W → Bool × Members × W
  open_or_create sizes key x w = if x.init then (true, x, w) else create sizes key 2 x w
