-- ===== src/Shm/Segment.antt =====
-- `Segment` (transport/shm/core/segment.cpp) and `State` (transport/shm/core/state.h), one call at a
-- time: the acquisition and release of blocks, and the count of references. What a derived class does
-- to open and remove the memory is a parameter: the methods `OpenOrCreate`, `OpenOnly`, `Remove`, `Reset`.
pub mod Blocks
use hnu_middleware.Base.{
  ℕ, zero, suc, ◌+◌, ◌-◌, ◌*◌, ◌%◌, ◌^◌, ◌<◌, ◌≤◌, ◌≡◌, ◌≢◌, refl, sym, ap, subst, ◌∙◌, Bool, true,
  false, not, ◌&&◌, Option, none, some, ltb, leb, ◌==◌, ◌>>=◌, if◌then◌else◌, update, update_self,
  update-other, ℕ_discrete, dec_lt, arith,
}
use hnu_middleware.Locks.Counting.{minus_one, increment, decrement, int_limit}
use hnu_middleware.Locks.Block.{max_try_lock_times}
use hnu_middleware.Shm.Conf.{ShmConf, conf_of}

-- `State`
pub record State : Type 0 where
  pub need_remap : Bool
  pub seq : ℕ
  pub reference_count : ℕ

unfoldable pub increase_reference_counts : State → State
increase_reference_counts s = record s { reference_count = (s.reference_count + 1) % 2 ^ 32 }

unfoldable pub decrease_reference_counts : State → State
decrease_reference_counts s =
    if s.reference_count == 0 then s else record s { reference_count = s.reference_count - 1 }

unfoldable pub fetch_add_seq : ℕ → State → State
fetch_add_seq diff s = record s { seq = (s.seq + diff) % 2 ^ 32 }

unfoldable pub set_need_remap : Bool → State → State
set_need_remap need s = record s { need_remap = need }

-- `init_`, `conf_`, the state, and `lock_num_` of each block
pub record Segment : Type 0 where
  pub init : Bool
  pub conf : ShmConf
  pub state : State
  pub locks : ℕ → ℕ

-- The methods of a derived class
pub record Memory : Type 0 where
  pub open_or_create : Segment → Bool × Segment
  pub open_only : Segment → Bool × Segment
  pub remove : Segment → Bool × Segment
  pub reset : Segment → Segment

-- `Block::TryLockForWrite` while no other thread is at the block; `lost` tells whether its weak
-- compare-exchange fails on a free block.
unfoldable pub try_lock_for_write : Bool → ℕ → Bool × ℕ
try_lock_for_write lost lock_num =
    if lock_num == 0 && not lost then (true, minus_one) else (false, lock_num)

-- The loop of `Block::TryLockForRead` with a number of tries left, while no other thread is at the block;
-- `lost` tells of each try whether the weak compare-exchange fails all the same.
unfoldable pub read_tries : ℕ → (ℕ → Bool) → ℕ → Bool × ℕ
read_tries zero lost lock_num = (false, lock_num)
read_tries (suc left) lost lock_num =
    let rest = read_tries left (λ k. lost (suc k)) lock_num in
    if lost 0 then rest else (true, increment lock_num)

unfoldable pub try_lock_for_read : (ℕ → Bool) → ℕ → Bool × ℕ
try_lock_for_read lost lock_num =
    if ltb lock_num int_limit
    then read_tries max_try_lock_times lost lock_num
    else (false, lock_num)

-- The loop of `GetNextWritableBlockIndex`, where `lost` tells of each turn whether the compare-exchange
-- fails on a free block; `none` where the fuel ends.
unfoldable pub get_next_writable_block_index : ℕ → (ℕ → Bool) → Segment → Option (ℕ × Segment)
unfolding try_lock_for_write
get_next_writable_block_index zero lost s = none
get_next_writable_block_index (suc fuel) lost s =
    let try_idx = s.state.seq % s.conf.block_num in
    let added = record s { state = fetch_add_seq 1 s.state } in
    let again = get_next_writable_block_index fuel (λ k. lost (suc k)) added in
    let tried = try_lock_for_write (lost 0) (s.locks try_idx) in
    if tried.0
    then some (try_idx, record added { locks = update s.locks try_idx tried.1 })
    else again

module _ (m : Memory) where
  unfoldable pub remap : Segment → Bool × Segment
  remap s = m.open_only (m.reset (record s { init = false }))

  unfoldable pub recreate : ℕ → Segment → Bool × Segment
  recreate msg_size s =
      let reset_one = m.reset (record s { init = false; state = set_need_remap true s.state }) in
      let removed = (m.remove reset_one).1 in
      m.open_or_create (record removed { conf = conf_of msg_size })

  -- `AcquireBlockToWrite`: false, or true with the block's index.
  unfoldable pub acquire_block_to_write : ℕ → (ℕ → Bool) → ℕ → Segment → Option (Option ℕ × Segment)
  acquire_block_to_write fuel lost msg_size s =
      let opened = if not s.init then m.open_or_create s else (true, s) in
      let mapped = if opened.1.state.need_remap then remap opened.1 else (true, opened.1) in
      let grown =
        if ltb mapped.1.conf.ceiling_msg_size msg_size
        then recreate msg_size mapped.1
        else mapped in
      let found = do
        (index, s') ← get_next_writable_block_index fuel lost grown.1
        some (some index, s')
      in if not opened.0
        then some (none, opened.1)
        else if not grown.0
        then some (none, grown.1)
        else found

  -- `AcquireBlockToRead` of the block `index`
  unfoldable pub acquire_block_to_read : (ℕ → Bool) → ℕ → Segment → Bool × Segment
  unfolding try_lock_for_read
  acquire_block_to_read lost index s =
      let opened = if not s.init then m.open_only s else (true, s) in
      let mapped = if opened.1.state.need_remap then remap opened.1 else (true, opened.1) in
      let tried = try_lock_for_read lost (mapped.1.locks index) in
      let locked =
        if tried.0
        then (true, record mapped.1 { locks = update mapped.1.locks index tried.1 })
        else (false, mapped.1) in
      if not opened.0
      then (false, opened.1)
      else if leb opened.1.conf.block_num index
      then (false, opened.1)
      else if not mapped.0
      then (false, mapped.1)
      else locked

  -- `Destroy`
  unfoldable pub destroy : Segment → Bool × Segment
  destroy s =
      let released = record s { init = false; state = decrease_reference_counts s.state } in
      if not s.init
      then (true, s)
      else if released.state.reference_count == 0
      then m.remove released
      else (true, released)

unfoldable pub release_written_block : ℕ → Segment → Segment
release_written_block index s =
    if leb s.conf.block_num index
    then s
    else record s { locks = update s.locks index (increment (s.locks index)) }

unfoldable pub release_read_block : ℕ → Segment → Segment
release_read_block index s =
    if leb s.conf.block_num index
    then s
    else record s { locks = update s.locks index (decrement (s.locks index)) }
