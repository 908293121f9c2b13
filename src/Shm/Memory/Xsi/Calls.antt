-- ===== src/Shm/Memory/Xsi/Calls.antt =====
-- `Segment::Remap`, `Recreate`, `Destroy` and the opening part of `AcquireBlockToWrite` and
-- `AcquireBlockToRead` (transport/shm/core/segment.cpp) of an `XsiSegment`, with the memory of the system
-- under them. `none` is a read or a write through a `state_` that is not an address; only `Destroy` tests
-- for that.
use hnu_middleware.Base.{
  ℕ, Bool, true, false, not, Option, none, some, ltb, leb, ◌==◌, ◌>>=◌, if◌then◌else◌,
}
use hnu_middleware.Shm.Conf.{conf_of}
use hnu_middleware.Shm.Segment.{set_need_remap, decrease_reference_counts}
use hnu_middleware.Shm.Memory.Pointers.{Pointer, null, failed, address}
use hnu_middleware.Shm.Memory.System.{System}
use hnu_middleware.Shm.Memory.{Sizes, Contents, Members}
use hnu_middleware.Shm.Memory.Xsi.{reset, remove, open_only, open_or_create}

module _ {W : Type 0} (os : System W Contents) where
  unfoldable pub contents_at : Pointer → W → Option (ℕ × Contents)
  contents_at null w = none
  contents_at failed w = none
  contents_at (address base) w = some (base, os.load base w)

  unfoldable pub remap : Sizes → ℕ → Members → W → Bool × Members × W
  remap sizes key x w =
      let (x1, w1) = reset os (record x { init = false }) w in open_only os sizes key x1 w1

  -- `Recreate` once `state_` is read
  unfoldable pub recreate_at :
      Sizes → ℕ → ℕ → Option (ℕ × Contents) → Members → W → Option (Bool × Members × W)
  recreate_at sizes key msg_size none x w = none
  recreate_at sizes key msg_size (some (base, c)) x w =
      let marked = os.store base (record c { state = set_need_remap true c.state }) w in
      let (x1, w1) = reset os (record x { init = false }) marked in
      let w2 = (remove os key w1).1 in
      some (open_or_create os sizes key (record x1 { conf = conf_of msg_size }) w2)

  unfoldable pub recreate : Sizes → ℕ → ℕ → Members → W → Option (Bool × Members × W)
  recreate sizes key msg_size x w = recreate_at sizes key msg_size (contents_at x.state w) x w

  -- The test of `need_remap`
  unfoldable pub remapped :
      Sizes → ℕ → Option (ℕ × Contents) → Members → W → Option (Bool × Members × W)
  remapped sizes key none x w = none
  remapped sizes key (some (base, c)) x w =
      some (if c.state.need_remap then remap sizes key x w else (true, x, w))

  -- The test of the message's size
  unfoldable pub grown : Sizes → ℕ → ℕ → Bool × Members × W → Option (Bool × Members × W)
  grown sizes key msg_size (result, x, w) =
      if ltb x.conf.ceiling_msg_size msg_size
      then recreate sizes key msg_size x w
      else some (result, x, w)

  -- `AcquireBlockToWrite` from the opening of the segment to the test of `result`
  unfoldable pub opened_to_write : Sizes → ℕ → ℕ → Bool × Members × W → Option (Bool × Members × W)
  opened_to_write sizes key msg_size (false, x, w) = some (false, x, w)
  opened_to_write sizes key msg_size (true, x, w) =
      remapped sizes key (contents_at x.state w) x w >>= grown sizes key msg_size

  unfoldable pub ready_to_write : Sizes → ℕ → ℕ → Members → W → Option (Bool × Members × W)
  ready_to_write sizes key msg_size x w =
      opened_to_write sizes key msg_size
        (if not x.init then open_or_create os sizes key x w else (true, x, w))

  -- `AcquireBlockToRead` of the block `index` from the opening of the segment to the test of `result`
  unfoldable pub opened_to_read : Sizes → ℕ → ℕ → Bool × Members × W → Option (Bool × Members × W)
  opened_to_read sizes key index (false, x, w) = some (false, x, w)
  opened_to_read sizes key index (true, x, w) =
      if leb x.conf.block_num index
      then some (false, x, w)
      else remapped sizes key (contents_at x.state w) x w

  unfoldable pub ready_to_read : Sizes → ℕ → ℕ → Members → W → Option (Bool × Members × W)
  ready_to_read sizes key index x w =
      opened_to_read sizes key index
        (if not x.init then open_only os sizes key x w else (true, x, w))

  -- `Destroy` once `state_` is read
  unfoldable pub destroy_at : ℕ → Option (ℕ × Contents) → Members → W → Option (Bool × Members × W)
  destroy_at key none x w = some (false, record x { init = false }, w)
  destroy_at key (some (base, c)) x w =
      let state = decrease_reference_counts c.state in
      let w1 = os.store base (record c { state = state }) w in
      let closed = record x { init = false } in
      let gone = remove os key w1 in
      some (if state.reference_count == 0 then (gone.0, closed, gone.1) else (true, closed, w1))

  unfoldable pub destroy : ℕ → Members → W → Option (Bool × Members × W)
  destroy key x w =
      if not x.init then some (true, x, w) else destroy_at key (contents_at x.state w) x w
