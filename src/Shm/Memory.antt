-- ===== src/Shm/Memory.antt =====
-- What a `Segment` (transport/shm/core/segment.h) has of its memory: the members that point into it,
-- what stands there, and the steps that the derived classes for System V and for POSIX memory share.
-- An address is a number, and one at an offset from an address is not null. The compiler's sizes of
-- `State` and `Block` are the parameter `Sizes`.
pub mod Pointers
pub mod System
pub mod Layout
pub mod Xsi
pub mod Objects
pub mod Posix
pub mod Indicators
use hnu_middleware.Base.{ℕ, zero, suc, ◌+◌, ◌*◌, Bool, true, false, Option, none, some, update}
use hnu_middleware.Shm.Memory.Pointers.{Pointer, null, address}
use hnu_middleware.Shm.Conf.{ShmConf, conf_of, default_conf}
use hnu_middleware.Shm.Segment.{State, increase_reference_counts}

-- `sizeof(State)` and `sizeof(Block)`
pub record Sizes : Type 0 where
  pub state : ℕ
  pub block : ℕ

-- What stands in the memory of a segment: the `State`, with its `ceiling_msg_size_`, and `lock_num_` of
-- each block
pub record Contents : Type 0 where
  pub state : State
  pub ceiling_msg_size : ℕ
  pub locks : ℕ → ℕ

-- The members of a `Segment`
pub record Members : Type 0 where
  pub init : Bool
  pub conf : ShmConf
  pub state : Pointer
  pub blocks : Pointer
  pub managed_shm : Pointer
  pub block_buf_addrs : ℕ → Option Pointer

unfoldable pub new_segment : Members
new_segment = record {
  init = false;
  conf = default_conf;
  state = null;
  blocks = null;
  managed_shm = null;
  block_buf_addrs = λ i. none;
}

-- `State(ceiling_msg_size)`
unfoldable pub new_state : ℕ → Contents → Contents
new_state ceiling c = record c {
  state = record { need_remap = false; seq = 0; reference_count = 0 };
  ceiling_msg_size = ceiling;
}

-- `Block[block_num]`; other places are as they were.
unfoldable pub new_blocks : ℕ → Contents → Contents
new_blocks zero c = c
new_blocks (suc i) c = record c { locks = update (new_blocks i c).locks i 0 }

unfoldable pub count_reference : Contents → Contents
count_reference c = record c { state = increase_reference_counts c.state }

-- Where the blocks and the buffer of the block `i` begin
unfoldable pub blocks_address : Sizes → ℕ → ℕ
blocks_address sizes base = base + sizes.state

unfoldable pub buf_address : Sizes → ShmConf → ℕ → ℕ → ℕ
buf_address sizes conf base i =
    base + sizes.state + conf.block_num * sizes.block + i * conf.block_buf_size

-- The loop that fills `block_buf_addrs_`, after its first turns
unfoldable pub fill_buf_addrs : Sizes → ShmConf → ℕ → ℕ → (ℕ → Option Pointer) → ℕ → Option Pointer
fill_buf_addrs sizes conf base zero bufs = bufs
fill_buf_addrs sizes conf base (suc i) bufs =
    update (fill_buf_addrs sizes conf base i bufs) i
      (some (address (buf_address sizes conf base i)))

-- `Reset`, but for the call that unmaps the memory
unfoldable pub forget : Members → Members
forget x = record x { state = null; blocks = null; managed_shm = null; block_buf_addrs = λ i. none }
