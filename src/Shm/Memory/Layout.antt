-- ===== src/Shm/Memory/Layout.antt =====
-- Where the parts of a segment lie in its memory, and that no two of them overlap.
use hnu_middleware.Base.{
  ℕ, zero, suc, ◌+◌, ◌*◌, ◌<◌, ◌≤◌, ◌≡◌, refl, subst, ◌∙◌, Option, some, update, update_self,
  update-other, ℕ_discrete, arith,
}
use hnu_middleware.Shm.Conf.{
  ShmConf, conf_of, get_ceiling_message_size, get_block_buf_size, get_block_num, state_size,
  block_size,
}
use hnu_middleware.Shm.Memory.Pointers.{Pointer, address}
use hnu_middleware.Shm.Memory.{
  Sizes, Contents, buf_address, fill_buf_addrs, blocks_address, new_blocks,
}

-- A creator's memory, of the size that its configuration asks for, holds all parts of the segment, and
-- no two of them overlap, for every message size: the blocks lie behind the `State`, the buffers behind
-- the last block, each buffer before the next, and the last ends inside the memory. The sizes of `State`
-- and `Block` are those that the configuration has room for.
pub buf_address-fits :
    (sizes : Sizes) (real_msg_size base i j : ℕ)
    → sizes.state ≤ state_size
    → sizes.block ≤ block_size
    → i < j
    → j < (conf_of real_msg_size).block_num
    → let conf = conf_of real_msg_size in
      (blocks_address sizes base + conf.block_num * sizes.block ≤ buf_address sizes conf base i)
      × (buf_address sizes conf base i + conf.block_buf_size ≤ buf_address sizes conf base j)
      × (buf_address sizes conf base j + conf.block_buf_size ≤ base + conf.managed_shm_size)
unfolding buf_address blocks_address conf_of get_ceiling_message_size get_block_buf_size
    get_block_num
buf_address-fits sizes real_msg_size base i j fits_state fits_block before below = ground arith

-- After its first `n` turns the loop has set the addresses of the first `n` buffers, and left the others.
pub fill_lem :
    (sizes : Sizes) (conf : ShmConf) (base n : ℕ) (bufs : ℕ → Option Pointer) (i : ℕ)
    → i < n
    → fill_buf_addrs sizes conf base n bufs i ≡ some (address (buf_address sizes conf base i))
unfolding fill_buf_addrs
fill_lem sizes conf base zero bufs i below = absurd (omega arith)
fill_lem sizes conf base (suc n) bufs i below = elim (ℕ_discrete n i) [
  | yes e ↦
      subst
        (λ k.
          update (fill_buf_addrs sizes conf base n bufs) n
            (some (address (buf_address sizes conf base n))) k
          ≡ some (address (buf_address sizes conf base k)))
        e
        (update_self (fill_buf_addrs sizes conf base n bufs) n
          (some (address (buf_address sizes conf base n))))
  | no ne ↦
      update-other (fill_buf_addrs sizes conf base n bufs) n i
        (some (address (buf_address sizes conf base n))) ne
      ∙ fill_lem sizes conf base n bufs i (omega arith)
]

pub new_blocks-free : (n : ℕ) (c : Contents) (i : ℕ) → i < n → (new_blocks n c).locks i ≡ 0
unfolding new_blocks
new_blocks-free zero c i below = absurd (omega arith)
new_blocks-free (suc n) c i below = elim (ℕ_discrete n i) [
  | yes e ↦
      subst (λ k. update (new_blocks n c).locks n 0 k ≡ 0) e
        (update_self (new_blocks n c).locks n 0)
  | no ne ↦ update-other (new_blocks n c).locks n i 0 ne ∙ new_blocks-free n c i (omega arith)
]

pub new_blocks-state :
    (n : ℕ) (c : Contents)
    → ((new_blocks n c).state ≡ c.state) × ((new_blocks n c).ceiling_msg_size ≡ c.ceiling_msg_size)
unfolding new_blocks
new_blocks-state zero c = (refl, refl)
new_blocks-state (suc n) c = (refl, refl)
