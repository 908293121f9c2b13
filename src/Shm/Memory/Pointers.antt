-- ===== src/Shm/Memory/Pointers.antt =====
-- What a pointer into shared memory can be: `nullptr`, the -1 of a call that fails, or an address.
use hnu_middleware.Base.{ℕ}

pub data Pointer : Type 0 where
  null failed : Pointer
  address : ℕ → Pointer
