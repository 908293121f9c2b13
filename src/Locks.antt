-- ===== src/Locks.antt =====
-- The two reader-writer locks, each an `int32_t` that counts its readers and is -1 under a writer:
-- `AtomicRWLock` (base/atomic_rw_lock.h) and the lock of a `Block` (transport/shm/core/block.cpp).
-- Any number of threads below 2^31 take and release them, one access to a shared variable at a time.
pub mod Counting
pub mod Block
pub mod Atomic
