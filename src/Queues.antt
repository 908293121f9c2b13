-- ===== src/Queues.antt =====
-- base/bounded_queue.h and base/object_pool.h.
pub mod Bounded
pub mod Pool
pub mod Unbounded
pub mod Waits
