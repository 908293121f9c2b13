-- ===== src/Shm.antt =====
-- The shared-memory transport: the layout of a segment, its locks, its messages and its notifier.
pub mod Conf
pub mod Pieces
pub mod Readable
pub mod Message
pub mod Transfer
pub mod Notifier
pub mod Segment
pub mod Memory
pub mod Multicast
pub mod Delivery
