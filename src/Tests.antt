-- ===== src/Tests.antt =====
-- Runs of the definitions at fixed inputs, and the theorems applied to some.
mod Serialize
mod Queues
mod HashMap
mod Shm
mod Locks
mod Segment
mod Listeners
mod Delivery
mod Rtps
mod SystemV
mod Memory
mod Multicast
