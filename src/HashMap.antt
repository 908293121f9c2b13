-- ===== src/HashMap.antt =====
-- `AtomicHashMap<K, V, TableSize>` (base/atomic_hash_map.h), one call at a time: a table of buckets,
-- each a linked list of entries in ascending order of their keys behind a sentinel node.
-- The library uses it with `uint64_t` keys, which are numbers here.
pub mod Bucket
pub mod Table
pub mod Register
