-- ===== src/Lib.antt =====
-- A library of models and proofs for HNU-Middleware, a communication middleware in C++ (Linux).
--
-- The program's parts: publishers serialize a message with a data stream (serialize/) and write it to a
-- block of a shared-memory segment (transport/shm/core), whose lock and size come from `Block` and
-- `ShmConf`; a notifier (transport/shm/notifier) tells the readers which block to read; a dispatcher
-- (transport/dispatcher) reads it and calls the listeners. Channels and nodes have ids from a registry
-- (common/global_data.cpp) over a hash map (base/atomic_hash_map.h). base/ also has queues for
-- threads and a reader-writer lock.
--
-- The files:
--   Base: numbers, lists, options, Boolean tests that all parts use.
--   Serialize: `DataStream` of serialize/data_stream.h, serialize/data_stream.cpp. Stream is the
--     buffer (`reserve`, `write(const char*, int)`, `read(char*, int)`), Operators `<<` and `>>`,
--     Words the scalars, Text the strings, Containers the vectors, lists, sets and maps, Custom the `SERIALIZE` macro of
--     serialize/serializable.h, Codec what a type's write and read promise, RoundTrip what follows.
--   Transport: `QosProfile` and `RoleAttributes` of transport/config (Attributes), the profiles of
--     transport/qos/qos_profile_conf.cpp (Presets), and `AttributesFiller` of
--     transport/rtps/attributes_filler.cpp (Rtps).
--   Queues: `BoundedQueue` of base/bounded_queue.h, as steps of single accesses to shared memory
--     (Bounded), `ObjectPool` of base/object_pool.h and `UnboundedQueue` of base/unbounded_queue.h, one
--     call at a time (Pool, Unbounded), and the strategies of base/wait_strategy.h under the waiting
--     calls of the bounded queue (Waits).
--   HashMap: `AtomicHashMap` of base/atomic_hash_map.h (Bucket, Table), one call at a time, and
--     `RegisterChannel`, `RegisterNode`, `GetChannelById` of common/global_data.cpp (Register).
--   Locks: `AtomicRWLock` of base/atomic_rw_lock.h (Atomic) and the lock of `Block` of
--     transport/shm/core/block.cpp (Block), as steps; Counting is what they share.
--   Shm: `ShmConf` (Conf), `ReadableInfo` (Readable), `MessageInfo` (Message), a message through a
--     block, from `ShmTransmitter::Transmit` to `ShmDispatcher::ReadMessage` (Transfer),
--     `ConditionNotifier` (Notifier), and `Segment` and `State` (Segment). Memory has the classes
--     that open shared memory: `XsiSegment` and `PosixSegment` of transport/shm/segment (Xsi,
--     Posix), and the opening of a `ConditionNotifier` (Indicators); System and Objects are the
--     calls of System V and of POSIX memory, with what is documented of them, Layout says where the
--     parts of a segment lie, and Xsi/Calls is the base class over an `XsiSegment`. Multicast is
--     `MulticastNotifier` of transport/shm/notifier/multicast_notifier.cpp over calls on sockets.
--     Delivery puts these together with the dispatcher: `Transmit`, and on the other side a turn of
--     `ShmDispatcher::ThreadFunc` (Thread); Steps, Transmit, Read, Heard and Deliver follow a
--     message.
--   Listeners: `Signal`, `Connection` and `Slot` of base/signal.h (Signal, with Laws and Found),
--     `ListenerHandler` of transport/message/listener_handler.h (Handler), `Dispatcher` of
--     transport/dispatcher/dispatcher.h and `OnMessage` of transport/dispatcher/shm_dispatcher.cpp
--     (Dispatcher). Handler/Promise and Dispatcher/Promise are lists of listeners, the abstract view;
--     Handler/Rep and Dispatcher/Channels relate the code's state to them, and Refine follows runs.
--   Tests: runs at fixed inputs.
--
-- How the code is modelled: a byte is a number below 256 and a machine word a natural number with
-- its wrap-around written out; a signed word is its bit pattern. A call on an object is a function
-- from its state to its result and state; `none` is an access that C++ leaves undefined (a word
-- read from an unaligned address is not counted among these). Calls that
-- threads make at once are steps of a relation, one access to shared memory in each, all in one
-- order (the weaker orders of memory that C++ allows are not modelled). Slots and signals have
-- addresses in a heap, and what callbacks change is a type of its own, so a run of callbacks is a
-- function on it. `common::Hash` is a parameter, and so are the byte orders of the hosts, the system
-- calls for shared memory and sockets with what their manual pages say, the sizes of the compiler's
-- objects, and the constants of the Fast RTPS library. In Shm/Segment and Delivery the methods by
-- which a derived class opens memory, and what it finds there, are parameters too.
--
-- Bounds and fuel: `reserve` doubles the capacity at most 33 times, which passes every power of two
-- of an `int`; messages of up to 2^30 bytes are shown to fit, in a stream whose capacity is below 2^31. The loop of `RegisterChannel` has
-- fuel, and ends if an id that is free or its own lies within it, and so has the search for a free
-- block, which ends if, on a turn within it, the place is free and the weak compare-exchange does not
-- fail spuriously; which turns fail spuriously is a parameter there, as it is for the five tries of a
-- reader's lock. `Listen` has the list of what it
-- sees in each turn. `OpenOrCreate` tries to create memory at most twice, as the code does. Queue
-- runs have fewer than 2^64 - 2 steps, and locks fewer than 2^31 threads.
--
-- Not modelled: files, the console and the log; the Fast RTPS library and its glue; the release of
-- objects by smart pointers; callbacks that connect or disconnect while they are called; the
-- interleaving of calls on the hash map, the linked queue, the segment and the dispatcher; the
-- thread pool of base/.
pub mod Base
pub mod Serialize
pub mod Listeners
pub mod Transport
pub mod Queues
pub mod HashMap
pub mod Locks
pub mod Tests
pub mod Shm
