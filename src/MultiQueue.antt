-- ===== src/MultiQueue.antt =====
-- util/multi_queue.cc: the cache of the tables' filter regions. HandleTable is its hash table,
-- State the queues and counters.
pub mod HandleTable
pub mod State
pub mod Shrink
pub mod Ops
pub mod Insert
pub mod Lists
pub mod Invariant
pub mod Unref
pub mod Usage
