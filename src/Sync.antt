-- ===== src/Sync.antt =====
-- The tables and queues that the inception layer shares between threads:
-- crates/vrift-inception-layer/src/sync.
pub mod FdTable
pub mod RingBuffer
