-- ===== src/Storage/BufferPool.antt =====
-- src/storage/buffer_pool.cpp: the buffer pool.
pub mod Defs
pub mod Coherent
pub mod Victim
pub mod Fetch
pub mod Bounded
pub mod Room
pub mod Calls
pub mod Pins
pub mod Pinned
mod Tests
