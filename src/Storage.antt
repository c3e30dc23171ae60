-- ===== src/Storage.antt =====
-- include/curiodb/storage and src/storage.
pub mod Row
pub mod Serialization
pub mod SlottedPage
pub mod Validation
pub mod Memory
pub mod BufferPool
pub mod DiskManager
