-- ===== src/Storage/Memory.antt =====
-- src/storage/in_memory_table.cpp and in_memory_storage.cpp: tables kept as vectors of rows.
pub mod Defs
pub mod Unique
pub mod Rows
mod Tests
