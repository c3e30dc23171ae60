-- ===== src/Storage/DiskManager.antt =====
-- src/storage/disk_manager.cpp: the file of pages.
pub mod Defs
pub mod Laws
pub mod ByteFile
