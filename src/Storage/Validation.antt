-- ===== src/Storage/Validation.antt =====
-- src/storage/row_validation.cpp: does a row fit a table's schema?
pub mod Defs
pub mod Fits
