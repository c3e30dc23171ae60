-- ===== src/Storage/Serialization.antt =====
-- src/storage/serialization.cpp: rows as bytes.
--
-- A reader is the bytes that it has not reached and the offset of the first of them. A failed read
-- leaves the reader as it was. A call returns the value and the reader behind it.
pub mod Defs
pub mod RoundTrip
pub mod Took
pub mod Canonical
mod Tests
