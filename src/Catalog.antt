-- ===== src/Catalog.antt =====
-- src/catalog: the databases, their tables and the selected database.
--
-- An operation takes the catalog and returns the new one with its result; a result that is `none` is
-- success, as in the source.
pub mod Schema
pub mod Defs
pub mod WellFormed
pub mod Calls
pub mod Lookup
mod Tests
