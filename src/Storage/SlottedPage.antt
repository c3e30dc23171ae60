-- ===== src/Storage/SlottedPage.antt =====
-- src/storage/slotted_page.cpp: variable-length records in a page of 4096 bytes.
--
-- Records grow from the end of the page towards the slot directory, which grows behind a header of
-- sixteen bytes. An operation returns the new page; where it fails the page is the old one.
pub mod Cells
pub mod Defs
pub mod Validity
pub mod Insert
pub mod Grow
pub mod Change
pub mod Spec
pub mod Ranges
pub mod Load
pub mod History
mod Tests
