-- ===== src/Record.antt =====
-- src/observer/storage/record: records in slotted pages.
pub mod Layout
pub mod Page
pub mod Scan
