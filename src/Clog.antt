-- ===== src/Clog.antt =====
-- storage/clog: the redo log, from its records to the recovery of a database.
pub mod LogRecord
pub mod LogBuffer
pub mod Manager
pub mod Redo
pub mod Recover
