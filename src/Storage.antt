-- ===== src/Storage.antt =====
-- The package storage.
pub mod Codec
pub mod Command
pub mod LogEntry
pub mod LogMemory
pub mod Disk
pub mod StateMap
