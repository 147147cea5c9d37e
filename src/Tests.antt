-- ===== src/Tests.antt =====
-- Tests: the theorems at concrete inputs.
pub mod Apis
pub mod JsonLike
pub mod Samples
pub mod P2p
pub mod Answers
pub mod Locks
pub mod Maps
pub mod Logs
pub mod Disk
pub mod Elections
pub mod Clients
pub mod Reads
