-- ===== src/Node.antt =====
-- The package node.
pub mod Acquirement
pub mod Context
pub mod State
pub mod Config
pub mod Connection
pub mod CliSrvClient
pub mod P2pClient
pub mod Interchange
pub mod Messages
pub mod P2pServer
pub mod Replication
pub mod Election
pub mod Recovery
pub mod ClientServer
