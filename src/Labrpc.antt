-- ===== src/Labrpc.antt =====
-- The simulated network of the services: 6.824/src/labrpc/labrpc.go.
pub mod Network
pub mod Server
pub mod Request
pub mod Deleted
pub mod Alone
pub mod System
pub mod Calls
mod Examples
