-- ===== src/ShardMaster.antt =====
-- The replicated service that assigns shards to groups of servers (6.824/src/shardmaster).
pub mod Config
pub mod Adjust
pub mod Server
pub mod History
pub mod Runs
pub mod Clerk
pub mod Asking
mod AskingExamples
mod Examples
