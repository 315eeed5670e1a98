-- ===== src/ShardKv.antt =====
-- The sharded key-value server (6.824/src/shardkv): a group of servers that holds some of the shards,
-- and hands shards over to other groups when the configuration changes.
pub mod State
pub mod Store
pub mod Requests
pub mod Migrate
pub mod Ownership
pub mod Recovery
pub mod Once
pub mod Clerk
pub mod Asking
mod AskingExamples
mod Examples
