-- ===== src/Raft.antt =====
-- One Raft peer: the state and the handlers of 6.824/src/raft.
pub mod State
pub mod Log
pub mod Persist
pub mod Role
pub mod Vote
pub mod Append
pub mod Leader
pub mod Snapshot
pub mod Apply
pub mod Ballot
pub mod Handler
pub mod Elect
pub mod Cluster
pub mod Complete
pub mod Total
pub mod Examples
