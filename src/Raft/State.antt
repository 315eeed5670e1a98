-- ===== src/Raft/State.antt =====
-- The data of 6.824/src/raft: roles, log entries, the peer's state and the RPC messages.
-- `C` is the type of the service's commands (`interface{}` in the code), `B` that of encoded bytes.
use Prim.Native.String.{String}
use sjytker_my_mit.Base.{ℕ, ℤ, Bool, Option, List}

-- const (LEADER = iota; FOLLOWER; CANDIDATE)
pub data Role : Type 0 where
  leader follower candidate : Role

-- What stands in a `Command interface{}`: the zero value, one of the code's own texts, a command.
pub data Command (C : Type 0) : Type 0 where
  nothing : Command C
  message : String → Command C
  op : C → Command C

pub record LogEntry (C : Type 0) : Type 0 where
  pub command : Command C
  pub term : ℕ

pub record ApplyMsg (C : Type 0) : Type 0 where
  pub command_valid : Bool
  pub command : Command C
  pub command_index : ℕ

-- What the code asks of its timers.
pub data TimerOp : Type 0 where
  reset_election : TimerOp
  reset_append : ℕ → TimerOp
  append_now : TimerOp
  reset_apply : TimerOp

pub record Persister (B : Type 0) : Type 0 where
  pub raft_state : Option B
  pub snapshot : Option B

-- `timers` lists what the peer did to its timers, newest first, and `notified` is how much is on
-- notifyApplyCh, whose capacity is 10; the goroutines that wait on them are separate steps.
pub record Raft (C B : Type 0) : Type 0 where
  pub peers : ℕ
  pub me : ℕ
  pub dead : Bool
  pub state : Role
  pub current_term : ℕ
  pub vote_for : ℤ
  pub log : List (LogEntry C)
  pub commit_index : ℕ
  pub last_applied : ℕ
  pub next_index : List ℤ
  pub match_index : List ℤ
  pub last_snapshot_index : ℕ
  pub last_snapshot_term : ℕ
  pub persister : Persister B
  pub timers : List TimerOp
  pub notified : ℕ

pub record RequestVoteArgs : Type 0 where
  pub term : ℕ
  pub candidate_id : ℕ
  pub last_log_index : ℕ
  pub last_log_term : ℕ

pub record RequestVoteReply : Type 0 where
  pub term : ℕ
  pub vote_granted : Bool

pub record AppendEntriesArgs (C : Type 0) : Type 0 where
  pub term : ℕ
  pub leader_id : ℕ
  pub prev_log_index : ℕ
  pub prev_log_term : ℕ
  pub entries : List (LogEntry C)
  pub leader_commit : ℕ

pub record AppendEntriesReply : Type 0 where
  pub success : Bool
  pub term : ℕ
  pub x_term : ℤ
  pub x_index : ℤ
  pub x_len : ℤ
  pub next_index : ℤ

pub record InstallSnapshotArgs (B : Type 0) : Type 0 where
  pub term : ℕ
  pub leader_id : ℕ
  pub last_include_index : ℕ
  pub last_include_term : ℕ
  pub snapshot : Option B
  pub done : Bool

pub record InstallSnapshotReply : Type 0 where
  pub term : ℕ
