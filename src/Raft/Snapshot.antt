-- ===== src/Raft/Snapshot.antt =====
-- snapshot.go: log compaction, and snapshots sent to a follower that is too far behind.
pub mod Compact
use sjytker_my_mit.Base.{
  ℕ, ◌+◌, ◌-◌, false, Option, none, some, List, [], ◌∷◌, ltb, leb, if◌then◌else◌, ◌>>=◌, length,
  drop, pos, pos_part,
}
use sjytker_my_mit.Raft.State.{
  follower, Command, LogEntry, Raft, InstallSnapshotArgs, InstallSnapshotReply,
}
use sjytker_my_mit.Raft.Log.{get_real_log_index, log_at}
use sjytker_my_mit.Raft.Persist.{
  Gob, PersistData, persist, get_persist_data, save_state_and_snapshot,
}
use sjytker_my_mit.Raft.Role.{reset_election_timer, change_role}
use sjytker_my_mit.Raft.Leader.{set_next}

module _ {C B : Type 0} (gob : Gob (PersistData C) B) where
  unfoldable pub save_with_snapshot : Option B → Raft C B → Raft C B
  unfolding get_persist_data save_state_and_snapshot
  save_with_snapshot snapshot rf = record rf {
    persister = save_state_and_snapshot (get_persist_data gob rf) snapshot rf.persister;
  }

  -- SaveStateAndSnapshot: the service has applied the log up to `index` and gives its snapshot.
  unfoldable pub compact : ℕ → B → Raft C B → Option (Raft C B)
  unfolding save_with_snapshot get_real_log_index log_at
  compact index snapshot rf = if ltb index rf.last_snapshot_index then some rf else (do
    last_log ← log_at rf (get_real_log_index rf index)
    some (
        save_with_snapshot (some snapshot) (record rf {
          log = drop (pos_part (get_real_log_index rf index)) rf.log;
          last_snapshot_index = index;
          last_snapshot_term = last_log.term;
        })))

  -- The log that a follower keeps behind the snapshot that it installs.
  unfoldable pub log_after_install : InstallSnapshotArgs B → Raft C B → List (LogEntry C)
  log_after_install args rf =
      let offset = args.last_include_index - rf.last_snapshot_index in
      if leb (length rf.log) offset
      then record { command = Command.nothing; term = args.last_include_term } ∷ []
      else drop offset rf.log

  unfoldable pub install_snapshot :
      InstallSnapshotArgs B → Raft C B → Option (Raft C B × InstallSnapshotReply)
  unfolding log_after_install save_with_snapshot change_role reset_election_timer persist
  install_snapshot args rf = do
    let reply : InstallSnapshotReply = record { term = rf.current_term }
    if ltb args.term rf.current_term then some (rf, reply) else (do
      let newer = ltb rf.current_term args.term
      rf' ←
          (if newer
            then (do
              f ← change_role follower rf
              some (reset_election_timer (record f { current_term = args.term })))
            else some rf)
      let rf'' =
          if leb args.last_include_index rf'.last_snapshot_index
          then rf'
          else save_with_snapshot args.snapshot (record rf' {
            log = log_after_install args rf';
            last_snapshot_index = args.last_include_index;
            last_snapshot_term = args.last_include_term;
          })
      some ((if newer then persist gob rf'' else rf''), reply))

module _ {C B : Type 0} where
  -- InstallSnapshotToPeers up to the call.
  unfoldable pub prepare_install : Raft C B → InstallSnapshotArgs B
  prepare_install rf = record {
    term = rf.current_term;
    leader_id = rf.me;
    last_include_index = rf.last_snapshot_index;
    last_include_term = rf.last_snapshot_term;
    snapshot = rf.persister.snapshot;
    done = false;
  }

  -- InstallSnapshotToPeers after it; `none` is the timeout, where the reply keeps its zero term.
  unfoldable pub handle_install_reply :
      ℕ → Option InstallSnapshotReply → Raft C B → Option (Raft C B)
  unfolding set_next change_role reset_election_timer
  handle_install_reply index none rf = some rf
  handle_install_reply index (some reply) rf = do
    rf' ← set_next index (pos (rf.last_snapshot_index + 1)) rf
    if ltb rf'.current_term reply.term
        then (do
          f ← change_role follower (record rf' { current_term = reply.term })
          some (reset_election_timer f))
        else some rf'
