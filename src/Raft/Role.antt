-- ===== src/Raft/Role.antt =====
-- Roles, timers, Start, Kill, GetState (raft.go, common.go).
use sjytker_my_mit.Base.{
  ℕ, ◌+◌, Bool, true, false, Option, none, some, List, [], ◌∷◌, ◌++◌, ltb, if◌then◌else◌, ◌>>=◌,
  length, set, replicate, pos, minus_one,
}
use sjytker_my_mit.Raft.State.{
  Role, leader, follower, candidate, Command, LogEntry, Persister, reset_election, reset_append,
  append_now, Raft,
}
use sjytker_my_mit.Raft.Log.{last_log_term_index}
use sjytker_my_mit.Raft.Persist.{Gob, PersistData, persist, read_persist}

abbrev pub is_leader : Role → Bool
is_leader leader = true
is_leader _ = false

abbrev pub is_candidate : Role → Bool
is_candidate candidate = true
is_candidate _ = false

-- A slice write: out of range it panics.
unfoldable pub set_at {ℓ} : {A : Type ℓ} → List A → ℕ → A → Option (List A)
set_at xs i v = if ltb i (length xs) then some (set xs i v) else none

module _ {C B : Type 0} where
  unfoldable pub reset_election_timer : Raft C B → Raft C B
  reset_election_timer rf = record rf { timers = reset_election ∷ rf.timers }

  unfoldable pub reset_append_timer : ℕ → Raft C B → Raft C B
  reset_append_timer index rf = record rf { timers = reset_append index ∷ rf.timers }

  -- AENow: every peer's append timer fires at once.
  unfoldable pub append_entries_now : Raft C B → Raft C B
  append_entries_now rf = record rf { timers = append_now ∷ rf.timers }

  unfoldable pub get_state : Raft C B → ℕ × Bool
  get_state rf = (rf.current_term, is_leader rf.state)

  -- changeRole; a new leader expects every peer to have its whole log, and knows of nobody's.
  unfoldable pub change_role : Role → Raft C B → Option (Raft C B)
  unfolding reset_election_timer set_at last_log_term_index
  change_role follower rf = some (record rf { state = follower })
  change_role candidate rf = some (
      reset_election_timer
        (record rf { state = candidate; current_term = rf.current_term + 1; vote_for = pos rf.me }))
  change_role leader rf = do
    (last_term, last_log_index) ← last_log_term_index rf
    matched ← set_at (replicate rf.peers (pos 0)) rf.me (pos last_log_index)
    some (
        reset_election_timer (record rf {
          state = leader;
          next_index = replicate rf.peers (pos (last_log_index + 1));
          match_index = matched;
        }))

  -- rf.notifyApplyCh <- struct{}{}, for a channel of capacity 10: `none` where it is full, and the
  -- send waits.
  unfoldable pub notify_apply : Raft C B → Option (Raft C B)
  notify_apply rf =
      if ltb rf.notified 10 then some (record rf { notified = rf.notified + 1 }) else none

  unfoldable pub kill : Raft C B → Raft C B
  kill rf = record rf { dead = true }

module _ {C B : Type 0} (gob : Gob (PersistData C) B) where
  -- Start: a leader appends the command to its own log; anyone answers with the index that the
  -- command would have.
  unfoldable pub start : Command C → Raft C B → Option (Raft C B × (ℕ × ℕ × Bool))
  unfolding persist append_entries_now set_at last_log_term_index
  start command rf = do
    (last_term, last_log_index) ← last_log_term_index rf
    let index = last_log_index + 1
    let answer : ℕ × ℕ × Bool = (index, rf.current_term, is_leader rf.state)
    if is_leader rf.state
        then (do
          next ← set_at rf.next_index rf.me (pos (index + 1))
          matched ← set_at rf.match_index rf.me (pos index)
          let entry : LogEntry C = record { command = command; term = rf.current_term }
          let rf' =
              persist gob
                (record rf { log = rf.log ++ entry ∷ []; next_index = next; match_index = matched })
          some (append_entries_now rf', answer))
        else some (rf, answer)

  -- Make: the state of a new peer, before the goroutines of Periodic start.
  unfoldable pub make : (peers me : ℕ) → Persister B → Option (Raft C B)
  unfolding read_persist
  make peers me persister = read_persist gob persister.raft_state (record {
    peers = peers;
    me = me;
    dead = false;
    state = follower;
    current_term = 0;
    vote_for = minus_one;
    log = record { command = Command.message ""; term = 0 } ∷ [];
    commit_index = 0;
    last_applied = 0;
    next_index = [];
    match_index = [];
    last_snapshot_index = 0;
    last_snapshot_term = 0;
    persister = persister;
    timers = [];
    notified = 0;
  })
