-- ===== src/Raft/Handler.antt =====
-- The handlers of a peer other than those of an election, as one relation, and what all of them do
-- to the peer's ballot, in memory and on disk.
use sjytker_my_mit.Base.{
  ℕ, ◌≡◌, ◌⊎◌, inl, inr, Bool, true, Option, none, some, arith, pos, eqb_ℤ→eq,
}
use sjytker_my_mit.Raft.State.{
  follower, Command, ApplyMsg, Raft, RequestVoteArgs, RequestVoteReply, AppendEntriesArgs,
  AppendEntriesReply, InstallSnapshotArgs, InstallSnapshotReply,
}
use sjytker_my_mit.Raft.Persist.{Gob, PersistData, persist_data}
use sjytker_my_mit.Raft.Role.{kill, start}
use sjytker_my_mit.Raft.Vote.{request_vote, start_election}
use sjytker_my_mit.Raft.Append.{append_entries}
use sjytker_my_mit.Raft.Leader.{Next, prepare_append, handle_append_reply}
use sjytker_my_mit.Raft.Snapshot.{compact, install_snapshot, handle_install_reply}
use sjytker_my_mit.Raft.Apply.{applied, apply_timer, receive_notify}
use sjytker_my_mit.Raft.Ballot.{Follows, ballot}

-- One handler, run on `rf` and ending in `rf'`, with any message and any argument.
pub data Handles {C B : Type 0} (gob : Gob (PersistData C) B) (rf rf' : Raft C B) : Type 0 where
  append :
      (args : AppendEntriesArgs C) (r : AppendEntriesReply)
      → append_entries gob args rf ≡ some (rf', r)
      → Handles gob rf rf'
  snapshot :
      (args : InstallSnapshotArgs B) (r : InstallSnapshotReply)
      → install_snapshot gob args rf ≡ some (rf', r)
      → Handles gob rf rf'
  command :
      (c : Command C) (answer : ℕ × ℕ × Bool)
      → start gob c rf ≡ some (rf', answer)
      → Handles gob rf rf'
  sending :
      (index : ℕ) (args : Option (AppendEntriesArgs C))
      → prepare_append index rf ≡ some (rf', args)
      → Handles gob rf rf'
  append_answer :
      (index : ℕ) (args : AppendEntriesArgs C) (r : AppendEntriesReply) (next : Next)
      → handle_append_reply gob index args r rf ≡ some (rf', next)
      → Handles gob rf rf'
  snapshot_answer :
      (index : ℕ) (r : Option InstallSnapshotReply)
      → handle_install_reply index r rf ≡ some rf'
      → Handles gob rf rf'
  compaction : (index : ℕ) (bytes : B) → compact gob index bytes rf ≡ some rf' → Handles gob rf rf'
  delivery : (msg : ApplyMsg C) → applied msg rf ≡ rf' → Handles gob rf rf'
  election_of_leader : start_election gob rf ≡ some (rf', none) → Handles gob rf rf'
  killing : kill rf ≡ rf' → Handles gob rf rf'
  waking : (apply_timer rf ≡ some rf') ⊎ (receive_notify rf ≡ some rf') → Handles gob rf rf'

-- What a handler does: the ballot moves forward; the bytes on disk are left as they are or are those
-- of the new state; the role stays, in the same term, or becomes that of a follower.
pub record Moves {C B : Type 0} (gob : Gob (PersistData C) B) (rf rf' : Raft C B) : Type 0 where
  pub same_me : rf'.me ≡ rf.me
  pub same_peers : rf'.peers ≡ rf.peers
  pub forward : Follows (ballot rf) (ballot rf')
  pub stored :
      (rf'.persister.raft_state ≡ rf.persister.raft_state)
      ⊎ (rf'.persister.raft_state ≡ some (gob.encode (persist_data rf')))
  pub role :
      ((rf'.state ≡ rf.state) × (rf'.current_term ≡ rf.current_term)) ⊎ (rf'.state ≡ follower)

module _ {C B : Type 0} (gob : Gob (PersistData C) B) {rf rf' : Raft C B} where
  append_entries-Moves :
      (args : AppendEntriesArgs C) (r : AppendEntriesReply)
      → append_entries gob args rf ≡ some (rf', r)
      → Moves gob rf rf'
  unfolding append_entries
  append_entries-Moves args r h = ground arith

  install_snapshot-Moves :
      (args : InstallSnapshotArgs B) (r : InstallSnapshotReply)
      → install_snapshot gob args rf ≡ some (rf', r)
      → Moves gob rf rf'
  unfolding install_snapshot
  install_snapshot-Moves args r h = ground arith

  start-Moves :
      (c : Command C) (answer : ℕ × ℕ × Bool)
      → start gob c rf ≡ some (rf', answer)
      → Moves gob rf rf'
  unfolding start
  start-Moves c answer h = ground arith

  prepare_append-Moves :
      (index : ℕ) (args : Option (AppendEntriesArgs C))
      → prepare_append index rf ≡ some (rf', args)
      → Moves gob rf rf'
  unfolding prepare_append
  prepare_append-Moves index args h = ground arith

  handle_append_reply-Moves :
      (index : ℕ) (args : AppendEntriesArgs C) (r : AppendEntriesReply) (next : Next)
      → handle_append_reply gob index args r rf ≡ some (rf', next)
      → Moves gob rf rf'
  unfolding handle_append_reply
  handle_append_reply-Moves index args r next h = ground arith

  handle_install_reply-Moves :
      (index : ℕ) (r : Option InstallSnapshotReply)
      → handle_install_reply index r rf ≡ some rf'
      → Moves gob rf rf'
  unfolding handle_install_reply
  handle_install_reply-Moves index r h = ground arith

  compact-Moves : (index : ℕ) (bytes : B) → compact gob index bytes rf ≡ some rf' → Moves gob rf rf'
  unfolding compact
  compact-Moves index bytes h = ground arith

  pub request_vote-Moves :
      (args : RequestVoteArgs) (r : RequestVoteReply)
      → request_vote gob args rf ≡ some (rf', r)
      → Moves gob rf rf'
  unfolding request_vote
  request_vote-Moves args r h = ground arith

  start_election-none-Moves : start_election gob rf ≡ some (rf', none) → Moves gob rf rf'
  unfolding start_election
  start_election-none-Moves h = ground arith

  -- Every handler of `Handles` moves the peer as `Moves` says.
  pub Handles-Moves : Handles gob rf rf' → Moves gob rf rf'
  unfolding applied kill apply_timer receive_notify
  Handles-Moves (append args r h) = append_entries-Moves args r h
  Handles-Moves (snapshot args r h) = install_snapshot-Moves args r h
  Handles-Moves (command c answer h) = start-Moves c answer h
  Handles-Moves (sending index args h) = prepare_append-Moves index args h
  Handles-Moves (append_answer index args r next h) = handle_append_reply-Moves index args r next h
  Handles-Moves (snapshot_answer index r h) = handle_install_reply-Moves index r h
  Handles-Moves (compaction index bytes h) = compact-Moves index bytes h
  Handles-Moves (delivery msg h) = ground arith
  Handles-Moves (election_of_leader h) = start_election-none-Moves h
  Handles-Moves (killing h) = ground arith
  Handles-Moves (waking (inl h)) = ground arith
  Handles-Moves (waking (inr h)) = ground arith

module _ {C B : Type 0} (gob : Gob (PersistData C) B) where
  -- A vote that is granted is the ballot of the peer, and stands on its disk.
  pub request_vote-granted :
      (args : RequestVoteArgs) (r : RequestVoteReply) (rf : Raft C B) {rf' : Raft C B}
      → request_vote gob args rf ≡ some (rf', r)
      → r.vote_granted ≡ true
      → (rf'.current_term ≡ args.term)
        × (rf'.vote_for ≡ pos args.candidate_id)
        × (rf'.persister.raft_state ≡ some (gob.encode (persist_data rf')))
  unfolding request_vote
  request_vote-granted args r rf h g = ground (arith, eqb_ℤ→eq rf.vote_for (pos args.candidate_id))
