-- ===== src/Raft/Examples/Late.antt =====
-- A late reply to AppendEntries, and how a committed entry is lost after it.
use sjytker_my_mit.Base.{
  ℕ, ◌≡◌, refl, ◌↔◌, true, Option, some, List, [], ◌∷◌, arith, if◌then◌else◌, ◌>>=◌, pos,
}
use sjytker_my_mit.Raft.State.{
  Command, Role, leader, follower, op, LogEntry, Raft, RequestVoteArgs, RequestVoteReply,
  AppendEntriesArgs, AppendEntriesReply,
}
use sjytker_my_mit.Raft.Role
use sjytker_my_mit.Raft.Log.{last_log_term_index}
use sjytker_my_mit.Raft.Vote.{request_vote, start_election, finish_election}
use sjytker_my_mit.Raft.Vote.Grant.{IsUpToDate}
use sjytker_my_mit.Raft.Vote.Late.{request_vote-late_reply}
use sjytker_my_mit.Raft.Append.{empty_reply, append_entries}
use sjytker_my_mit.Raft.Leader.{Next, stop, prepare_append, handle_append_reply}
use sjytker_my_mit.Raft.Examples.Run.{Bytes, gob, run, peer, entry}

abbrev fresh : ℕ → Raft ℕ Bytes
fresh i = peer i follower 0 [] 0 [] []

abbrev no_request : RequestVoteArgs
no_request = record { term = 0; candidate_id = 0; last_log_index = 0; last_log_term = 0 }

abbrev no_entries : AppendEntriesArgs ℕ
no_entries = record {
  term = 0;
  leader_id = 0;
  prev_log_index = 0;
  prev_log_term = 0;
  entries = [];
  leader_commit = 0;
}

abbrev count : RequestVoteReply → ℕ
count r = if r.vote_granted then 1 else 0

abbrev first : LogEntry ℕ
first = record { command = Command.message ""; term = 0 }

-- Peer 0 leads term 1 and sends peer 1 a request that is late; it votes for peer 1 in term 2, which
-- peer 1 does not win; peer 2 leads term 3 with the vote of peer 1 and commits a command with the
-- help of peer 0; peer 1 stands in term 4, and its answer to the late request comes to peer 0 before
-- its request for a vote. The result: the commit index of peer 2, its log, and peer 1.
abbrev losing : Option (ℕ × List (LogEntry ℕ) × Role × ℕ × List (LogEntry ℕ))
losing = do
  (a1, ask1) ← start_election gob (fresh 0)
  (c1, vote1) ← request_vote gob (run ask1 no_request) (fresh 2)
  a2 ← finish_election gob (run ask1 no_request) (count vote1) a1
  (a3, late) ← prepare_append 1 a2
  (b1, asked) ← start_election gob (fresh 1)
  (b2, ask2) ← start_election gob b1
  (a4, vote2) ← request_vote gob (run ask2 no_request) a3
  (c2, asked2) ← start_election gob c1
  (c3, ask3) ← start_election gob c2
  (b3, vote3) ← request_vote gob (run ask3 no_request) b2
  c4 ← finish_election gob (run ask3 no_request) (count vote3) c3
  (c5, answer) ← Role.start gob (op 7) c4
  (c6, sent) ← prepare_append 0 c5
  (a5, reply) ← append_entries gob (run sent no_entries) a4
  (c7, next) ← handle_append_reply gob 0 (run sent no_entries) reply c6
  (b4, ask4) ← start_election gob b3
  (b5, late_reply) ← append_entries gob (run late no_entries) b4
  (a6, next2) ← handle_append_reply gob 1 (run late no_entries) late_reply a5
  (a7, vote4) ← request_vote gob (run ask4 no_request) a6
  b6 ← finish_election gob (run ask4 no_request) (count vote4) b5
  some (c7.commit_index, c7.log, b6.state, b6.current_term, b6.log)

-- The entry that peer 2 has committed in term 3 is not in the log of the leader of term 4.
committed_is_lost : losing ≡ some (1, first ∷ entry 7 3 ∷ [], leader, 4, first ∷ [])
unfolding start_election request_vote finish_election prepare_append append_entries
    handle_append_reply Role.start
committed_is_lost = refl

-- Peer 0 has voted for peer 1 in term 2 and has an entry of term 3; a reply of term 4 comes.
abbrev voter : Raft ℕ Bytes
voter = record (peer 0 follower 3 (entry 7 3 ∷ []) 1 [] []) { vote_for = pos 1 }

abbrev behind : RequestVoteArgs
behind = record { term = 4; candidate_id = 1; last_log_index = 0; last_log_term = 0 }

abbrev newer : AppendEntriesReply
newer = record empty_reply { term = 4 }

abbrev raised : Raft ℕ Bytes × Next
raised = run (handle_append_reply gob 1 no_entries newer voter) (voter, stop)

request_vote-late_reply_example :
    ((vote : Raft ℕ Bytes × RequestVoteReply) × (request_vote gob behind raised.0 ≡ some vote)
      × (vote.1.vote_granted ≡ true))
    × ((vote : Raft ℕ Bytes × RequestVoteReply)
        → request_vote gob behind voter ≡ some vote
        → (vote.1.vote_granted ≡ true) ↔ IsUpToDate behind 3 1)
unfolding handle_append_reply last_log_term_index
request_vote-late_reply_example =
    request_vote-late_reply gob 1 no_entries newer behind voter raised.0 raised.1 3 1 refl
      (omega arith) refl refl refl
