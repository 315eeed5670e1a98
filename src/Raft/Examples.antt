-- ===== src/Raft/Examples.antt =====
-- Runs of the handlers of raft on small peers.
pub mod Run
mod Late
use sjytker_my_mit.Base.{
  ℕ, zero, suc, ◌+◌, ◌-◌, ◌*◌, ◌/◌, ◌≤◌, ◌<◌, ◌≡◌, refl, sym, ap, ◌∙◌, subst, ◌≢◌, ◌↔◌, ◌⊎◌, inl,
  inr, Bool, true, false, Option, none, some, List, [], ◌∷◌, ◌++◌, arith, length, get_elem?, take,
  drop, ℤ, pos, negsuc, ◌≤ℤ◌, minus_one,
}
use sjytker_my_mit.Raft.State.{
  Role, leader, follower, candidate, Command, LogEntry, ApplyMsg, Persister, Raft, RequestVoteArgs,
  RequestVoteReply, AppendEntriesArgs, AppendEntriesReply,
}
use sjytker_my_mit.Raft.Log.{last_index, entry_at}
use sjytker_my_mit.Raft.Persist.{
  Gob, PersistData, persist, read_persist, get_persist_data, persist_data, read_persist-persist,
}
use sjytker_my_mit.Raft.Vote.{request_vote}
use sjytker_my_mit.Raft.Vote.Grant.{MayVote, request_vote_iff}
use sjytker_my_mit.Raft.Append.{append_entries}
use sjytker_my_mit.Raft.Append.Accept.{append_entries-log, append_entries-commit}
use sjytker_my_mit.Raft.Append.Refuse.{append_entries-refused, append_entries-conflict}
use sjytker_my_mit.Raft.Leader.{prepare_append, leader_commit}
use sjytker_my_mit.Raft.Leader.Commit.{count_at_least, leader_commit-largest}
use sjytker_my_mit.Raft.Leader.Replicate.{prepare_append-sent, replicate_agrees}
use sjytker_my_mit.Raft.Snapshot.{compact}
use sjytker_my_mit.Raft.Snapshot.Compact.{compact-keeps}
use sjytker_my_mit.Raft.Apply.{apply}
use sjytker_my_mit.Raft.Apply.Order.{InOrder, apply-InOrder}
use sjytker_my_mit.Raft.Handler.{Handles, append}
use sjytker_my_mit.Raft.Total.{requests-total, Handles-log}
use sjytker_my_mit.Raft.Examples.Run.{Bytes, gob, run, entry, peer}

-- A follower in term 1 and a leader in term 2 whose logs part at index 2.
abbrev fl : Raft ℕ Bytes
fl = peer 1 follower 1 (entry 7 1 ∷ entry 8 1 ∷ []) 1 [] []

abbrev ld : Raft ℕ Bytes
ld =
    peer 0 leader 2 (entry 7 1 ∷ entry 9 2 ∷ []) 1 (pos 3 ∷ pos 2 ∷ pos 3 ∷ [])
      (pos 2 ∷ pos 2 ∷ pos 0 ∷ [])

abbrev ask : RequestVoteArgs
ask = record { term = 2; candidate_id = 0; last_log_index = 2; last_log_term = 2 }

abbrev no_vote : RequestVoteReply
no_vote = record { term = 0; vote_granted = false }

abbrev vote_run : Raft ℕ Bytes × RequestVoteReply
vote_run = run (request_vote gob ask fl) (fl, no_vote)

request_vote_iff_example : (vote_run.1.vote_granted ≡ true) ↔ MayVote ask 1 2 fl
unfolding request_vote
request_vote_iff_example =
    request_vote_iff gob ask fl {rf' = vote_run.0} {r = vote_run.1} 1 2 refl refl

-- What the leader sends to the follower.
abbrev sent_run : Raft ℕ Bytes × Option (AppendEntriesArgs ℕ)
sent_run = run (prepare_append 1 ld) (ld, none)

abbrev sent : AppendEntriesArgs ℕ
sent = record {
  term = 2;
  leader_id = 0;
  prev_log_index = 1;
  prev_log_term = 1;
  entries = entry 9 2 ∷ [];
  leader_commit = 1;
}

is_sent : prepare_append 1 ld ≡ some (sent_run.0, some sent)
unfolding prepare_append
is_sent = refl

-- The follower's answer to it.
abbrev no_answer : AppendEntriesReply
no_answer = record {
  success = false;
  term = 0;
  x_term = minus_one;
  x_index = minus_one;
  x_len = minus_one;
  next_index = minus_one;
}

abbrev took_run : Raft ℕ Bytes × AppendEntriesReply
took_run = run (append_entries gob sent fl) (fl, no_answer)

abbrev took : Raft ℕ Bytes
took = took_run.0

takes : append_entries gob sent fl ≡ some (took, took_run.1)
unfolding append_entries
takes = refl

took-succeeds : took_run.1.success ≡ true
unfolding append_entries
took-succeeds = refl

agrees : (i : ℕ) → 0 ≤ i → i ≤ 1 → entry_at fl i ≡ entry_at ld i
unfolding entry_at
agrees zero above upto = refl
agrees (suc zero) above upto = refl
agrees (suc (suc i)) above upto = absurd (omega arith)

append_entries-log_example :
    ((i : ℕ) → i ≤ 1 → entry_at took i ≡ entry_at fl i)
    × ((k : ℕ) → entry_at took (1 + 1 + k) ≡ get_elem? sent.entries k)
append_entries-log_example =
    append_entries-log gob sent fl {rf' = took} {r = took_run.1} (omega arith) takes took-succeeds

replicate_agrees_example : entry_at took 2 ≡ entry_at ld 2
replicate_agrees_example =
    replicate_agrees gob 1 ld fl {ld' = sent_run.0} {fl' = took} {args = sent} {r = took_run.1}
      (omega arith) (omega arith) is_sent takes took-succeeds agrees 2 (omega arith)

-- The follower with a full channel.
abbrev stuffed : Raft ℕ Bytes
stuffed = record fl { notified = 10 }

requests-total_example :
    (request_vote gob ask stuffed ≢ none)
    × ((append_entries gob sent stuffed ≡ none) ↔ (
        (10 ≤ stuffed.notified)
        × ((rf' : Raft ℕ Bytes) × (r : AppendEntriesReply) × (append_entries gob sent
                (record stuffed { notified = 0 })
              ≡ some (rf', r))
            × (rf'.notified ≡ 1))))
requests-total_example = requests-total gob ask sent stuffed (omega arith)

-- A request that meets another term at index 2.
abbrev clash : AppendEntriesArgs ℕ
clash = record sent { prev_log_index = 2; prev_log_term = 2; entries = [] }

abbrev clash_run : Raft ℕ Bytes × AppendEntriesReply
clash_run = run (append_entries gob clash fl) (fl, no_answer)

clashes : append_entries gob clash fl ≡ some (clash_run.0, clash_run.1)
unfolding append_entries
clashes = refl

clash-fails : clash_run.1.success ≡ false
unfolding append_entries
clash-fails = refl

clash-names : clash_run.1.x_term ≡ pos 1
unfolding append_entries
clash-names = refl

append_entries-conflict_example :
    ¬ (clash.prev_log_term ≡ 1)
    × ((e : LogEntry ℕ) × (entry_at fl clash.prev_log_index ≡ some e) × (e.term ≡ 1))
    × ((x : ℕ) × (clash_run.1.x_index ≡ pos x)
        × (0 < x)
        × (x ≤ clash.prev_log_index)
        × ((e : LogEntry ℕ) × (entry_at fl x ≡ some e) × (e.term ≡ 1))
        × ((j : ℕ) (e : LogEntry ℕ) → 0 < j → j < x → entry_at fl j ≡ some e → ¬ (e.term ≡ 1)))
append_entries-conflict_example =
    append_entries-conflict gob clash fl {rf' = clash_run.0} {r = clash_run.1} 1 clashes clash-names

leader_commit-largest_example :
    ((((leader_commit ld).commit_index ≡ ld.commit_index)
      ⊎ ((ld.commit_index < (leader_commit ld).commit_index)
          × (ld.peers / 2 < count_at_least (leader_commit ld).commit_index ld.match_index))))
    × ((j : ℕ)
        → ld.commit_index < j
        → j ≤ ld.last_snapshot_index + length ld.log
        → ld.peers / 2 < count_at_least j ld.match_index
        → j ≤ (leader_commit ld).commit_index)
leader_commit-largest_example = leader_commit-largest ld

-- Compaction at the committed index.
abbrev compacted : Raft ℕ Bytes
compacted = run (compact gob 1 (persist_data fl) fl) fl

compact-keeps_example :
    ((1 < fl.last_snapshot_index) × (compacted ≡ fl))
    ⊎ ((fl.last_snapshot_index ≤ 1)
        × (compacted.last_snapshot_index ≡ 1)
        × ((e : LogEntry ℕ) × (entry_at fl 1 ≡ some e) × (compacted.last_snapshot_term ≡ e.term))
        × ((i : ℕ) → 1 ≤ i → entry_at compacted i ≡ entry_at fl i)
        × (compacted.persister ≡ record {
          raft_state = some (get_persist_data gob compacted);
          snapshot = some (persist_data fl);
        }))
unfolding compact
compact-keeps_example = compact-keeps gob 1 (persist_data fl) fl {rf' = compacted} refl

abbrev apply_run : Raft ℕ Bytes × List (ApplyMsg ℕ)
apply_run = run (apply fl) (fl, [])

apply-InOrder_example :
    InOrder fl 1 apply_run.1
    × (0 + length apply_run.1 ≡ fl.commit_index)
    × (apply_run.0.last_applied ≡ fl.commit_index)
unfolding apply
apply-InOrder_example = apply-InOrder fl {rf' = apply_run.0} {msgs = apply_run.1} (omega arith) refl
