-- ===== src/Raft/Cluster/Example.antt =====
-- A cluster of three in which peer 0 is elected with the vote of peer 1.
use sjytker_my_mit.Base.{
  ℕ, zero, suc, ◌<◌, ◌+◌, ◌≡◌, refl, take, Bool, inl, inr, true, false, Option, none, some, [], ◌∷◌,
  arith, ◌==◌, if◌then◌else◌, ==_iff, sym, Bool-cases, ap,
}
use sjytker_my_mit.Raft.State.{
  follower, Raft, RequestVoteArgs, RequestVoteReply, leader, op, AppendEntriesArgs,
  AppendEntriesReply,
}
use sjytker_my_mit.Raft.Persist.{make_persister}
use sjytker_my_mit.Raft.Role
use sjytker_my_mit.Raft.Role.{make}
use sjytker_my_mit.Raft.Append.{empty_reply, append_entries}
use sjytker_my_mit.Raft.Leader.{prepare_append}
use sjytker_my_mit.Raft.Handler.{append, command, sending}
use sjytker_my_mit.Raft.Vote.{request_vote, start_election, send_request, finish_election}
use sjytker_my_mit.Raft.Elect.{is_vote, count_true}
use sjytker_my_mit.Raft.Examples.Run.{Bytes, gob, run, peer, entry}
use sjytker_my_mit.Raft.Cluster.{
  In, update, Cluster, Step, vote, stand, elect, handle, IsInitial, Reach, begin, next,
}
use sjytker_my_mit.Raft.Cluster.Net.{ReachNet, begin_net, next_net}
use sjytker_my_mit.Raft.Cluster.Agreement.{log_matching}
use sjytker_my_mit.Raft.Complete.{Ack, Past, ReachPast, begin_past, next_past}
use sjytker_my_mit.Raft.Complete.Terms.{Has}
use sjytker_my_mit.Raft.Complete.Polls.{ReachPolls, begin_polls, next_polls}
use sjytker_my_mit.Raft.Complete.Completeness.{leader_completeness}
use sjytker_my_mit.Raft.Complete.Accepted.{accepted_stays}
use sjytker_my_mit.Raft.Cluster.Safety.{one_leader, one_vote}

-- The peer that wins.
abbrev peer_0 : ℕ
peer_0 = 0

abbrev fresh : ℕ → Raft ℕ Bytes
fresh i = peer i follower 0 [] 0 [] []

abbrev start : Cluster ℕ Bytes
start = record { peer = fresh; grants = []; wins = [] }

start-IsInitial : IsInitial gob 3 start
unfolding make make_persister
start-IsInitial = record { fresh = λ i. refl; no_grants = refl; no_wins = refl }

abbrev stand_run : Raft ℕ Bytes × Option RequestVoteArgs
stand_run = run (start_election gob (fresh 0)) (fresh 0, none)

abbrev ask : RequestVoteArgs
ask = record { term = 1; candidate_id = 0; last_log_index = 0; last_log_term = 0 }

abbrev standing : Cluster ℕ Bytes
standing = record {
  peer = update fresh 0 stand_run.0;
  grants = record { voter = 0; term = 1; candidate = 0 } ∷ [];
  wins = [];
}

stands : Step gob 3 start standing
unfolding start_election
stands = stand 0 ask stand_run.0 refl refl

abbrev vote_run : Raft ℕ Bytes × RequestVoteReply
vote_run = run (request_vote gob ask (fresh 1)) (fresh 1, record { term = 0; vote_granted = false })

abbrev voted : Cluster ℕ Bytes
voted = record {
  peer = update standing.peer 1 vote_run.0;
  grants = record { voter = 1; term = 1; candidate = 0 } ∷ standing.grants;
  wins = [];
}

votes : Step gob 3 standing voted
unfolding request_vote
votes = vote 1 ask vote_run.0 vote_run.1 refl refl

abbrev replies : ℕ → Option RequestVoteReply
replies j = if j == 1 then some (record { term = 0; vote_granted = true }) else none

abbrev elect_run : Raft ℕ Bytes
elect_run = run (finish_election gob ask 1 stand_run.0) (fresh 0)

abbrev elected : Cluster ℕ Bytes
elected = record {
  peer = update voted.peer 0 elect_run;
  grants = voted.grants;
  wins = record { winner = peer_0; term = 1 } ∷ [];
}

sent :
    (j : ℕ)
    → is_vote ask (replies j) ≡ true
    → In (record { voter = j; term = 1; candidate = 0 }) voted.grants
sent j h = elim (Bool-cases (j == 1)) [
  | inl t ↦ inl (ap (λ v. record { voter = v; term = 1; candidate = 0 }) (sym ((==_iff j 1).0 t)))
  | inr f ↦ ground arith
]

elects : Step gob 3 voted elected
unfolding start_election request_vote send_request finish_election
elects =
    elect 0 ask replies stand_run.0 stand_run.0 elect_run 1 (omega arith) (refl, refl) refl sent
      refl refl

elected-Reach : Reach gob 3 elected
elected-Reach = next (next (next (begin start-IsInitial) stands) votes) elects

elect-leads : (elected.peer 0).state ≡ leader
unfolding start_election finish_election
elect-leads = refl

one_leader_example : peer_0 ≡ peer_0
one_leader_example =
    one_leader gob 3 elected peer_0 peer_0 elected-Reach elect-leads elect-leads refl

one_vote_example : peer_0 ≡ peer_0
one_vote_example = one_vote gob 3 elected 1 1 peer_0 peer_0 elected-Reach (inl refl) (inl refl)

elected-ReachNet : ReachNet gob 3 elected []
unfolding stands votes elects
elected-ReachNet =
    next_net (next_net (next_net (begin_net start-IsInitial) stands refl) votes refl) elects refl

-- The leader takes a command, sends it to peer 1, and peer 1 takes the request.
abbrev command_run : Raft ℕ Bytes × (ℕ × ℕ × Bool)
command_run = run (Role.start gob (op 7) (elected.peer 0)) (elected.peer 0, (0, 0, false))

abbrev commanded : Cluster ℕ Bytes
commanded = record elected { peer = update elected.peer 0 command_run.0 }

commands : Step gob 3 elected commanded
unfolding start_election finish_election Role.start
commands = handle 0 command_run.0 (command (op 7) command_run.1 refl) refl

abbrev no_args : AppendEntriesArgs ℕ
no_args = record {
  term = 0;
  leader_id = 0;
  prev_log_index = 0;
  prev_log_term = 0;
  entries = [];
  leader_commit = 0;
}

abbrev send_run : Raft ℕ Bytes × Option (AppendEntriesArgs ℕ)
send_run = run (prepare_append 1 (commanded.peer 0)) (commanded.peer 0, none)

abbrev request : AppendEntriesArgs ℕ
request = run send_run.1 no_args

abbrev sending_1 : Cluster ℕ Bytes
sending_1 = record commanded { peer = update commanded.peer 0 send_run.0 }

sends : Step gob 3 commanded sending_1
unfolding start_election finish_election Role.start prepare_append
sends = handle 0 send_run.0 (sending 1 (some request) refl) refl

abbrev append_run : Raft ℕ Bytes × AppendEntriesReply
append_run = run (append_entries gob request (sending_1.peer 1)) (sending_1.peer 1, empty_reply)

abbrev appended : Cluster ℕ Bytes
appended = record sending_1 { peer = update sending_1.peer 1 append_run.0 }

appends : Step gob 3 sending_1 appended
unfolding start_election finish_election request_vote Role.start prepare_append append_entries
appends = handle 1 append_run.0 (append request append_run.1 refl) refl

appended-ReachNet : ReachNet gob 3 appended (request ∷ [])
unfolding commands sends appends
appended-ReachNet =
    next_net (next_net (next_net elected-ReachNet commands refl) sends refl) appends
      (inl refl, refl)

log_matching_example : take 2 (appended.peer 0).log ≡ take 2 (appended.peer 1).log
unfolding start_election finish_election request_vote Role.start prepare_append append_entries
log_matching_example =
    log_matching gob 3 appended (request ∷ []) 0 1 1 (entry 7 1) (entry 7 1) appended-ReachNet refl
      refl refl

abbrev taken : Ack ℕ
taken = record { peer = 1; term = 1; log = append_run.0.log }

abbrev written : Ack ℕ
written = record { peer = 0; term = 1; log = command_run.0.log }

appended-ReachPast :
    ReachPast gob 3 appended (record { sent = request ∷ []; acks = taken ∷ written ∷ [] })
unfolding stands votes elects commands sends appends start_election finish_election request_vote
    Role.start prepare_append append_entries
appended-ReachPast =
    next_past
      (next_past
        (next_past
          (next_past
            (next_past (next_past (begin_past start-IsInitial refl) stands refl) votes refl) elects
            refl)
          commands refl)
        sends refl)
      appends (inl refl, refl)

accepted_stays_example : take 2 (appended.peer 1).log ≡ take 2 append_run.0.log
unfolding start_election finish_election request_vote Role.start prepare_append append_entries
accepted_stays_example =
    accepted_stays gob 3 appended (record { sent = request ∷ []; acks = taken ∷ written ∷ [] })
      taken 1 (entry 7 1) appended-ReachPast (inl refl) refl refl refl

-- Peer 1 is elected in term 2 with the vote of peer 2.
abbrev stand_again : Raft ℕ Bytes × Option RequestVoteArgs
stand_again = run (start_election gob (appended.peer 1)) (appended.peer 1, none)

abbrev ask_again : RequestVoteArgs
ask_again = record { term = 2; candidate_id = 1; last_log_index = 1; last_log_term = 1 }

abbrev standing_2 : Cluster ℕ Bytes
standing_2 = record {
  peer = update appended.peer 1 stand_again.0;
  grants = record { voter = 1; term = 2; candidate = 1 } ∷ appended.grants;
  wins = appended.wins;
}

stands_2 : Step gob 3 appended standing_2
unfolding start_election finish_election request_vote Role.start prepare_append append_entries
stands_2 = stand 1 ask_again stand_again.0 refl refl

abbrev vote_again : Raft ℕ Bytes × RequestVoteReply
vote_again =
    run (request_vote gob ask_again (fresh 2)) (fresh 2, record { term = 0; vote_granted = false })

abbrev voted_2 : Cluster ℕ Bytes
voted_2 = record {
  peer = update standing_2.peer 2 vote_again.0;
  grants = record { voter = 2; term = 2; candidate = 1 } ∷ standing_2.grants;
  wins = standing_2.wins;
}

votes_2 : Step gob 3 standing_2 voted_2
unfolding request_vote
votes_2 = vote 2 ask_again vote_again.0 vote_again.1 refl refl

abbrev replies_2 : ℕ → Option RequestVoteReply
replies_2 j = if j == 2 then some (record { term = 0; vote_granted = true }) else none

abbrev elect_again : Raft ℕ Bytes
elect_again = run (finish_election gob ask_again 1 stand_again.0) (fresh 1)

abbrev elected_2 : Cluster ℕ Bytes
elected_2 = record {
  peer = update voted_2.peer 1 elect_again;
  grants = voted_2.grants;
  wins = record { winner = 1; term = 2 } ∷ voted_2.wins;
}

sent_2 :
    (j : ℕ)
    → is_vote ask_again (replies_2 j) ≡ true
    → In (record { voter = j; term = 2; candidate = 1 }) voted_2.grants
sent_2 j h = elim (Bool-cases (j == 2)) [
  | inl t ↦ inl (ap (λ v. record { voter = v; term = 2; candidate = 1 }) (sym ((==_iff j 2).0 t)))
  | inr f ↦ ground arith
]

elects_2 : Step gob 3 voted_2 elected_2
unfolding start_election request_vote send_request finish_election Role.start prepare_append
    append_entries
elects_2 =
    elect 1 ask_again replies_2 stand_again.0 stand_again.0 elect_again 1 (omega arith) (refl, refl)
      refl sent_2 refl refl

abbrev past_2 : Past ℕ
past_2 = record { sent = request ∷ []; acks = taken ∷ written ∷ [] }

elected_2-ReachPolls : ReachPolls gob 3 elected_2 past_2 (ask_again ∷ ask ∷ [])
unfolding stands votes elects commands sends appends stands_2 votes_2 elects_2 start_election
    finish_election request_vote Role.start prepare_append append_entries
elected_2-ReachPolls =
    next_polls
      (next_polls
        (next_polls
          (next_polls
            (next_polls
              (next_polls
                (next_polls
                  (next_polls (next_polls (begin_polls start-IsInitial refl) stands refl refl) votes
                    refl (inl refl, refl))
                  elects refl refl)
                commands refl refl)
              sends refl refl)
            appends (inl refl, refl) refl)
          stands_2 refl refl)
        votes_2 refl (inl refl, refl))
      elects_2 refl refl

abbrev takers : ℕ → Bool
takers j = if j == 0 then true else j == 1

takers-half : 3 < count_true 3 takers + count_true 3 takers
unfolding count_true
takers-half = omega arith

taken_by :
    (q : ℕ)
    → takers q ≡ true
    → (a : Ack ℕ) × In a past_2.acks × (a.peer ≡ q) × (a.term ≡ 1) × Has a.log 1 1
unfolding start_election finish_election request_vote Role.start prepare_append append_entries
taken_by zero h = (written, inr (inl refl), refl, refl, (entry 7 1, refl, refl))
taken_by (suc zero) h = (taken, inl refl, refl, refl, (entry 7 1, refl, refl))
taken_by (suc (suc q)) h = absurd (ground arith)

leader_completeness_example : take 2 (elected_2.peer 1).log ≡ take 2 command_run.0.log
unfolding start_election finish_election request_vote Role.start prepare_append append_entries
leader_completeness_example =
    leader_completeness gob 3 elected_2 past_2 (ask_again ∷ ask ∷ []) 1 1 1 takers
      elected_2-ReachPolls takers-half taken_by refl (omega arith) written (inr (inl refl)) refl
      (entry 7 1, refl, refl)
