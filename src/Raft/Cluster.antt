-- ===== src/Raft/Cluster.antt =====
-- A cluster of peers under an arbitrary network, with crashes: any peer may run any handler at any
-- time on any request, and only votes are tied to where they come from.
pub mod Invariant
pub mod Renew
pub mod Safety
pub mod Matched
pub mod Writes
pub mod Net
pub mod Matching
pub mod NetInv
pub mod Grow
pub mod Lead
pub mod Agreement
mod Example
use sjytker_my_mit.Base.{
  ℕ, zero, suc, ◌+◌, ◌-◌, ◌*◌, ◌/◌, ◌%◌, ◌≤◌, ◌<◌, ◌≡◌, refl, sym, ap, ◌∙◌, subst, ◌≢◌, ◌↔◌, ◌⊎◌,
  inl, inr, Bool, true, false, not, ◌&&◌, ◌||◌, Option, none, some, List, [], ◌∷◌, ◌++◌, map, arith,
  dec_lt, ℕ_discrete, ltb, leb, ◌==◌, if◌then◌else◌, ltb→lt, lt→ltb, leb→le, le→leb, ltb-false,
  leb-false, ==_iff, ==_refl, ==_false, tests, Bool-cases, Option-cases, ◌>>=◌, >>=-eq-some, length,
  get_elem?, set, take, drop, replicate, length-append, length-take, length-drop, length-replicate,
  length-set, get_elem?-some, get_elem?-none, get_elem?-lt, get_elem?-drop, get_elem?-take,
  get_elem?-append_left, get_elem?-append_right, get_elem?-set_self, get_elem?-set_ne, find, put,
  delete, find-put, find-delete, ℤ, pos, negsuc, pos_part, neg_part, sub_ℕ, ◌≤ℤ◌, leb_ℤ, eqb_ℤ,
  minus_one, eqb_ℤ→eq, eqb_ℤ-refl, +ℤ_parts, -ℤ_parts, eq_of_parts, int_laws, ◌+ℤ◌, ◌-ℤ◌,
}
use sjytker_my_mit.Raft.State.{
  Role, leader, follower, candidate, Command, nothing, message, op, LogEntry, ApplyMsg, TimerOp,
  reset_election, reset_append, append_now, reset_apply, Persister, Raft, RequestVoteArgs,
  RequestVoteReply, AppendEntriesArgs, AppendEntriesReply, InstallSnapshotArgs,
  InstallSnapshotReply,
}
use sjytker_my_mit.Raft.Log.{
  min, max, last_log_term_index, get_real_log_index, log_at, last_index, entry_at,
  last_log_term_index-some,
}
use sjytker_my_mit.Raft.Persist.{
  Gob, PersistData, make_persister, save_raft_state, save_state_and_snapshot, raft_state_size,
  persist_data, get_persist_data, persist, read_persist, read_persist-persist,
}
use sjytker_my_mit.Raft.Role.{
  is_leader, is_candidate, set_at, reset_election_timer, reset_append_timer, append_entries_now,
  get_state, change_role, kill, start, make,
}
use sjytker_my_mit.Raft.Vote.{
  refused, granted, up_to_date, consider_vote, vote_on, count_reply, count_replies, request_vote,
  send_request, start_election, finish_election,
}
use sjytker_my_mit.Raft.Append.{
  empty_reply, first_with_term, check_if_out_of_order, follow_commit, accept_entries,
  conflict_reply, append_body, append_entries,
}
use sjytker_my_mit.Raft.Leader.{
  Next, stop, retry, install, reaches, commit_loop, get_ae_info, prepare_append, leader_commit,
  contains_from, contains_x_term, last_term_of, same_term, next_after_refusal, set_next,
  handle_append_reply,
}
use sjytker_my_mit.Raft.Snapshot.{
  save_with_snapshot, compact, log_after_install, install_snapshot, prepare_install,
  handle_install_reply,
}
use sjytker_my_mit.Raft.Apply.{
  install_message, is_install, collect, pending, applied, apply_all, apply,
}
use sjytker_my_mit.Raft.Ballot.{Ballot, Follows, Follows-refl, Follows-trans, ballot}
use sjytker_my_mit.Raft.Handler.{Moves, Handles}
use sjytker_my_mit.Raft.Elect.{count_true, is_vote, voters}

-- A vote that a peer has given, in a reply to RequestVote or to itself.
pub record Grant : Type 0 where
  pub voter : ℕ
  pub term : ℕ
  pub candidate : ℕ

pub record Win : Type 0 where
  pub winner : ℕ
  pub term : ℕ

abbrev pub In : {A : Type 0} → A → List A → Type 0
In x [] = ⊥
In x (y ∷ ys) = (y ≡ x) ⊎ In x ys

abbrev pub update {ℓ} : {A : Type ℓ} → (ℕ → A) → ℕ → A → ℕ → A
update f i a j = if i == j then a else f j

-- `grants` and `wins` record the votes given and the elections won so far; no code reads them.
pub record Cluster (C B : Type 0) : Type 0 where
  pub peer : ℕ → Raft C B
  pub grants : List Grant
  pub wins : List Win

-- The grants after a reply to RequestVote.
abbrev pub with_grant : Bool → Grant → List Grant → List Grant
with_grant true g gs = g ∷ gs
with_grant false g gs = gs

module _ {C B : Type 0} (gob : Gob (PersistData C) B) (n : ℕ) where
  -- One step of peer `i`.
  pub data Step (s s' : Cluster C B) : Type 0 where
    -- the answer to any request for a vote
    vote :
        (i : ℕ) (args : RequestVoteArgs) (rf : Raft C B) (r : RequestVoteReply)
        → request_vote gob args (s.peer i) ≡ some (rf, r)
        → s' ≡ record {
          peer = update s.peer i rf;
          grants =
              with_grant r.vote_granted
                (record { voter = i; term = args.term; candidate = args.candidate_id })
                s.grants;
          wins = s.wins;
        }
        → Step s s'
    -- any other handler
    handle :
        (i : ℕ) (rf : Raft C B)
        → Handles gob (s.peer i) rf
        → s' ≡ record s { peer = update s.peer i rf }
        → Step s s'
    -- a candidate enters a new term and votes for itself
    stand :
        (i : ℕ) (args : RequestVoteArgs) (rf : Raft C B)
        → start_election gob (s.peer i) ≡ some (rf, some args)
        → s' ≡ record {
          peer = update s.peer i rf;
          grants = record { voter = i; term = args.term; candidate = i } ∷ s.grants;
          wins = s.wins;
        }
        → Step s s'
    -- replies to SendRequest, whatever they say
    ask :
        (i : ℕ) (args : RequestVoteArgs) (replies : ℕ → Option RequestVoteReply) (rf : Raft C B)
        (count : ℕ)
        → send_request gob args replies (s.peer i) ≡ some (rf, count)
        → s' ≡ record s { peer = update s.peer i rf }
        → Step s s'
    -- the end of an election, with a count that SendRequest has returned for the same request, from
    -- replies of peers that gave the candidate their vote
    elect :
        (i : ℕ) (args : RequestVoteArgs) (replies : ℕ → Option RequestVoteReply)
        (before after rf : Raft C B) (count : ℕ)
        → i < n
        → (before.me ≡ i) × (before.peers ≡ n)
        → send_request gob args replies before ≡ some (after, count)
        → ((j : ℕ)
            → is_vote args (replies j) ≡ true
            → In (record { voter = j; term = args.term; candidate = i }) s.grants)
        → finish_election gob args count (s.peer i) ≡ some rf
        → s' ≡ record {
          peer = update s.peer i rf;
          grants = s.grants;
          wins =
              if is_leader rf.state && not (is_leader (s.peer i).state)
              then record { winner = i; term = rf.current_term } ∷ s.wins
              else s.wins;
        }
        → Step s s'
    -- a crash and a restart from what is on disk
    restart :
        (i : ℕ) (rf : Raft C B)
        → make gob n i (s.peer i).persister ≡ some rf
        → s' ≡ record s { peer = update s.peer i rf }
        → Step s s'

  -- Every peer new, over an empty disk.
  pub record IsInitial (s : Cluster C B) : Type 0 where
    pub fresh : (i : ℕ) → make gob n i make_persister ≡ some (s.peer i)
    pub no_grants : s.grants ≡ []
    pub no_wins : s.wins ≡ []

  pub data Reach : Cluster C B → Type 0 where
    begin : {s : Cluster C B} → IsInitial s → Reach s
    next : {s s' : Cluster C B} → Reach s → Step s s' → Reach s'
