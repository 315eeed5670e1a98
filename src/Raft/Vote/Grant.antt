-- ===== src/Raft/Vote/Grant.antt =====
-- When RequestVote grants a vote.
use sjytker_my_mit.Base.{
  ℕ, ◌≤◌, ◌<◌, ◌≡◌, ◌↔◌, ◌⊎◌, true, some, arith, pos, minus_one, eqb_ℤ→eq, eqb_ℤ-refl,
}
use sjytker_my_mit.Raft.State.{Raft, RequestVoteArgs, RequestVoteReply}
use sjytker_my_mit.Raft.Log.{last_log_term_index}
use sjytker_my_mit.Raft.Persist.{Gob, PersistData}
use sjytker_my_mit.Raft.Vote.{request_vote}

-- Section 5.4.1 of the Raft paper: the candidate's log ends with a later term, or with the same term
-- and is at least as long.
abbrev pub IsUpToDate : RequestVoteArgs → ℕ → ℕ → Type 0
IsUpToDate args last_term last_index =
    (last_term < args.last_log_term)
    ⊎ ((last_term ≡ args.last_log_term) × (last_index ≤ args.last_log_index))

-- When a peer is to vote for a candidate: the candidate's term is newer and its log is up to date;
-- or the term is the peer's and the peer has voted for this candidate, or for nobody and the log is
-- up to date.
abbrev pub MayVote : {C B : Type 0} → RequestVoteArgs → ℕ → ℕ → Raft C B → Type 0
MayVote args last_term last_index rf =
    ((rf.current_term < args.term) × IsUpToDate args last_term last_index)
    ⊎ ((rf.current_term ≡ args.term)
        × ((rf.vote_for ≡ pos args.candidate_id)
            ⊎ ((rf.vote_for ≡ minus_one) × IsUpToDate args last_term last_index)))

module _ {C B : Type 0} (gob : Gob (PersistData C) B) where
  -- RequestVote grants the vote exactly when the peer may vote for the candidate.
  pub request_vote_iff :
      (args : RequestVoteArgs) (rf : Raft C B) {rf' : Raft C B} {r : RequestVoteReply}
      (last_term last_index : ℕ)
      → last_log_term_index rf ≡ some (last_term, last_index)
      → request_vote gob args rf ≡ some (rf', r)
      → (r.vote_granted ≡ true) ↔ MayVote args last_term last_index rf
  unfolding request_vote
  request_vote_iff args rf last_term last_index l h = (
    λ g.
        ground
          (arith, eqb_ℤ→eq rf.vote_for (pos args.candidate_id), eqb_ℤ→eq rf.vote_for minus_one),
    λ m. ground (arith, eqb_ℤ-refl rf.vote_for),
  )
