-- ===== src/Raft/Vote/Late.antt =====
-- A vote after a late reply to AppendEntries: the part of AppendEntriesToPeer behind the RPC
-- (append_entries.go), and then RequestVote (raft.go).
use sjytker_my_mit.Base.{
  ℕ, ◌<◌, ◌≡◌, ◌↔◌, inl, inr, true, some, arith, pos, eqb_ℤ-refl, sym, ◌∙◌, refl,
}
use sjytker_my_mit.Raft.State.{
  follower, Raft, RequestVoteArgs, RequestVoteReply, AppendEntriesArgs, AppendEntriesReply,
}
use sjytker_my_mit.Raft.Log.{last_log_term_index}
use sjytker_my_mit.Raft.Persist.{Gob, PersistData, persist}
use sjytker_my_mit.Raft.Role.{reset_election_timer}
use sjytker_my_mit.Raft.Vote.{granted, request_vote}
use sjytker_my_mit.Raft.Vote.Grant.{IsUpToDate, request_vote_iff}
use sjytker_my_mit.Raft.Leader.{Next, handle_append_reply}

module _ {C B : Type 0} (gob : Gob (PersistData C) B) where
  -- Without a reply in between, a candidate of a newer term gets the vote exactly when its log is up
  -- to date.
  newer_term_iff :
      (args : RequestVoteArgs) (rf : Raft C B) (last_term last_index : ℕ)
      (vote : Raft C B × RequestVoteReply)
      → last_log_term_index rf ≡ some (last_term, last_index)
      → rf.current_term < args.term
      → request_vote gob args rf ≡ some vote
      → (vote.1.vote_granted ≡ true) ↔ IsUpToDate args last_term last_index
  newer_term_iff args rf last_term last_index vote l lt h =
      let (to, from) = request_vote_iff gob args rf last_term last_index l h in
      (
        λ g. elim (to g) [ inl (_, up) ↦ up | inr (same, _) ↦ absurd (omega arith) ],
        λ up. from (inl (lt, up)),
      )

  -- A newer term in a reply is taken over, with the vote and the log as they are.
  newer_reply :
      (index : ℕ) (sent : AppendEntriesArgs C) (reply : AppendEntriesReply) (rf rf' : Raft C B)
      (next : Next)
      → rf.current_term < reply.term
      → handle_append_reply gob index sent reply rf ≡ some (rf', next)
      → (rf'.current_term ≡ reply.term)
        × (rf'.vote_for ≡ rf.vote_for)
        × (last_log_term_index rf' ≡ last_log_term_index rf)
  unfolding handle_append_reply last_log_term_index
  newer_reply index sent reply rf rf' next lt h = ground arith

  -- A vote that was given is given again.
  votes_again :
      (args : RequestVoteArgs) (rf : Raft C B) (last : ℕ × ℕ)
      → last_log_term_index rf ≡ some last
      → rf.current_term ≡ args.term
      → rf.vote_for ≡ pos args.candidate_id
      → (vote : Raft C B × RequestVoteReply) × (request_vote gob args rf ≡ some vote)
        × (vote.1.vote_granted ≡ true)
  unfolding request_vote
  votes_again args rf last l term cast = (
    (persist gob (reset_election_timer (record rf { state = follower })), granted),
    ground (arith, eqb_ℤ-refl (pos args.candidate_id)),
    refl,
  )

  -- A peer that has voted for a candidate in an older term, and that then takes a reply to
  -- AppendEntries with a newer term, votes for this candidate in the term of the reply, whatever the
  -- logs; without that reply it does so exactly when the candidate's log is up to date.
  pub request_vote-late_reply :
      (index : ℕ) (sent : AppendEntriesArgs C) (reply : AppendEntriesReply) (args : RequestVoteArgs)
      (rf rf' : Raft C B) (next : Next) (last_term last_index : ℕ)
      → last_log_term_index rf ≡ some (last_term, last_index)
      → rf.current_term < reply.term
      → rf.vote_for ≡ pos args.candidate_id
      → args.term ≡ reply.term
      → handle_append_reply gob index sent reply rf ≡ some (rf', next)
      → ((vote : Raft C B × RequestVoteReply) × (request_vote gob args rf' ≡ some vote)
          × (vote.1.vote_granted ≡ true))
        × ((vote : Raft C B × RequestVoteReply)
            → request_vote gob args rf ≡ some vote
            → (vote.1.vote_granted ≡ true) ↔ IsUpToDate args last_term last_index)
  request_vote-late_reply index sent reply args rf rf' next last_term last_index l lt cast same h =
      (
        let (term, kept, log) = newer_reply index sent reply rf rf' next lt h in
            votes_again args rf' (last_term, last_index) (log ∙ l) (term ∙ sym same) (kept ∙ cast),
        λ vote. newer_term_iff args rf last_term last_index vote l (omega arith),
      )
