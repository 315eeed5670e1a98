-- ===== src/Raft/Complete/Ballots.antt =====
-- What the handlers do to the term and the vote of a peer.
use sjytker_my_mit.Base.{
  inl, inr, ℕ, zero, suc, ◌<◌, ◌≡◌, refl, ◌⊎◌, Bool, true, false, Option, none, some, arith,
  >>=-eq-some, pos, minus_one, eqb_ℤ→eq,
}
use sjytker_my_mit.Raft.State.{
  follower, Command, ApplyMsg, Raft, RequestVoteArgs, RequestVoteReply, AppendEntriesArgs,
  AppendEntriesReply,
}
use sjytker_my_mit.Raft.Log.{last_log_term_index, last_index}
use sjytker_my_mit.Raft.Persist.{Gob, PersistData}
use sjytker_my_mit.Raft.Role.{kill, start}
use sjytker_my_mit.Raft.Vote.{
  up_to_date, count_reply, count_replies, request_vote, send_request, start_election,
}
use sjytker_my_mit.Raft.Append.{append_entries}
use sjytker_my_mit.Raft.Leader.{Next, prepare_append, handle_append_reply}
use sjytker_my_mit.Raft.Apply.{applied, apply_timer, receive_notify}

module _ {C B : Type 0} (gob : Gob (PersistData C) B) (rf rf' : Raft C B) where
  pub append_entries-votes :
      (args : AppendEntriesArgs C) (r : AppendEntriesReply)
      → append_entries gob args rf ≡ some (rf', r)
      → (rf'.vote_for ≡ rf.vote_for)
        × ((rf'.current_term ≡ rf.current_term) ⊎ (rf'.current_term ≡ args.term))
  unfolding append_entries
  append_entries-votes args r h = ground arith

  pub start-votes :
      (c : Command C) (answer : ℕ × ℕ × Bool)
      → start gob c rf ≡ some (rf', answer)
      → (rf'.vote_for ≡ rf.vote_for) × (rf'.current_term ≡ rf.current_term)
  unfolding start
  start-votes c answer h = ground arith

  pub prepare_append-votes :
      (index : ℕ) (args : Option (AppendEntriesArgs C))
      → prepare_append index rf ≡ some (rf', args)
      → (rf'.vote_for ≡ rf.vote_for) × (rf'.current_term ≡ rf.current_term)
  unfolding prepare_append
  prepare_append-votes index args h = ground arith

  pub handle_append_reply-votes :
      (index : ℕ) (args : AppendEntriesArgs C) (r : AppendEntriesReply) (next : Next)
      → handle_append_reply gob index args r rf ≡ some (rf', next)
      → (rf'.vote_for ≡ rf.vote_for)
        × ((rf'.current_term ≡ rf.current_term) ⊎ (rf.current_term < r.term))
  unfolding handle_append_reply
  handle_append_reply-votes index args r next h = ground arith

  pub applied-votes :
      (msg : ApplyMsg C)
      → applied msg rf ≡ rf'
      → (rf'.vote_for ≡ rf.vote_for) × (rf'.current_term ≡ rf.current_term)
  unfolding applied
  applied-votes msg h = ground arith

  pub kill-votes :
      kill rf ≡ rf' → (rf'.vote_for ≡ rf.vote_for) × (rf'.current_term ≡ rf.current_term)
  unfolding kill
  kill-votes h = ground arith

  pub wake-votes :
      (apply_timer rf ≡ some rf') ⊎ (receive_notify rf ≡ some rf')
      → (rf'.vote_for ≡ rf.vote_for) × (rf'.current_term ≡ rf.current_term)
  unfolding apply_timer receive_notify
  wake-votes (inl h) = ground arith
  wake-votes (inr h) = ground arith

  pub leader_waits-votes :
      start_election gob rf ≡ some (rf', none)
      → (rf'.vote_for ≡ rf.vote_for) × (rf'.current_term ≡ rf.current_term)
  unfolding start_election
  leader_waits-votes h = ground arith

  -- A peer that refuses its vote has the one that it had, or, in a new term, none.
  pub request_vote-refused :
      (args : RequestVoteArgs) (r : RequestVoteReply)
      → request_vote gob args rf ≡ some (rf', r)
      → r.vote_granted ≡ false
      → ((rf'.vote_for ≡ rf.vote_for) × (rf'.current_term ≡ rf.current_term))
        ⊎ ((rf'.vote_for ≡ minus_one) × (rf'.state ≡ follower))
  unfolding request_vote
  request_vote-refused args r h f = ground arith

  -- A new vote is for a candidate whose log is up to date.
  pub request_vote-new :
      (args : RequestVoteArgs) (r : RequestVoteReply) (last_term last_index : ℕ)
      → last_log_term_index rf ≡ some (last_term, last_index)
      → request_vote gob args rf ≡ some (rf', r)
      → r.vote_granted ≡ true
      → ((rf.current_term ≡ args.term) × (rf.vote_for ≡ pos args.candidate_id))
        ⊎ (up_to_date args (last_term, last_index) ≡ true)
  unfolding request_vote
  request_vote-new args r last_term last_index l h t =
      ground (arith, eqb_ℤ→eq rf.vote_for (pos args.candidate_id))

module _ {C B : Type 0} where
  count_reply-votes :
      (args : RequestVoteArgs) (o : Option RequestVoteReply) (t t' : Raft C B × ℕ × Bool)
      → ((r : RequestVoteReply) → o ≡ some r → r.term ≡ 0)
      → count_reply args o t ≡ some t'
      → (t'.0.vote_for ≡ t.0.vote_for) × (t'.0.current_term ≡ t.0.current_term)
  unfolding count_reply
  count_reply-votes args none t t' z h = ground arith
  count_reply-votes args (some r) t t' z h = ground (arith, z r refl)

  count_replies-votes :
      (args : RequestVoteArgs) (replies : ℕ → Option RequestVoteReply) (me n : ℕ)
      (t t' : Raft C B × ℕ × Bool)
      → ((j : ℕ) (r : RequestVoteReply) → replies j ≡ some r → r.term ≡ 0)
      → count_replies args replies me n t ≡ some t'
      → (t'.0.vote_for ≡ t.0.vote_for) × (t'.0.current_term ≡ t.0.current_term)
  unfolding count_replies
  count_replies-votes args replies me zero t t' z h = ground arith
  count_replies-votes args replies me (suc n) t t' z h =
      let (t1, e, k) = >>=-eq-some (count_replies args replies me n t) _ h in
      let before = count_replies-votes args replies me n t t1 z e in
      ground (arith, count_reply-votes args (replies n) t1 t' (z n))

  -- Replies without a term, as RequestVote makes them, leave the ballot.
  pub send_request-votes :
      (gob : Gob (PersistData C) B) (args : RequestVoteArgs) (replies : ℕ → Option RequestVoteReply)
      (rf rf' : Raft C B) (count : ℕ)
      → ((j : ℕ) (r : RequestVoteReply) → replies j ≡ some r → r.term ≡ 0)
      → send_request gob args replies rf ≡ some (rf', count)
      → (rf'.vote_for ≡ rf.vote_for) × (rf'.current_term ≡ rf.current_term)
  unfolding send_request
  send_request-votes gob args replies rf rf' count z h =
      let (t1, e, k) = >>=-eq-some (count_replies args replies rf.me rf.peers (rf, 0, false)) _ h in
      let c = count_replies-votes args replies rf.me rf.peers (rf, 0, false) t1 z e in ground arith
