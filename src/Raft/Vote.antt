-- ===== src/Raft/Vote.antt =====
-- RequestVote, SendRequest and Election (raft.go).
pub mod Grant
pub mod Late
use sjytker_my_mit.Base.{
  ℕ, zero, suc, ◌+◌, ◌/◌, Bool, true, false, not, ◌&&◌, ◌||◌, Option, none, some, ltb, leb, ◌==◌,
  if◌then◌else◌, ◌>>=◌, pos, eqb_ℤ, minus_one,
}
use sjytker_my_mit.Raft.State.{leader, follower, candidate, Raft, RequestVoteArgs, RequestVoteReply}
use sjytker_my_mit.Raft.Log.{last_log_term_index}
use sjytker_my_mit.Raft.Persist.{Gob, PersistData, persist}
use sjytker_my_mit.Raft.Role.{
  is_leader, is_candidate, reset_election_timer, append_entries_now, change_role,
}

-- The reply as the caller makes it: the handler never writes its term.
abbrev pub refused : RequestVoteReply
refused = record { term = 0; vote_granted = false }

abbrev pub granted : RequestVoteReply
granted = record { term = 0; vote_granted = true }

-- Whether a candidate's log is not behind a log that ends with this term and index.
unfoldable pub up_to_date : RequestVoteArgs → ℕ × ℕ → Bool
up_to_date args (last_term, last_log_index) =
    ltb last_term args.last_log_term
    || (last_term == args.last_log_term && leb last_log_index args.last_log_index)

module _ {C B : Type 0} where
  -- The last `if` of RequestVote.
  unfoldable pub consider_vote :
      RequestVoteArgs → ℕ × ℕ → Raft C B → Option (Raft C B × RequestVoteReply)
  unfolding change_role reset_election_timer up_to_date
  consider_vote args last rf =
      if eqb_ℤ rf.vote_for minus_one && up_to_date args last
      then (do
        rf' ← change_role follower (record rf { vote_for = pos args.candidate_id })
        some (reset_election_timer rf', granted))
      else some (rf, refused)

  -- RequestVote, between the reading of the log's end and the deferred `persist`.
  unfoldable pub vote_on : RequestVoteArgs → ℕ × ℕ → Raft C B → Option (Raft C B × RequestVoteReply)
  unfolding consider_vote
  vote_on args last rf =
      if ltb args.term rf.current_term
      then some (rf, refused)
      else if ltb rf.current_term args.term
      then (do
        rf' ← change_role follower (record rf { current_term = args.term })
        consider_vote args last (record rf' { vote_for = minus_one }))
      else if eqb_ℤ rf.vote_for (pos args.candidate_id)
      then (do rf' ← change_role follower rf; some (reset_election_timer rf', granted))
      else if not (eqb_ℤ rf.vote_for minus_one)
      then some (rf, refused)
      else consider_vote args last rf

  -- One answer to a candidate: the peer, its votes, and `another` (a newer term was seen).
  unfoldable pub count_reply :
      RequestVoteArgs → Option RequestVoteReply → Raft C B × ℕ × Bool → Option (Raft C B × ℕ × Bool)
  unfolding change_role
  count_reply args none t = some t
  count_reply args (some reply) (rf, res, another) =
      if ltb args.term reply.term
      then (if ltb rf.current_term reply.term
          then (do
            rf' ← change_role follower (record rf { current_term = reply.term })
            some (rf', res, true))
          else some (rf, res, another))
      else some (rf, (if reply.vote_granted then res + 1 else res), another)

  -- The replies of peers 0 .. n - 1 that arrive before the RPC timer; `none` is a call that fails
  -- or is late. The goroutines' order does not matter: votes are added up and the largest term wins.
  unfoldable pub count_replies :
      RequestVoteArgs
      → (ℕ → Option RequestVoteReply)
      → ℕ
      → ℕ
      → Raft C B × ℕ × Bool
      → Option (Raft C B × ℕ × Bool)
  unfolding count_reply
  count_replies args replies me zero t = some t
  count_replies args replies me (suc i) t = do
    t' ← count_replies args replies me i t
    if i == me then some t' else count_reply args (replies i) t'

module _ {C B : Type 0} (gob : Gob (PersistData C) B) where
  unfoldable pub request_vote : RequestVoteArgs → Raft C B → Option (Raft C B × RequestVoteReply)
  unfolding vote_on persist
  request_vote args rf = do
    last ← last_log_term_index rf
    (rf', reply) ← vote_on args last rf
    some (persist gob rf', reply)

  unfoldable pub send_request :
      RequestVoteArgs → (ℕ → Option RequestVoteReply) → Raft C B → Option (Raft C B × ℕ)
  unfolding count_replies persist reset_election_timer
  send_request args replies rf = do
    (rf', res, another) ← count_replies args replies rf.me rf.peers (rf, 0, false)
    some ((if another then persist gob (reset_election_timer rf') else rf'), res)

  -- Election up to SendRequest: the request that it sends out, or none for a leader.
  unfoldable pub start_election : Raft C B → Option (Raft C B × Option RequestVoteArgs)
  unfolding reset_election_timer change_role persist last_log_term_index
  start_election rf = if is_leader rf.state then some (reset_election_timer rf, none) else (do
    rf' ← change_role candidate (reset_election_timer rf)
    let rf'' = persist gob rf'
    (last_term, last_log_index) ← last_log_term_index rf''
    some (
      rf'',
      some (record {
        term = rf''.current_term;
        candidate_id = rf''.me;
        last_log_index = last_log_index;
        last_log_term = last_term;
      }),
    ))

  -- Election after SendRequest, whose result is `count`: other handlers may have run in between.
  unfoldable pub finish_election : RequestVoteArgs → ℕ → Raft C B → Option (Raft C B)
  unfolding change_role persist append_entries_now
  finish_election args count rf = do
    rf' ←
        (if is_candidate rf.state && (rf.current_term == args.term && leb (rf.peers / 2) count)
          then (do won ← change_role leader rf; some (persist gob won))
          else some rf)
    some (if is_leader rf'.state then append_entries_now rf' else rf')
