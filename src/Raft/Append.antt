-- ===== src/Raft/Append.antt =====
-- AppendEntries, the follower's side of replication (append_entries.go, raft.go).
pub mod Accept
pub mod Refuse
use sjytker_my_mit.Base.{
  ℕ, ◌+◌, ◌-◌, Bool, true, false, ◌&&◌, Option, some, List, [], ◌∷◌, ◌++◌, ltb, ◌==◌, if◌then◌else◌,
  ◌>>=◌, length, take, drop, pos, minus_one,
}
use sjytker_my_mit.Raft.State.{follower, LogEntry, Raft, AppendEntriesArgs, AppendEntriesReply}
use sjytker_my_mit.Raft.Log.{min, last_log_term_index, get_real_log_index, log_at}
use sjytker_my_mit.Raft.Persist.{Gob, PersistData, persist}
use sjytker_my_mit.Raft.Role.{reset_election_timer, change_role, notify_apply}

-- The reply as the handler initialises it.
abbrev pub empty_reply : AppendEntriesReply
empty_reply = record {
  success = false;
  term = 0;
  x_term = minus_one;
  x_index = minus_one;
  x_len = minus_one;
  next_index = pos 0;
}

-- The loop that moves reply.XIndex from `i` to the first entry of that term, or past the log.
unfoldable pub first_with_term {ℓ} : {A : Type ℓ} → (A → ℕ) → ℕ → ℕ → List A → ℕ
first_with_term term_of term i [] = i
first_with_term term_of term i (e ∷ es) =
    if term_of e == term then i else first_with_term term_of term (i + 1) es

module _ {C B : Type 0} where
  -- CheckIfAEOutOfOrder: a request that a newer one has overtaken.
  unfoldable pub check_if_out_of_order : AppendEntriesArgs C → Raft C B → Option Bool
  unfolding last_log_term_index
  check_if_out_of_order args rf = do
    (my_last_term, my_last_index) ← last_log_term_index rf
    let args_last_index = args.prev_log_index + length args.entries
    some (
        if ltb args.term my_last_term
        then true
        else ltb args_last_index my_last_index && my_last_term == args.term)

  -- The last `if` of AppendEntries: a follower commits what the leader has committed. It holds the
  -- lock while it sends: where the channel of Apply is full, the handler waits, and with it Apply.
  unfoldable pub follow_commit :
      AppendEntriesArgs C → AppendEntriesReply → Raft C B → Option (Raft C B)
  unfolding last_log_term_index min notify_apply
  follow_commit args reply rf =
      if reply.success && ltb rf.commit_index args.leader_commit
      then (do
        (last_term, last_index) ← last_log_term_index rf
        notify_apply (record rf { commit_index = min args.leader_commit last_index }))
      else some rf

  -- `rf.log = append(kept, args.Entries...)`, kept being the first `n` entries.
  unfoldable pub accept_entries :
      ℕ → AppendEntriesArgs C → Raft C B → Option (Raft C B × AppendEntriesReply)
  unfolding follow_commit
  accept_entries n args rf = do
    let reply = record empty_reply { success = true }
    rf' ← follow_commit args reply (record rf { log = take n rf.log ++ args.entries })
    some (rf', reply)

  -- What to tell the leader when the terms at PrevLogIndex differ.
  unfoldable pub conflict_reply : LogEntry C → Raft C B → AppendEntriesReply
  unfolding first_with_term
  conflict_reply entry rf = record empty_reply {
    x_term = pos entry.term;
    x_index = pos (
        first_with_term (λ (e : LogEntry C). e.term) entry.term (rf.last_snapshot_index + 1)
          (drop 1 rf.log));
  }

  -- AppendEntries from the reading of the log's end on.
  unfoldable pub append_body :
      AppendEntriesArgs C → Raft C B → Option (Raft C B × AppendEntriesReply)
  unfolding last_log_term_index get_real_log_index log_at check_if_out_of_order accept_entries
      conflict_reply
  append_body args rf = do
    (last_term, last_log_index) ← last_log_term_index rf
    if ltb last_log_index args.prev_log_index
        then some (rf, record empty_reply { x_len = pos (last_log_index + 1) })
        else if ltb args.prev_log_index rf.last_snapshot_index
        then some (rf, record empty_reply { next_index = pos (rf.last_snapshot_index + 1) })
        else (do
          entry ← log_at rf (get_real_log_index rf args.prev_log_index)
          out_of_order ← check_if_out_of_order args rf
          if args.prev_log_index == rf.last_snapshot_index
              then (if out_of_order
                  then some (rf, record empty_reply { next_index = minus_one })
                  else accept_entries 1 args rf)
              else if args.prev_log_term == entry.term
              then (if out_of_order
                  then some (rf, record empty_reply { next_index = minus_one })
                  else accept_entries (args.prev_log_index - rf.last_snapshot_index + 1) args rf)
              else some (rf, conflict_reply entry rf))

module _ {C B : Type 0} (gob : Gob (PersistData C) B) where
  unfoldable pub append_entries :
      AppendEntriesArgs C → Raft C B → Option (Raft C B × AppendEntriesReply)
  unfolding append_body reset_election_timer change_role persist
  append_entries args rf =
      if ltb args.term rf.current_term
      then some (rf, record empty_reply { term = rf.current_term })
      else (do
        rf' ← change_role follower (record (reset_election_timer rf) { current_term = args.term })
        (rf'', reply) ← append_body args rf'
        some (persist gob rf'', reply))
