-- ===== src/Raft/Leader.antt =====
-- The leader's side of replication: getAEInfo (common.go), appendEntriesToPeer and LeaderCommit
-- (append_entries.go), containsXTerm (raft.go).
pub mod Commit
pub mod Replicate
use sjytker_my_mit.Base.{
  ℕ, zero, suc, ◌+◌, ◌-◌, ◌/◌, Bool, false, not, ◌&&◌, ◌||◌, Option, none, some, List, [], ◌∷◌, ltb,
  leb, ◌==◌, if◌then◌else◌, ◌>>=◌, length, get_elem?, drop, ℤ, pos, pos_part, leb_ℤ, eqb_ℤ,
  minus_one, ◌+ℤ◌, ◌-ℤ◌,
}
use sjytker_my_mit.Raft.State.{follower, LogEntry, Raft, AppendEntriesArgs, AppendEntriesReply}
use sjytker_my_mit.Raft.Log.{last_log_term_index}
use sjytker_my_mit.Raft.Persist.{Gob, PersistData, persist}
use sjytker_my_mit.Raft.Role.{
  is_leader, set_at, reset_election_timer, reset_append_timer, change_role,
}

-- What appendEntriesToPeer does after a reply: return, go round its loop again, or call
-- InstallSnapshotToPeers.
pub data Next : Type 0 where
  stop retry install : Next

-- The inner loop of LeaderCommit: whether more than `half` of the peers have entry `i`.
unfoldable pub reaches : ℕ → ℕ → List ℤ → ℕ → Bool
reaches half i [] cnt = false
reaches half i (t ∷ ts) cnt =
    let has = leb_ℤ (pos i) t in
    let cnt' = if has then cnt + 1 else cnt in (has && ltb half cnt') || reaches half i ts cnt'

-- Its outer loop, with the rounds that are left, from index `i` and commit index `c`.
unfoldable pub commit_loop : ℕ → List ℤ → ℕ → ℕ → ℕ → ℕ
unfolding reaches
commit_loop half ms zero i c = c
commit_loop half ms (suc k) i c =
    commit_loop half ms k (i + 1) (if reaches half i ms 0 then i else c)

-- The `Term` of the last entry that was sent, `none` where none was.
unfoldable pub last_term_of : {C : Type 0} → List (LogEntry C) → Option ℕ
last_term_of [] = none
last_term_of (e ∷ es) = elim (last_term_of es) [ none ↦ some e.term | some t ↦ some t ]

abbrev pub same_term : Option ℕ → ℕ → Bool
same_term none term = false
same_term (some t) term = t == term

module _ {C B : Type 0} where
  -- prevTerm, prevIdx and the entries to send; `nextIndex` past the log panics.
  unfoldable pub get_ae_info : ℕ → Raft C B → Option (ℕ × ℕ × List (LogEntry C))
  unfolding last_log_term_index
  get_ae_info index rf = do
    (last_term, last_log_index) ← last_log_term_index rf
    next ← get_elem? rf.next_index index
    if leb_ℤ next (pos rf.last_snapshot_index) then some (last_term, last_log_index, []) else (do
      let prev = pos_part next - 1
      entry ← get_elem? rf.log (prev - rf.last_snapshot_index)
      let from = pos_part next - rf.last_snapshot_index
      if leb from (length rf.log) then some (entry.term, prev, drop from rf.log) else none)

  -- One round of appendEntriesToPeer up to the call: the request, if the peer is a leader.
  unfoldable pub prepare_append : ℕ → Raft C B → Option (Raft C B × Option (AppendEntriesArgs C))
  unfolding get_ae_info reset_append_timer reset_election_timer
  prepare_append index rf =
      if rf.dead
      then some (rf, none)
      else if not (is_leader rf.state)
      then some (reset_append_timer index rf, none)
      else (do
        let rf' = reset_election_timer (reset_append_timer index rf)
        (prev_term, prev_index, entries) ← get_ae_info index rf'
        some (
          rf',
          some (record {
            term = rf'.current_term;
            leader_id = rf'.me;
            prev_log_index = prev_index;
            prev_log_term = prev_term;
            entries = entries;
            leader_commit = rf'.commit_index;
          }),
        ))

  -- `hasCommit` is never set, so the loop's end does not write to notifyApplyCh.
  unfoldable pub leader_commit : Raft C B → Raft C B
  unfolding commit_loop
  leader_commit rf = record rf {
    commit_index =
        commit_loop (rf.peers / 2) rf.match_index
          (length rf.log + rf.last_snapshot_index - rf.commit_index) (rf.commit_index + 1)
          rf.commit_index;
  }

  -- The loop of containsXTerm, from index `i` down to 1.
  unfoldable pub contains_from : Raft C B → ℕ → ℕ → ℤ
  contains_from rf x_term zero = minus_one
  contains_from rf x_term (suc i) =
      let rest = contains_from rf x_term i in
      elim (get_elem? rf.log (suc i)) [
        | none ↦ rest
        | some entry ↦ if entry.term == x_term then pos (suc i) else rest
      ]

  unfoldable pub contains_x_term : Raft C B → ℕ → ℤ
  unfolding contains_from
  contains_x_term rf x_term = contains_from rf x_term (length rf.log - 1)

  -- nextIndex[index] after a refusal. The code reads XTerm from `reply.Term`.
  unfoldable pub next_after_refusal : AppendEntriesReply → Raft C B → ℤ
  unfolding contains_x_term ◌+ℤ◌
  next_after_refusal reply rf =
      let x_term = reply.term in
      let idx = contains_x_term rf x_term in
      if not (eqb_ℤ reply.x_len minus_one)
      then reply.x_len
      else if not (eqb_ℤ idx minus_one)
      then idx +ℤ pos rf.last_snapshot_index
      else reply.x_index

  -- nextIndex[index] = next; matchIndex[index] = next - 1
  unfoldable pub set_next : ℕ → ℤ → Raft C B → Option (Raft C B)
  unfolding set_at ◌-ℤ◌
  set_next index next rf = do
    nexts ← set_at rf.next_index index next
    matched ← set_at rf.match_index index (next -ℤ pos 1)
    some (record rf { next_index = nexts; match_index = matched })

module _ {C B : Type 0} (gob : Gob (PersistData C) B) where
  -- appendEntriesToPeer from the arrival of the reply on.
  unfoldable pub handle_append_reply :
      ℕ → AppendEntriesArgs C → AppendEntriesReply → Raft C B → Option (Raft C B × Next)
  unfolding change_role reset_election_timer persist leader_commit last_term_of next_after_refusal
      set_next ◌+ℤ◌
  handle_append_reply index args reply rf =
      if ltb rf.current_term reply.term
      then (do
        rf' ← change_role follower rf
        some (persist gob (record (reset_election_timer rf') { current_term = reply.term }), stop))
      else if not (is_leader rf.state) || not (rf.current_term == args.term)
      then some (rf, stop)
      else if reply.success
      then (do
        next ← get_elem? rf.next_index index
        rf' ← set_next index (next +ℤ pos (length args.entries)) rf
        some (
          (if same_term (last_term_of args.entries) rf'.current_term
              then leader_commit rf'
              else rf'),
          stop,
        ))
      else if eqb_ℤ reply.next_index minus_one
      then some (rf, stop)
      else (do
        let next = next_after_refusal reply rf
        rf' ← set_next index next rf
        some (rf', (if leb_ℤ next (pos rf'.last_snapshot_index) then install else retry)))
