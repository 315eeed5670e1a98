-- ===== src/Raft/Leader/Replicate.antt =====
-- From a leader's request to a follower's log.
use sjytker_my_mit.Base.{
  ℕ, ◌+◌, ◌-◌, ◌≤◌, ◌<◌, ◌≡◌, refl, sym, ap, ◌∙◌, inl, inr, true, some, List, [], arith, ltb-false,
  Bool-cases, Option-cases, >>=-eq-some, length, get_elem?, drop, get_elem?-none, get_elem?-drop,
  pos, pos_part, leb_ℤ,
}
use sjytker_my_mit.Raft.State.{leader, LogEntry, Raft, AppendEntriesArgs, AppendEntriesReply}
use sjytker_my_mit.Raft.Log.{last_log_term_index, last_index, entry_at, last_log_term_index-some}
use sjytker_my_mit.Raft.Persist.{Gob, PersistData}
use sjytker_my_mit.Raft.Role.{reset_append_timer, reset_election_timer}
use sjytker_my_mit.Raft.Append.{append_entries}
use sjytker_my_mit.Raft.Append.Accept.{append_entries-agrees}
use sjytker_my_mit.Raft.Leader.{get_ae_info, prepare_append}

module _ {C B : Type 0} where
  -- What getAEInfo returns: a position of the log with its term, and all that stands behind it.
  record Info (rf : Raft C B) (prev_term prev : ℕ) (entries : List (LogEntry C)) : Type 0 where
    at : (e : LogEntry C) × (entry_at rf prev ≡ some e) × (e.term ≡ prev_term)
    behind : (k : ℕ) → get_elem? entries k ≡ entry_at rf (prev + 1 + k)

  Info-eq :
      (rf : Raft C B) {t t' i i' : ℕ} {es es' : List (LogEntry C)}
      → (t ≡ t') × (i ≡ i') × (es ≡ es')
      → Info rf t i es
      → Info rf t' i' es'
  Info-eq rf {i} {i'} (p, q, r) h = record {
    at = let (e, at_e, has) = h.at in (e, ap (entry_at rf) (sym q) ∙ at_e, has ∙ p);
    behind =
        λ k. ap (λ l. get_elem? l k) (sym r) ∙ h.behind k ∙ ap (λ j. entry_at rf (j + 1 + k)) q;
  }

  -- To a follower that needs a snapshot go the end of the log and no entries.
  Info-end :
      (rf : Raft C B) (e : LogEntry C)
      → 0 < length rf.log
      → entry_at rf (last_index rf) ≡ some e
      → Info rf e.term (last_index rf) []
  unfolding entry_at
  Info-end rf e nonempty p = record {
    at = (e, p, refl);
    behind = λ k. rw (ltb-false (last_index rf + 1 + k) rf.last_snapshot_index (omega arith)) (
        sym (get_elem?-none rf.log (last_index rf + 1 + k - rf.last_snapshot_index) (omega arith)));
  }

  -- To any other follower go the entries from its nextIndex on.
  Info-next :
      (rf : Raft C B) (next : ℕ) (e : LogEntry C)
      → rf.last_snapshot_index < next
      → get_elem? rf.log (next - 1 - rf.last_snapshot_index) ≡ some e
      → Info rf e.term (next - 1) (drop (next - rf.last_snapshot_index) rf.log)
  unfolding entry_at
  Info-next rf next e above p = record {
    at = (e, rw (ltb-false (next - 1) rf.last_snapshot_index (omega arith)) p, refl);
    behind = λ k.
        let j : next - rf.last_snapshot_index + k ≡ next - 1 + 1 + k - rf.last_snapshot_index =
          omega arith in
        rw (ltb-false (next - 1 + 1 + k) rf.last_snapshot_index (omega arith))
          (get_elem?-drop (next - rf.last_snapshot_index) k rf.log ∙ ap (get_elem? rf.log) j);
  }

  get_ae_info-Info :
      (index : ℕ) (rf : Raft C B) {t i : ℕ} {entries : List (LogEntry C)}
      → 0 < length rf.log
      → get_ae_info index rf ≡ some (t, i, entries)
      → Info rf t i entries
  unfolding get_ae_info
  get_ae_info-Info index rf {t} {i} {entries} nonempty h =
      let (last, e1, k1) = >>=-eq-some (last_log_term_index rf) _ h in
      let (next, e2, k2) = >>=-eq-some (get_elem? rf.next_index index) _ k1 in
      let (e, p, q) = last_log_term_index-some rf nonempty in
      elim (Bool-cases (leb_ℤ next (pos rf.last_snapshot_index))) [
        | inl old ↦ Info-eq rf (ground arith) (Info-end rf e nonempty p)
        | inr new ↦
            elim (Option-cases (get_elem? rf.log (pos_part next - 1 - rf.last_snapshot_index))) [
              | inl absent ↦ absurd (ground arith)
              | inr (e', p') ↦
                  Info-eq rf (ground arith) (Info-next rf (pos_part next) e' (ground arith) p')
            ]
      ]

  -- What a leader sends: its term, an index of its log with the term there, and all entries behind.
  pub prepare_append-sent :
      (index : ℕ) (rf : Raft C B) {rf' : Raft C B} {args : AppendEntriesArgs C}
      → 0 < length rf.log
      → prepare_append index rf ≡ some (rf', some args)
      → (rf.state ≡ leader)
        × (args.term ≡ rf.current_term)
        × (args.leader_commit ≡ rf.commit_index)
        × ((e : LogEntry C) × (entry_at rf args.prev_log_index ≡ some e)
            × (e.term ≡ args.prev_log_term))
        × ((k : ℕ) → get_elem? args.entries k ≡ entry_at rf (args.prev_log_index + 1 + k))
  unfolding prepare_append entry_at
  prepare_append-sent index rf {rf'} {args} nonempty h =
      elim (Option-cases (get_ae_info index (reset_election_timer (reset_append_timer index rf)))) [
        | inl absent ↦ absurd (ground arith)
        | inr ((t, i, es), p) ↦
            let info =
              get_ae_info-Info index (reset_election_timer (reset_append_timer index rf)) nonempty
                p in
            let same =
              Info-eq (reset_election_timer (reset_append_timer index rf)) {t' = args.prev_log_term}
                {i' = args.prev_log_index} {es' = args.entries} (ground arith) info in
            (ground arith, ground arith, ground arith, same.at, same.behind)
      ]

module _ {C B : Type 0} (gob : Gob (PersistData C) B) where
  -- One round of replication: a leader's request that a follower accepts, whose log agreed with the
  -- leader's up to PrevLogIndex, makes the follower's log agree with the leader's at every index
  -- that the follower still holds.
  pub replicate_agrees :
      (index : ℕ) (ld fl : Raft C B) {ld' fl' : Raft C B} {args : AppendEntriesArgs C}
      {r : AppendEntriesReply}
      → 0 < length ld.log
      → 0 < length fl.log
      → prepare_append index ld ≡ some (ld', some args)
      → append_entries gob args fl ≡ some (fl', r)
      → r.success ≡ true
      → ((i : ℕ)
          → fl.last_snapshot_index ≤ i
          → i ≤ args.prev_log_index
          → entry_at fl i ≡ entry_at ld i)
      → (i : ℕ) → fl.last_snapshot_index ≤ i
      → entry_at fl' i ≡ entry_at ld i
  replicate_agrees index ld fl {args} ld_log fl_log sent accepted ok agree =
      append_entries-agrees gob args fl (entry_at ld) fl_log accepted ok
        (prepare_append-sent index ld ld_log sent).4 agree
