-- ===== src/Raft/Append/Accept.antt =====
-- What a follower's log holds after AppendEntries succeeds.
use sjytker_my_mit.Base.{
  ℕ, ◌+◌, ◌-◌, ◌≤◌, ◌<◌, ◌≡◌, ap, ◌∙◌, ◌⊎◌, true, Option, some, List, ◌++◌, arith, dec_lt, lt→ltb,
  ltb-false, length, get_elem?, take, length-take, get_elem?-take, get_elem?-append_left,
  get_elem?-append_right,
}
use sjytker_my_mit.Raft.State.{LogEntry, Raft, AppendEntriesArgs, AppendEntriesReply}
use sjytker_my_mit.Raft.Log.{last_index, entry_at}
use sjytker_my_mit.Raft.Persist.{Gob, PersistData}
use sjytker_my_mit.Raft.Append.{append_entries}

module _ {C : Type 0} where
  -- A log that is cut after position `p` and continued: what stands up to `p`, and behind it.
  cut_and_append_left :
      (p i : ℕ) (xs ys : List (LogEntry C))
      → p < length xs
      → i ≤ p
      → get_elem? (take (p + 1) xs ++ ys) i ≡ get_elem? xs i
  cut_and_append_left p i xs ys lt le =
      get_elem?-append_left (take (p + 1) xs) ys i (omega (arith, length-take (p + 1) xs))
      ∙ get_elem?-take (p + 1) i xs (omega arith)

  cut_and_append_right :
      (p k : ℕ) (xs ys : List (LogEntry C))
      → p < length xs
      → get_elem? (take (p + 1) xs ++ ys) (p + 1 + k) ≡ get_elem? ys k
  cut_and_append_right p k xs ys lt =
      let e : p + 1 + k ≡ length (take (p + 1) xs) + k = omega (arith, length-take (p + 1) xs) in
      ap (get_elem? (take (p + 1) xs ++ ys)) e ∙ get_elem?-append_right (take (p + 1) xs) ys k

module _ {C B : Type 0} (gob : Gob (PersistData C) B) where
  -- What success tells: where the request met the log, and the log that it left.
  record Accepted (args : AppendEntriesArgs C) (rf rf' : Raft C B) : Type 0 where
    above : rf.last_snapshot_index ≤ args.prev_log_index
    inside : args.prev_log_index - rf.last_snapshot_index < length rf.log
    same_start : rf'.last_snapshot_index ≡ rf.last_snapshot_index
    log : rf'.log ≡ take (args.prev_log_index - rf.last_snapshot_index + 1) rf.log ++ args.entries

  append_entries-Accepted :
      (args : AppendEntriesArgs C) (rf : Raft C B) {rf' : Raft C B} {r : AppendEntriesReply}
      → 0 < length rf.log
      → append_entries gob args rf ≡ some (rf', r)
      → r.success ≡ true
      → Accepted args rf rf'
  unfolding append_entries
  append_entries-Accepted args rf pos_len h ok = ground arith

  -- A success leaves every entry up to PrevLogIndex as it was, and has exactly the entries of the
  -- request behind it, at the indices that follow.
  pub append_entries-log :
      (args : AppendEntriesArgs C) (rf : Raft C B) {rf' : Raft C B} {r : AppendEntriesReply}
      → 0 < length rf.log
      → append_entries gob args rf ≡ some (rf', r)
      → r.success ≡ true
      → ((i : ℕ) → i ≤ args.prev_log_index → entry_at rf' i ≡ entry_at rf i)
        × ((k : ℕ) → entry_at rf' (args.prev_log_index + 1 + k) ≡ get_elem? args.entries k)
  unfolding entry_at
  append_entries-log args rf {rf'} nonempty h ok = (kept, added)
    where
      a : Accepted args rf rf'
      a = append_entries-Accepted args rf nonempty h ok

      p : ℕ
      p = args.prev_log_index - rf.last_snapshot_index

      kept : (i : ℕ) → i ≤ args.prev_log_index → entry_at rf' i ≡ entry_at rf i
      kept i le =
          rw (a.same_start, a.log)
            (elim (dec_lt i rf.last_snapshot_index) [
              | yes lt ↦ rw (lt→ltb i rf.last_snapshot_index lt)
              | no ge ↦ rw (ltb-false i rf.last_snapshot_index (omega arith)) (
                  cut_and_append_left p (i - rf.last_snapshot_index) rf.log args.entries a.inside
                    (omega (arith, a.above)))
            ])

      added : (k : ℕ) → entry_at rf' (args.prev_log_index + 1 + k) ≡ get_elem? args.entries k
      added k =
          let e : args.prev_log_index + 1 + k - rf.last_snapshot_index ≡ p + 1 + k =
            omega (arith, a.above) in
          rw (a.same_start, a.log)
            (rw
              (ltb-false (args.prev_log_index + 1 + k) rf.last_snapshot_index
                (omega (arith, a.above)))
              (rw e (cut_and_append_right p k rf.log args.entries a.inside)))

  -- A success with a leader's entries behind PrevLogIndex, over a log that agrees with the leader's
  -- up to there, leaves a log that agrees with the leader's at every index that it still holds.
  pub append_entries-agrees :
      (args : AppendEntriesArgs C) (rf : Raft C B) {rf' : Raft C B} {r : AppendEntriesReply}
      (lead : ℕ → Option (LogEntry C))
      → 0 < length rf.log
      → append_entries gob args rf ≡ some (rf', r)
      → r.success ≡ true
      → ((k : ℕ) → get_elem? args.entries k ≡ lead (args.prev_log_index + 1 + k))
      → ((i : ℕ) → rf.last_snapshot_index ≤ i → i ≤ args.prev_log_index → entry_at rf i ≡ lead i)
      → (i : ℕ) → rf.last_snapshot_index ≤ i
      → entry_at rf' i ≡ lead i
  append_entries-agrees args rf lead nonempty h ok sent agree i above =
      let (kept, added) = append_entries-log args rf nonempty h ok in
      elim (dec_lt args.prev_log_index i) [
        | yes behind ↦
            let k = i - args.prev_log_index - 1 in
            let e : i ≡ args.prev_log_index + 1 + k = omega arith in rw e (added k ∙ sent k)
        | no upto ↦ kept i (omega arith) ∙ agree i above (omega arith)
      ]

  -- AppendEntries changes the commit index on success only, where the leader's is larger, to the
  -- smaller of the leader's and the index of the last entry that it leaves, and then wakes Apply.
  pub append_entries-commit :
      (args : AppendEntriesArgs C) (rf : Raft C B) {rf' : Raft C B} {r : AppendEntriesReply}
      → append_entries gob args rf ≡ some (rf', r)
      → ((rf'.commit_index ≡ rf.commit_index) × (rf'.notified ≡ rf.notified))
        ⊎ ((r.success ≡ true)
            × (rf.commit_index < args.leader_commit)
            × (rf'.commit_index ≤ args.leader_commit)
            × (rf'.commit_index ≤ last_index rf')
            × ((rf'.commit_index ≡ args.leader_commit) ⊎ (rf'.commit_index ≡ last_index rf'))
            × (rf'.notified ≡ rf.notified + 1))
  unfolding append_entries
  append_entries-commit args rf h = ground arith
