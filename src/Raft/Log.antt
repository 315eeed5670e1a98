-- ===== src/Raft/Log.antt =====
-- Positions in the log of a peer (common.go, raft.go): `log[0]` stands for the last entry of the
-- snapshot, so the entry with index i is at `log[i - lastSnapshotIndex]`.
use sjytker_my_mit.Base.{
  ℕ, ◌+◌, ◌-◌, ◌<◌, ◌≡◌, ap, Option, none, some, arith, ltb, leb, ◌==◌, if◌then◌else◌, ◌>>=◌,
  length, get_elem?, get_elem?-some, ℤ, pos, minus_one,
}
use sjytker_my_mit.Raft.State.{LogEntry, Raft}

-- func min(x int, y int) int
unfoldable pub min : ℕ → ℕ → ℕ
min x y = if ltb x y then x else y

-- func max(x int, y int) int
unfoldable pub max : ℕ → ℕ → ℕ
max x y = if leb y x then x else y

module _ {C B : Type 0} where
  -- The term and index of the last entry; on an empty log `rf.log[n - 1]` panics.
  unfoldable pub last_log_term_index : Raft C B → Option (ℕ × ℕ)
  last_log_term_index rf = do
    let n = length rf.log
    entry ← (if n == 0 then none else get_elem? rf.log (n - 1))
    some (entry.term, rf.last_snapshot_index + length rf.log - 1)

  -- `index - rf.lastSnapshotIndex`, or -1 where that is negative.
  unfoldable pub get_real_log_index : Raft C B → ℕ → ℤ
  get_real_log_index rf index =
      if ltb index rf.last_snapshot_index then minus_one else pos (index - rf.last_snapshot_index)

  -- rf.log[i]
  unfoldable pub log_at : Raft C B → ℤ → Option (LogEntry C)
  log_at rf (pos i) = get_elem? rf.log i
  log_at rf i = none

  -- The index of the last entry, for a log that is not empty.
  abbrev pub last_index : Raft C B → ℕ
  last_index rf = rf.last_snapshot_index + length rf.log - 1

  -- The entry with index i, as the protocol numbers entries; what the snapshot replaced is gone.
  unfoldable pub entry_at : Raft C B → ℕ → Option (LogEntry C)
  entry_at rf i =
      if ltb i rf.last_snapshot_index then none else get_elem? rf.log (i - rf.last_snapshot_index)

  -- A log that is not empty has a last entry, and `lastLogTermIndex` returns its term and index.
  pub last_log_term_index-some :
      (rf : Raft C B)
      → 0 < length rf.log
      → (e : LogEntry C) × (entry_at rf (last_index rf) ≡ some e)
        × (last_log_term_index rf ≡ some (e.term, last_index rf))
  unfolding last_log_term_index entry_at
  last_log_term_index-some rf h =
      let (e, q) = get_elem?-some rf.log (length rf.log - 1) (omega arith) in
      let p : last_index rf - rf.last_snapshot_index ≡ length rf.log - 1 = omega arith in
      (e, ground (arith, ap (get_elem? rf.log) p), ground arith)
