-- ===== src/Raft/Snapshot/Compact.antt =====
-- What compaction and the installation of a snapshot keep of the log.
use sjytker_my_mit.Base.{
  ℕ, ◌+◌, ◌-◌, ◌≤◌, ◌<◌, ◌≡◌, ap, ◌∙◌, ◌⊎◌, inl, inr, some, arith, dec_lt, ltb-false, Option-cases,
  get_elem?, drop, get_elem?-drop,
}
use sjytker_my_mit.Raft.State.{LogEntry, Raft}
use sjytker_my_mit.Raft.Log.{entry_at}
use sjytker_my_mit.Raft.Persist.{Gob, PersistData, get_persist_data}
use sjytker_my_mit.Raft.Snapshot.{compact}

module _ {C B : Type 0} where
  -- A log that starts later shows the same entries from there on.
  entry_at-drop :
      (rf rf' : Raft C B) (i : ℕ)
      → rf.last_snapshot_index ≤ rf'.last_snapshot_index
      → rf'.log ≡ drop (rf'.last_snapshot_index - rf.last_snapshot_index) rf.log
      → rf'.last_snapshot_index ≤ i
      → entry_at rf' i ≡ entry_at rf i
  unfolding entry_at
  entry_at-drop rf rf' i le e above =
      let d = rf'.last_snapshot_index - rf.last_snapshot_index in
      let j : d + (i - rf'.last_snapshot_index) ≡ i - rf.last_snapshot_index = omega arith in
      rw
        (
          ltb-false i rf'.last_snapshot_index above,
          ltb-false i rf.last_snapshot_index (omega arith),
        )
        (ap (λ l. get_elem? l (i - rf'.last_snapshot_index)) e
          ∙ get_elem?-drop d (i - rf'.last_snapshot_index) rf.log
          ∙ ap (get_elem? rf.log) j)

module _ {C B : Type 0} (gob : Gob (PersistData C) B) where
  -- Compaction at an index that the log holds keeps every entry from that index on, and with one
  -- write puts the state and the snapshot on disk. At an index below the snapshot it does nothing.
  pub compact-keeps :
      (index : ℕ) (bytes : B) (rf : Raft C B) {rf' : Raft C B}
      → compact gob index bytes rf ≡ some rf'
      → ((index < rf.last_snapshot_index) × (rf' ≡ rf))
        ⊎ ((rf.last_snapshot_index ≤ index)
            × (rf'.last_snapshot_index ≡ index)
            × ((e : LogEntry C) × (entry_at rf index ≡ some e) × (rf'.last_snapshot_term ≡ e.term))
            × ((i : ℕ) → index ≤ i → entry_at rf' i ≡ entry_at rf i)
            × (rf'.persister
                ≡ record { raft_state = some (get_persist_data gob rf'); snapshot = some bytes }))
  unfolding compact entry_at
  compact-keeps index bytes rf {rf'} h = elim (dec_lt index rf.last_snapshot_index) [
    | yes below ↦ inl (below, ground arith)
    | no above ↦ elim (Option-cases (get_elem? rf.log (index - rf.last_snapshot_index))) [
      | inl absent ↦ absurd (ground arith)
      | inr (e, p) ↦ inr (
        omega arith,
        ground arith,
        (e, ground arith, ground arith),
        λ i le. entry_at-drop rf rf' i (ground arith) (ground arith) (ground arith),
        ground arith,
      )
    ]
  ]
