-- ===== src/Raft/Complete/Invariant.antt =====
-- What makes later leaders have the entries that a majority has accepted.
use sjytker_my_mit.Base.{
  ℕ, suc, ◌≤◌, ◌<◌, ◌≡◌, ◌⊎◌, Option, none, some, List, [], ◌∷◌, ◌++◌, get_elem?, drop,
}
use sjytker_my_mit.Raft.State.{LogEntry, Raft, AppendEntriesArgs}
use sjytker_my_mit.Raft.Persist.{Gob, PersistData}
use sjytker_my_mit.Raft.Cluster.Matched.{Leaders}
use sjytker_my_mit.Raft.Cluster.Matching.{dummy, GoodLog}
use sjytker_my_mit.Raft.Complete.{Ack}
use sjytker_my_mit.Raft.Complete.Terms.{Has, OfTerm, UpTo}

module _ {C : Type 0} where
  -- All leaders of terms behind `t` and up to `u` have the entry of term `t` at this index.
  abbrev pub Kept : Leaders C → (t u k : ℕ) → Type 0
  Kept logs t u k = (v : ℕ) (l : List (LogEntry C)) → t < v → v ≤ u → logs v ≡ some l → Has l t k

  -- A request of the leader of a term: its log when it was sent is the beginning of its log.
  abbrev pub OfLeader : Leaders C → AppendEntriesArgs C → Type 0
  OfLeader logs args =
      (log : List (LogEntry C)) × (more : List (LogEntry C)) × (logs args.term ≡ some (log ++ more))
      × OfTerm args.term more
      × GoodLog logs 0 log
      × ((e : LogEntry C) × (get_elem? log args.prev_log_index ≡ some e)
          × (e.term ≡ args.prev_log_term))
      × (drop (suc args.prev_log_index) log ≡ args.entries)

module _ {C B : Type 0} (gob : Gob (PersistData C) B) where
  -- The term on a disk.
  abbrev pub disk_term : Option B → ℕ
  disk_term none = 0
  disk_term (some b) = elim (gob.decode b) as (λ _. ℕ) [ none ↦ 0 | some d ↦ d.0 ]

  -- The log on a disk is that of the peer.
  abbrev pub OnDiskLog : Raft C B → Type 0
  OnDiskLog rf =
      ((rf.persister.raft_state ≡ none) × (rf.log ≡ dummy ∷ []))
      ⊎ ((d : PersistData C) × (rf.persister.raft_state ≡ some (gob.encode d)) × (d.5 ≡ rf.log))

  -- What a peer has accepted, it has, unless a leader of a later term lacks it.
  abbrev pub Keeps : Leaders C → Ack C → Raft C B → Type 0
  Keeps logs a rf =
      (k : ℕ)
      → Has a.log a.term k
      → Kept logs a.term (disk_term rf.persister.raft_state) k
      → Has rf.log a.term k

  -- Of one peer.
  pub record LogTerms (rf : Raft C B) : Type 0 where
    pub on_disk : OnDiskLog rf
    pub terms : UpTo (disk_term rf.persister.raft_state) rf.log
