-- ===== src/Raft/Persist.antt =====
-- persist, readPersist (raft.go) and the Persister (persister.go). The encoding is labgob's, which
-- wraps encoding/gob: a parameter of which only the round trip is used.
use sjytker_my_mit.Base.{
  ℕ, ◌<◌, ◌≡◌, Option, none, some, List, ltb, if◌then◌else◌, ltb-false, ◌>>=◌, ℤ,
}
use sjytker_my_mit.Raft.State.{LogEntry, Persister, Raft}

-- An encoder and a decoder for the values of one type, as the code's `e.Encode` and `d.Decode` of
-- its parts in sequence give them, and the length of the encoded bytes.
pub record Gob (A B : Type 0) : Type 0 where
  pub encode : A → B
  pub decode : B → Option A
  pub size : B → ℕ
  pub decode-encode : (a : A) → decode (encode a) ≡ some a
  pub size-encode : (a : A) → 0 < size (encode a)

-- The values that getPersistData encodes, in that order: currentTerm, voteFor, commitIndex,
-- lastSnapshotTerm, lastSnapshotIndex, log.
abbrev pub PersistData : Type 0 → Type 0
PersistData C = ℕ × ℤ × ℕ × ℕ × ℕ × List (LogEntry C)

module _ {B : Type 0} where
  unfoldable pub make_persister : Persister B
  make_persister = record { raft_state = none; snapshot = none }

  unfoldable pub save_raft_state : B → Persister B → Persister B
  save_raft_state bytes ps = record ps { raft_state = some bytes }

  unfoldable pub save_state_and_snapshot : B → Option B → Persister B → Persister B
  save_state_and_snapshot bytes snapshot ps = record {
    raft_state = some bytes;
    snapshot = snapshot;
  }

  -- len(ps.raftstate), for the length that the encoder's bytes have
  unfoldable pub raft_state_size : (B → ℕ) → Persister B → ℕ
  raft_state_size size ps = elim ps.raft_state [ none ↦ 0 | some bytes ↦ size bytes ]

module _ {C B : Type 0} where
  abbrev pub persist_data : Raft C B → PersistData C
  persist_data rf = (
    rf.current_term, rf.vote_for, rf.commit_index, rf.last_snapshot_term, rf.last_snapshot_index,
    rf.log,
  )

module _ {C B : Type 0} (gob : Gob (PersistData C) B) where
  unfoldable pub get_persist_data : Raft C B → B
  get_persist_data rf = gob.encode (persist_data rf)

  unfoldable pub persist : Raft C B → Raft C B
  unfolding get_persist_data save_raft_state
  persist rf = record rf { persister = save_raft_state (get_persist_data rf) rf.persister }

  -- `none` is `os.Exit(1)`, on bytes that do not decode.
  unfoldable pub read_persist : Option B → Raft C B → Option (Raft C B)
  read_persist none rf = some rf
  read_persist (some bytes) rf = if ltb (gob.size bytes) 1 then some rf else do
    (term, vote, commit, snapshot_term, snapshot_index, log) ← gob.decode bytes
    some (record rf {
      current_term = term;
      vote_for = vote;
      log = log;
      commit_index = commit;
      last_snapshot_index = snapshot_index;
      last_snapshot_term = snapshot_term;
    })

  -- A peer that comes back over the bytes that another one persisted has that peer's term, vote,
  -- log, commit index and snapshot position, and keeps all else of its own.
  pub read_persist-persist :
      (old fresh : Raft C B)
      → read_persist (persist old).persister.raft_state fresh
        ≡ some (record fresh {
          current_term = old.current_term;
          vote_for = old.vote_for;
          log = old.log;
          commit_index = old.commit_index;
          last_snapshot_index = old.last_snapshot_index;
          last_snapshot_term = old.last_snapshot_term;
        })
  unfolding read_persist persist
  read_persist-persist old fresh =
      rw (ltb-false _ 1 (gob.size-encode (persist_data old)), gob.decode-encode (persist_data old))
