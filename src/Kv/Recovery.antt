-- ===== src/Kv/Recovery.antt =====
-- Snapshots: what a server saved is what the next one over the same disk starts from.
use sjytker_my_mit.Base.{ℕ, ◌≤◌, ◌≡◌, refl, some, arith, ltb-false, ℤ, pos}
use sjytker_my_mit.Raft.State.{Persister, Raft}
use sjytker_my_mit.Raft.Persist.{Gob, PersistData, raft_state_size, read_persist, persist_data}
use sjytker_my_mit.Raft.Role.{make}
use sjytker_my_mit.Raft.Snapshot.{compact}
use sjytker_my_mit.Kv.{Op, KvServer, KvData, save_snapshot, start_kv_server}

module _ {B : Type 0} (gob : Gob (PersistData Op) B) (kv_gob : Gob KvData B) where
  save_snapshot-saves :
      (index limit : ℕ) (kv : KvServer B) {kv' : KvServer B}
      → kv.max_raft_state ≡ pos limit
      → limit ≤ raft_state_size gob.size kv.rf.persister
      → kv.rf.last_snapshot_index ≤ index
      → save_snapshot gob kv_gob index kv ≡ some kv'
      → (kv'.rf.persister.raft_state ≡ some (gob.encode (persist_data kv'.rf)))
        × (kv'.rf.persister.snapshot ≡ some (kv_gob.encode (kv.store, kv.last_applied)))
  unfolding save_snapshot compact
  save_snapshot-saves index limit kv m lim le e = ground arith

  starts_over :
      (servers me : ℕ) (limit : ℤ) (persister : Persister B) (rf : Raft Op B) (d : KvData)
      → persister.raft_state ≡ some (gob.encode (persist_data rf))
      → persister.snapshot ≡ some (kv_gob.encode d)
      → (new : KvServer B) × (start_kv_server gob kv_gob servers me persister limit ≡ some new)
        × (new.store ≡ d.0)
        × (new.last_applied ≡ d.1)
        × (new.rf.log ≡ rf.log)
        × (new.rf.current_term ≡ rf.current_term)
        × (new.rf.vote_for ≡ rf.vote_for)
  unfolding start_kv_server make read_persist
  starts_over servers me limit persister rf d h k =
      rw
        (
          h,
          ltb-false _ 1 (gob.size-encode (persist_data rf)),
          gob.decode-encode (persist_data rf),
          k,
          kv_gob.decode-encode d,
        )
        (_, refl, refl, refl, refl, refl, refl)

  -- A server that took a snapshot, because the state of raft had reached the limit, and one that
  -- starts over its disk have the same data, last messages, log, term and vote.
  pub start_kv_server-save_snapshot :
      (index limit servers me : ℕ) (kv kv' : KvServer B)
      → kv.max_raft_state ≡ pos limit
      → limit ≤ raft_state_size gob.size kv.rf.persister
      → kv.rf.last_snapshot_index ≤ index
      → save_snapshot gob kv_gob index kv ≡ some kv'
      → (new : KvServer B) × (start_kv_server gob kv_gob servers me kv'.rf.persister (pos limit)
          ≡ some new)
        × (new.store ≡ kv.store)
        × (new.last_applied ≡ kv.last_applied)
        × (new.rf.log ≡ kv'.rf.log)
        × (new.rf.current_term ≡ kv'.rf.current_term)
        × (new.rf.vote_for ≡ kv'.rf.vote_for)
  start_kv_server-save_snapshot index limit servers me kv kv' m lim le e =
      let (a, b) = save_snapshot-saves index limit kv m lim le e in
      starts_over servers me (pos limit) kv'.rf.persister kv'.rf (kv.store, kv.last_applied) a b
