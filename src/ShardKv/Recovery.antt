-- ===== src/ShardKv/Recovery.antt =====
-- Snapshots of a sharded server: what the next server over the same disk starts from.
use sjytker_my_mit.Base.{
  ℕ, ◌≤◌, ◌≡◌, refl, sym, ap, ◌∙◌, inl, inr, false, Option, none, some, List, [], ◌∷◌, arith, ◌==◌,
  ltb-false, Bool-cases, find, ℤ, pos,
}
use sjytker_my_mit.Raft.State.{Persister, Raft}
use sjytker_my_mit.Raft.Persist.{Gob, PersistData, raft_state_size, read_persist, persist_data}
use sjytker_my_mit.Raft.Role.{make}
use sjytker_my_mit.Raft.Snapshot.{compact}
use sjytker_my_mit.ShardMaster.Config.{Config}
use sjytker_my_mit.Kv.{Store}
use sjytker_my_mit.ShardKv.State.{Entry, ShardKv, SnapshotGob, decoded, entries, shard_map}
use sjytker_my_mit.ShardKv.Store.{save_snapshot, start_server}
use sjytker_my_mit.ShardKv.Requests.{check_and_migrate_shard}

find-skip {ℓ} :
    {V : Type ℓ} (k j : ℕ) (v : V) (m : List (ℕ × V))
    → (j == k) ≡ false
    → find k ((j, v) ∷ m) ≡ find k m
unfolding find
find-skip k j v m f = ground arith

decoded-shard :
    (shard : ℕ) (shards : List (ℕ × Option Store))
    → entries (shard_map shard (decoded shards)) ≡ entries (shard_map shard shards)
unfolding decoded find
decoded-shard shard [] = refl
decoded-shard shard ((s, m) ∷ shards) =
    let rest = decoded-shard shard shards in
    elim (Bool-cases (s == shard)) [
      | inl t ↦ ground arith
      | inr f ↦
          let at : Option (Option Store) → Store =
            λ o. entries (elim o [ none ↦ none | some x ↦ x ]) in
          ap at (find-skip shard s (some (entries m)) (decoded shards) f)
          ∙ rest
          ∙ sym (ap at (find-skip shard s m shards f))
    ]

module _ {B : Type 0} (gob : Gob (PersistData Entry) B) (kv_gob : SnapshotGob B) where
  save_snapshot-saves :
      (index limit : ℕ) (config : Config) (kv : ShardKv B) {kv' : ShardKv B}
      → kv.max_raft_state ≡ pos limit
      → kv.config ≡ some config
      → limit ≤ raft_state_size gob.size kv.rf.persister
      → kv.rf.last_snapshot_index ≤ index
      → save_snapshot gob kv_gob index kv ≡ some kv'
      → (kv'.rf.persister.raft_state ≡ some (gob.encode (persist_data kv'.rf)))
        × (kv'.rf.persister.snapshot
            ≡ some (kv_gob.encode (kv.shard_data, kv.last_applied, config)))
  unfolding save_snapshot compact
  save_snapshot-saves index limit config kv m c lim le e = ground arith

  starts_over :
      (servers me gid : ℕ) (limit : ℤ) (persister : Persister B) (rf : Raft Entry B)
      (shards : List (ℕ × Option Store)) (last : List (ℕ × ℕ)) (config : Config)
      → persister.raft_state ≡ some (gob.encode (persist_data rf))
      → persister.snapshot ≡ some (kv_gob.encode (shards, last, config))
      → (new : ShardKv B) × (start_server gob kv_gob servers me gid persister limit ≡ some new)
        × (new.shard_data ≡ decoded shards)
        × (new.last_applied ≡ last)
        × (new.rf.log ≡ rf.log)
        × (new.config ≡ none)
  unfolding start_server make read_persist
  starts_over servers me gid limit persister rf shards last config h k =
      rw
        (
          h,
          ltb-false _ 1 (gob.size-encode (persist_data rf)),
          gob.decode-encode (persist_data rf),
          k,
          kv_gob.decode-encode shards last config,
        )
        (_, refl, refl, refl, refl, refl)

  -- A server under a configuration that took a snapshot, because the state of raft had reached the
  -- limit, and one that starts over its disk have the same last messages and log, and the same value
  -- of every key of every shard, although a map that was nil is empty then. The new one has no
  -- configuration, and the test whether it owns a shard panics, for every shard.
  pub start_server-save_snapshot :
      (index limit servers me gid : ℕ) (config : Config) (kv kv' : ShardKv B)
      → kv.max_raft_state ≡ pos limit
      → kv.config ≡ some config
      → limit ≤ raft_state_size gob.size kv.rf.persister
      → kv.rf.last_snapshot_index ≤ index
      → save_snapshot gob kv_gob index kv ≡ some kv'
      → (new : ShardKv B) × (start_server gob kv_gob servers me gid kv'.rf.persister (pos limit)
          ≡ some new)
        × ((shard : ℕ)
            → entries (shard_map shard new.shard_data) ≡ entries (shard_map shard kv.shard_data))
        × (new.last_applied ≡ kv.last_applied)
        × (new.rf.log ≡ kv'.rf.log)
        × ((shard : ℕ) → check_and_migrate_shard shard new ≡ none)
  unfolding check_and_migrate_shard
  start_server-save_snapshot index limit servers me gid config kv kv' m c lim le e =
      let (a, b) = save_snapshot-saves index limit config kv m c lim le e in
      let (new, s, d, l, g, n) =
        starts_over servers me gid (pos limit) kv'.rf.persister kv'.rf kv.shard_data kv.last_applied
          config a b in
      (
        new,
        s,
        λ shard.
            ap (λ shards. entries (shard_map shard shards)) d ∙ decoded-shard shard kv.shard_data,
        l,
        g,
        λ shard. rw n refl,
      )
