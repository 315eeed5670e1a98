-- ===== src/ShardKv/Store.antt =====
-- What the log does to a server: applyOp, applyConfig, WaitApplyCh (waitApply.go) and the snapshots of
-- server.go.
use Prim.Native.String.{String, ◌++◌ as ◌++S◌}
use sjytker_my_mit.Base.{
  ℕ, ◌+◌, ◌-◌, ltb, get_elem?, set, delete, Bool, false, not, ◌&&◌, ◌||◌, Option, none, some, List,
  [], ◌∷◌, leb, same_text, ◌==◌, if◌then◌else◌, ◌>>=◌, find, put, ℤ, pos, leb_ℤ, eqb_ℤ, minus_one,
}
use sjytker_my_mit.Raft.State.{Command, ApplyMsg, Persister, Raft}
use sjytker_my_mit.Raft.Persist.{Gob, PersistData, raft_state_size}
use sjytker_my_mit.Raft.Role.{make}
use sjytker_my_mit.Raft.Snapshot.{compact}
use sjytker_my_mit.ShardMaster.Config.{Config}
use sjytker_my_mit.Kv.{Store, read, write, waiting, received}
use sjytker_my_mit.ShardKv.State.{
  Op, Entry, op_entry, config_entry, stable, ShardKv, SnapshotGob, no_keys, entries, shard_map,
}

-- The command with another map in its Op.
unfoldable pub with_map : Store → Command Entry → Command Entry
with_map m (Command.op (op_entry op)) =
    Command.op (op_entry (record op { migration_data = some m }))
with_map m command = command

module _ {B : Type 0} where
  unfoldable pub check_applied : ℕ → ℕ → ShardKv B → Bool
  check_applied msg_id client_id kv = elim (find client_id kv.last_applied) [
    | none ↦ false
    | some old_msg_id ↦ msg_id == old_msg_id
  ]

  -- The map of the shard is changed in place: where it is that of an entry of the log, the entry
  -- changes too. A compacted entry is there no more.
  unfoldable pub write_through : ℕ → Store → ShardKv B → Raft Entry B
  write_through shard m kv = elim (find shard kv.shared) [
    | none ↦ kv.rf
    | some index ↦
        let i = index - kv.rf.last_snapshot_index in
        elim (if ltb index kv.rf.last_snapshot_index then none else get_elem? kv.rf.log i) [
          | none ↦ kv.rf
          | some e ↦ record kv.rf {
            log = set kv.rf.log i (record e { command = with_map m e.command });
          }
        ]
  ]

  -- AppendEntries puts a decoded copy in the place of an entry that it gets again: its map is then
  -- another one.
  unfoldable pub unshare : ℕ → ShardKv B → ShardKv B
  unshare shard kv = record kv { shared = delete shard kv.shared }

  -- kv.data[op.Shard][op.Key] = v, with lastApplied, for a map that is there.
  abbrev pub write_shard : Op → String → Store → ShardKv B → ShardKv B
  write_shard op v m kv = record kv {
    rf = write_through op.shard (write op.key v m) kv;
    shard_data = put op.shard (some (write op.key v m)) kv.shard_data;
    last_applied = put op.client_id op.msg_id kv.last_applied;
  }

  -- The same for a map that `make` has just made.
  abbrev pub write_new : Op → ShardKv B → ShardKv B
  write_new op kv = record kv {
    shard_data = put op.shard (some (write op.key op.value no_keys)) kv.shard_data;
    shared = delete op.shard kv.shared;
    last_applied = put op.client_id op.msg_id kv.last_applied;
  }

  -- The Put of applyOp: it makes a map where there is none, or the nil one.
  unfoldable pub put_shard : Op → Option Store → ShardKv B → ShardKv B
  unfolding write_through
  put_shard op none kv = write_new op kv
  put_shard op (some m) kv = write_shard op op.value m kv

  -- The Append of applyOp: a write to a map that is there and nil panics.
  unfoldable pub append_shard : Op → Option (Option Store) → ShardKv B → Option (ShardKv B)
  unfolding write_through
  append_shard op none kv = some (write_new op kv)
  append_shard op (some none) kv = none
  append_shard op (some (some m)) kv = some (write_shard op (read m op.key ++S op.value) m kv)

  -- The Migration of applyOp: the shard gets the map of the entry with this index.
  abbrev pub take_map : ℕ → Op → ShardKv B → ShardKv B
  take_map index op kv = record kv {
    shard_data = put op.shard op.migration_data kv.shard_data;
    shared = elim op.migration_data [
      | none ↦ delete op.shard kv.shared
      | some m ↦ put op.shard index kv.shared
    ];
  }

  -- The part of applyOp that changes the data, for the entry with this index.
  unfoldable pub execute : ℕ → Op → ShardKv B → Option (ShardKv B)
  unfolding check_applied put_shard append_shard
  execute index op kv =
      let repeat = check_applied op.msg_id op.client_id kv in
      if not repeat && same_text op.method "Migration"
      then some (take_map index op kv)
      else if not repeat && same_text op.method "Put"
      then some (put_shard op (shard_map op.shard kv.shard_data) kv)
      else if not repeat && same_text op.method "Append"
      then append_shard op (find op.shard kv.shard_data) kv
      else some kv

  -- The send on the channel of the request, if there is one; `none` where the caller does not wait.
  unfoldable pub notify : Op → ShardKv B → Option (ShardKv B)
  notify op kv = elim (find op.request_id kv.notify_data) [
    | none ↦ some kv
    | some waiting ↦ some (record kv {
      notify_data =
          put op.request_id
            (received (record {
              err = "OK";
              value = read (entries (shard_map op.shard kv.shard_data)) op.key;
            }))
            kv.notify_data;
    })
    | some _ ↦ none
  ]

module _ {B : Type 0} (gob : Gob (PersistData Entry) B) (kv_gob : SnapshotGob B) where
  -- `none` is a panic of SaveStateAndSnapshot, or of the encoder, which refuses a nil pointer.
  unfoldable pub save_snapshot : ℕ → ShardKv B → Option (ShardKv B)
  save_snapshot index kv =
      let size = raft_state_size gob.size kv.rf.persister in
      if eqb_ℤ kv.max_raft_state minus_one || leb_ℤ (pos (size + 1)) kv.max_raft_state
      then some kv
      else (do
        config ← kv.config
        rf ← compact gob index (kv_gob.encode (kv.shard_data, kv.last_applied, config)) kv.rf
        some (record kv { rf = rf }))

  -- The config is decoded, and is not written back.
  unfoldable pub read_snapshot : Option B → ShardKv B → Option (ShardKv B)
  read_snapshot none kv = some kv
  read_snapshot (some bytes) kv = do
    (shard_data, last_applied, config) ← kv_gob.decode bytes
    some (record kv { shard_data = shard_data; shared = []; last_applied = last_applied })

  unfoldable pub apply_op : ℕ → Op → ShardKv B → Option (ShardKv B)
  unfolding execute save_snapshot notify
  apply_op index op kv = do
    kv' ← execute index op kv
    kv'' ← save_snapshot index kv'
    notify op kv''

  -- An old configuration only gives the chance of a snapshot.
  unfoldable pub apply_config : ℕ → Config → ShardKv B → Option (ShardKv B)
  unfolding save_snapshot
  apply_config index new_config kv = elim kv.config [
    | none ↦ some (record kv { config = some new_config })
    | some config ↦
        if leb new_config.num config.num
        then save_snapshot index kv
        else some (record kv { config = some new_config })
  ]

  -- WaitApplyCh for one message; a command of another type is passed over.
  unfoldable pub apply_msg : ApplyMsg Entry → ShardKv B → Option (ShardKv B)
  unfolding apply_op apply_config read_snapshot
  apply_msg msg kv =
      if msg.command_valid
      then elim msg.command [
        | Command.op (op_entry op) ↦ apply_op msg.command_index op kv
        | Command.op (config_entry config) ↦ apply_config msg.command_index config kv
        | _ ↦ some kv
      ]
      else read_snapshot kv.rf.persister.snapshot kv

  -- The messages of applyCh, one after the other.
  unfoldable pub apply_msgs : List (ApplyMsg Entry) → ShardKv B → Option (ShardKv B)
  unfolding apply_msg
  apply_msgs [] kv = some kv
  apply_msgs (msg ∷ msgs) kv = do kv' ← apply_msg msg kv; apply_msgs msgs kv'

  -- StartServer
  unfoldable pub start_server : (servers me gid : ℕ) → Persister B → ℤ → Option (ShardKv B)
  unfolding read_snapshot make
  start_server servers me gid persister max_raft_state = do
    rf ← make gob servers me persister
    read_snapshot persister.snapshot (record {
      me = me;
      rf = rf;
      gid = gid;
      max_raft_state = max_raft_state;
      config = none;
      shard_data = [];
      shared = [];
      last_applied = [];
      notify_data = [];
      state = stable;
    })
