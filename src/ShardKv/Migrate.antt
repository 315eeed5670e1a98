-- ===== src/ShardKv/Migrate.antt =====
-- Handing shards over: FindConfig of shardkv/server.go and migration.go, each up to its calls and
-- after them.
use Prim.Native.String.{String}
use sjytker_my_mit.Base.{
  ℕ, zero, suc, ◌+◌, Bool, true, false, not, ◌&&◌, Option, none, some, List, [], ◌∷◌, same_text,
  ◌==◌, if◌then◌else◌, ◌>>=◌, length, get_elem?, take, find, delete,
}
use sjytker_my_mit.Raft.State.{Command}
use sjytker_my_mit.Raft.Persist.{Gob, PersistData}
use sjytker_my_mit.Raft.Role.{get_state, start}
use sjytker_my_mit.ShardMaster.Config.{Config}
use sjytker_my_mit.ShardKv.State.{
  Op, Entry, config_entry, stable, transition, ShardKv, MigrationArgs, shard_map,
}
use sjytker_my_mit.ShardKv.Requests.{Stage, asked, owned, refused, advance}

-- The shards from `shard` on, of `left` many, that the group held and that another group gets.
unfoldable pub shards_to_move : (gid shard left : ℕ) → Config → Config → List ℕ
shards_to_move gid shard zero old new = []
shards_to_move gid shard (suc left) old new =
    let rest = shards_to_move gid (shard + 1) left old new in
    elim (get_elem? old.shards shard) [
      | none ↦ rest
      | some owner ↦ elim (get_elem? new.shards shard) [
        | none ↦ rest
        | some new_gid ↦ if owner == gid && not (new_gid == gid) then shard ∷ rest else rest
      ]
    ]

-- Does FindConfig migrate: both configurations have groups, and not as many.
unfoldable pub groups_changed : Config → Config → Bool
groups_changed old new =
    not (length old.groups == 0)
    && (not (length new.groups == 0) && not (length new.groups == length old.groups))

-- What a pass over the servers of the new group comes to, for the Err of each reply, or `none` where
-- the call fails: `true` where one has taken the shard. Another error than a wrong leader ends it.
unfoldable pub migration_pass : List (Option String) → Bool
migration_pass [] = false
migration_pass (none ∷ replies) = migration_pass replies
migration_pass (some err ∷ replies) =
    let rest = migration_pass replies in
    if same_text err "OK" then true else if same_text err "ErrWrongLeader" then rest else false

module _ {B : Type 0} where
  -- FindConfig after the answer of the shard master, without a lock: does it migrate? It does so only
  -- under a configuration that is known already.
  unfoldable pub find_config : Config → ShardKv B → Bool
  unfolding groups_changed
  find_config cur kv = elim kv.config [ none ↦ false | some config ↦ groups_changed config cur ]

  unfoldable pub begin_migrations : ShardKv B → ShardKv B
  begin_migrations kv = record kv { state = transition }

  -- The shards that are then migrated, under the configuration of that time. The code goes through
  -- them in any order.
  unfoldable pub to_migrate : Config → ShardKv B → Option (List ℕ)
  unfolding shards_to_move
  to_migrate cur kv = do config ← kv.config; some (shards_to_move kv.gid 0 10 config cur)

  -- The arguments of one round of migrationToPeer. They hold the map itself, without the lock: the
  -- state is the one in which the call encodes it, and other steps come before the removal.
  unfoldable pub migration_args : ℕ → ℕ → ℕ → ShardKv B → MigrationArgs
  migration_args shard new_gid msg_id kv = record {
    shard = shard;
    kv_map = shard_map shard kv.shard_data;
    new_gid = new_gid;
    msg_id = msg_id;
    client_id = kv.me;
  }

  unfoldable pub remove_shard_data : ℕ → ShardKv B → ShardKv B
  remove_shard_data shard kv = record kv {
    shard_data = delete shard kv.shard_data;
    shared = delete shard kv.shared;
  }

  -- One round of migrationToPeer after its calls: `true` where it is done. A new group that the
  -- configuration does not have is called at no server.
  unfoldable pub migration_to_peer :
      ℕ → ℕ → Config → List (Option String) → ShardKv B → ShardKv B × Bool
  unfolding migration_pass remove_shard_data
  migration_to_peer shard new_gid new_config replies kv = elim (find new_gid new_config.groups) [
    | none ↦ (kv, false)
    | some servers ↦
        if migration_pass (take (length servers) replies)
        then (remove_shard_data shard kv, true)
        else (kv, false)
  ]

  -- The Op of a Migration request, at the server that gets it.
  unfoldable pub migration_op : ℕ → MigrationArgs → ShardKv B → Op
  migration_op request_id args kv = record {
    method = "Migration";
    shard = args.shard;
    key = "";
    value = "";
    client_id = kv.me;
    msg_id = args.msg_id;
    request_id = request_id;
    migration_data = args.kv_map;
  }

  -- FindConfig after its migrations, under a lock of its own.
  unfoldable pub end_migrations : ShardKv B → ShardKv B
  end_migrations kv = record kv { state = stable }

module _ {B : Type 0} (gob : Gob (PersistData Entry) B) where
  -- The end of FindConfig, also where it has nothing to migrate: the newest configuration goes into
  -- the log.
  unfoldable pub finish_find_config : Config → ShardKv B → Option (ShardKv B)
  finish_find_config cur kv = do
    (rf, answer) ← start gob (Command.op (config_entry cur)) kv.rf
    some (record kv { rf = rf })

  -- Migration: two tests of its own, and then the stages of waitForRaft.
  unfoldable pub migration : ℕ → MigrationArgs → Stage → ShardKv B → Option (ShardKv B × Stage)
  unfolding migration_op advance
  migration request_id args asked kv = some (
    kv,
    if not (args.new_gid == kv.gid)
        then refused "ErrWrongGroup"
        else if not (get_state kv.rf).1
        then refused "ErrWrongLeader"
        else owned,
  )
  migration request_id args stage kv =
      advance gob args.new_gid args.shard (migration_op request_id args kv) stage kv
