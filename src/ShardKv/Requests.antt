-- ===== src/ShardKv/Requests.antt =====
-- Get, PutAppend and waitForRaft of shardkv/server.go, one lock at a time.
use Prim.Native.String.{String}
use sjytker_my_mit.Base.{
  ℕ, Bool, true, false, not, Option, none, some, ◌==◌, if◌then◌else◌, ◌>>=◌, get_elem?, find, put,
  delete,
}
use sjytker_my_mit.Raft.State.{Command}
use sjytker_my_mit.Raft.Persist.{Gob, PersistData}
use sjytker_my_mit.Raft.Role.{get_state, start}
use sjytker_my_mit.Kv.{NotifyMsg, waiting, received, left}
use sjytker_my_mit.ShardKv.State.{
  Op, Entry, op_entry, GroupState, stable, transition, ShardKv, PutAppendArgs, GetArgs,
}

-- How far a Get or a PutAppend has come; other steps of the server come between two stages. `asked`
-- is the beginning, `unstable` the loop that waits for STABLE, `in_group` the sleep before the test
-- of the shard, `owned` the call of Start, `started` the lock under which the channel is made, `waits`
-- the wait for raft, and `refused` the end with an Err.
pub data Stage : Type 0 where
  asked unstable in_group owned started waits : Stage
  refused : String → Stage

abbrev pub is_stable : GroupState → Bool
is_stable stable = true
is_stable transition = false

unfoldable pub get_op : ℕ → GetArgs → Op
get_op request_id args = record {
  method = "Get";
  shard = args.shard;
  key = args.key;
  value = "";
  client_id = args.client_id;
  msg_id = args.msg_id;
  request_id = request_id;
  migration_data = none;
}

unfoldable pub put_append_op : ℕ → PutAppendArgs → Op
put_append_op request_id args = record {
  method = args.op;
  shard = args.shard;
  key = args.key;
  value = args.value;
  client_id = args.client_id;
  msg_id = args.msg_id;
  request_id = request_id;
  migration_data = none;
}

module _ {B : Type 0} where
  -- checkAndMigrateShard; a nil config and a shard that is out of range panic.
  unfoldable pub check_and_migrate_shard : ℕ → ShardKv B → Option Bool
  check_and_migrate_shard shard kv = do
    config ← kv.config
    new_gid ← get_elem? config.shards shard
    some (new_gid == kv.gid)

  unfoldable pub remove_ch : ℕ → ShardKv B → ShardKv B
  remove_ch id kv = record kv { notify_data = delete id kv.notify_data }

  -- The timeout of waitForRaft, before removeCh gets the lock.
  unfoldable pub time_out : ℕ → ShardKv B → ShardKv B
  time_out id kv = record kv { notify_data = put id left kv.notify_data }

  -- The end of waitForRaft: what came on the channel, with Err set to OK, or a timeout.
  unfoldable pub finish_wait : ℕ → ShardKv B → ShardKv B × NotifyMsg
  unfolding remove_ch
  finish_wait id kv = elim (find id kv.notify_data) [
    | some (received msg) ↦ (remove_ch id kv, record msg { err = "OK" })
    | _ ↦ (remove_ch id kv, record { err = "ErrTimeOut"; value = "" })
  ]

module _ {B : Type 0} (gob : Gob (PersistData Entry) B) where
  -- Start of waitForRaft.
  unfoldable pub start_op : Op → ShardKv B → Option (ShardKv B × Stage)
  start_op op kv = do
    (rf, (index, term, leads)) ← start gob (Command.op (op_entry op)) kv.rf
    some (record kv { rf = rf }, if leads then started else refused "ErrWrongLeader")

  -- What Get, PutAppend and Migration share: the next stage of a request for a group and a shard with
  -- its Op. Each stage has one look at the shared state, under its own lock.
  unfoldable pub advance : (gid shard : ℕ) → Op → Stage → ShardKv B → Option (ShardKv B × Stage)
  unfolding check_and_migrate_shard start_op
  advance gid shard op asked kv =
      some (kv, if (get_state kv.rf).1 then unstable else refused "ErrWrongLeader")
  advance gid shard op unstable kv = some (
    kv,
    if not (is_stable kv.state)
        then unstable
        else if gid == kv.gid
        then in_group
        else refused "ErrWrongGroup",
  )
  advance gid shard op in_group kv = do
    mine ← check_and_migrate_shard shard kv
    some (kv, if mine then owned else refused "ErrWrongGroup")
  advance gid shard op owned kv = start_op op kv
  advance gid shard op started kv =
      some (record kv { notify_data = put op.request_id waiting kv.notify_data }, waits)
  advance gid shard op waits kv = some (kv, waits)
  advance gid shard op (refused err) kv = some (kv, refused err)

  unfoldable pub get : ℕ → GetArgs → Stage → ShardKv B → Option (ShardKv B × Stage)
  unfolding advance get_op
  get request_id args stage kv = advance args.gid args.shard (get_op request_id args) stage kv

  unfoldable pub put_append : ℕ → PutAppendArgs → Stage → ShardKv B → Option (ShardKv B × Stage)
  unfolding advance put_append_op
  put_append request_id args stage kv =
      advance args.gid args.shard (put_append_op request_id args) stage kv
