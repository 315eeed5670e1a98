-- ===== src/ShardMaster/Server.antt =====
-- The server of shardmaster/server.go: configurations, requests, and the operations that the log
-- delivers. Locks are held for the whole of each step here.
use Prim.Native.String.{String}
use sjytker_my_mit.Base.{
  ℕ, ◌+◌, ◌-◌, Bool, true, false, ◌||◌, Option, none, some, List, [], ◌∷◌, ◌++◌, ltb, leb,
  same_text, ◌==◌, if◌then◌else◌, ◌>>=◌, length, get_elem?, replicate, find, put, delete, ℤ,
  pos_part, neg_part, minus_one,
}
use sjytker_my_mit.Raft.State.{Command, ApplyMsg, Persister, Raft}
use sjytker_my_mit.Raft.Persist.{Gob, PersistData}
use sjytker_my_mit.Raft.Role.{set_at, get_state, start, make}
use sjytker_my_mit.ShardMaster.Config.{
  freeze, n_shards, Config, ServiceState, stable, transition, JoinArgs, LeaveArgs, MoveArgs,
  QueryArgs, join_args, leave_args, move_args, Op,
}
use sjytker_my_mit.ShardMaster.Adjust.{Orders, adjust_config}

-- The channel of a request, with the text of the `Err` in what was sent on it.
pub data Chan : Type 0 where
  waiting : Chan
  received : String → Chan
  left : Chan

pub record ShardMaster (B : Type 0) : Type 0 where
  pub me : ℕ
  pub rf : Raft Op B
  pub configs : List Config
  pub last_applies : List (ℕ × ℕ)
  pub notify_data : List (ℕ × Chan)
  pub state : ServiceState

-- How far a request has come; other steps of the server come between two stages. `asked` is the
-- beginning, `unstable` the loop that waits for a state, `changing` the call of changeState, `starting`
-- that of Start, `started` the lock under which the channel is made, and `waits` the wait for raft,
-- which finish_wait ends. `waited` is the return of waitForRaft, also where Start refuses, `frozen` the
-- sleep of Join, Leave and Move after it, and `ended` the end, as `wrong_leader` is at a follower.
pub data Stage : Type 0 where
  asked unstable changing starting started waits waited frozen ended wrong_leader : Stage

abbrev pub is_stable : ServiceState → Bool
is_stable stable = true
is_stable _ = false

abbrev pub is_transition : ServiceState → Bool
is_transition transition = true
is_transition _ = false

abbrev pub put_all : List (ℕ × List String) → List (ℕ × List String) → List (ℕ × List String)
put_all [] m = m
put_all ((k, v) ∷ more) m = put_all more (put k v m)

abbrev pub delete_all : List ℕ → List (ℕ × List String) → List (ℕ × List String)
delete_all [] m = m
delete_all (k ∷ ks) m = delete_all ks (delete k m)

module _ {B : Type 0} where
  -- getConfigCopy; -1 and all that is out of range stand for the newest.
  unfoldable pub get_config_copy : ℤ → ShardMaster B → Option Config
  get_config_copy i sm =
      if ltb 0 (neg_part i) || leb (length sm.configs) (pos_part i)
      then get_elem? sm.configs (length sm.configs - 1)
      else get_elem? sm.configs (pos_part i)

  abbrev pub append_config : Config → ShardMaster B → ShardMaster B
  append_config config sm = record sm { configs = sm.configs ++ config ∷ [] }

  unfoldable pub join : Orders → JoinArgs → ShardMaster B → Option (ShardMaster B)
  unfolding get_config_copy adjust_config
  join orders args sm = do
    last ← get_config_copy minus_one sm
    let config = record last { num = last.num + 1; groups = put_all args.servers last.groups }
    some (append_config (adjust_config orders last config) sm)

  unfoldable pub leave : Orders → LeaveArgs → ShardMaster B → Option (ShardMaster B)
  unfolding get_config_copy adjust_config
  leave orders args sm = do
    last ← get_config_copy minus_one sm
    let config = record last { num = last.num + 1; groups = delete_all args.gids last.groups }
    some (append_config (adjust_config orders last config) sm)

  unfoldable pub move : MoveArgs → ShardMaster B → Option (ShardMaster B)
  unfolding get_config_copy set_at
  move args sm = do
    last ← get_config_copy minus_one sm
    shards ← set_at last.shards args.shard args.gid
    some (append_config (record last { num = last.num + 1; shards = shards }) sm)

  unfoldable pub check_applied : ℕ → ℕ → ShardMaster B → Bool
  check_applied msg_id client_id sm = elim (find client_id sm.last_applies) [
    | none ↦ false
    | some old_msg_id ↦ msg_id == old_msg_id
  ]

  -- The switch of `apply` on the method; arguments of another type panic.
  unfoldable pub execute : Orders → Op → ShardMaster B → Option (ShardMaster B)
  unfolding join leave move
  execute orders op sm =
      if same_text op.method "Join"
      then elim op.args [ join_args args ↦ join orders args sm | _ ↦ none ]
      else if same_text op.method "Leave"
      then elim op.args [ leave_args args ↦ leave orders args sm | _ ↦ none ]
      else if same_text op.method "Move"
      then elim op.args [ move_args args ↦ move args sm | _ ↦ none ]
      else some sm

  -- The send on the channel of the request; it hangs where the caller does not wait any more.
  unfoldable pub notify : Op → ShardMaster B → Option (ShardMaster B)
  notify op sm = elim (find op.request_id sm.notify_data) [
    | none ↦ some sm
    | some waiting ↦
        some (record sm { notify_data = put op.request_id (received "OK") sm.notify_data })
    | some _ ↦ none
  ]

  -- `apply` for one message.
  unfoldable pub apply_msg : Orders → ApplyMsg Op → ShardMaster B → Option (ShardMaster B)
  unfolding check_applied execute notify
  apply_msg orders msg sm =
      if msg.command_valid
      then elim msg.command [
        | Command.op op ↦ do
          sm' ← (if check_applied op.msg_id op.client_id sm then some sm else execute orders op sm)
          notify op (record sm' { last_applies = put op.client_id op.msg_id sm'.last_applies })
        | _ ↦ none
      ]
      else some sm

  unfoldable pub change_state : ServiceState → ShardMaster B → ShardMaster B
  change_state state sm = record sm { state = state }

  unfoldable pub remove_ch : ℕ → ShardMaster B → ShardMaster B
  remove_ch id sm = record sm { notify_data = delete id sm.notify_data }

  -- The end of waitForRaft: the Err of the reply.
  unfoldable pub finish_wait : ℕ → ShardMaster B → ShardMaster B × String
  unfolding remove_ch
  finish_wait id sm = elim (find id sm.notify_data) [
    | some (received err) ↦ (remove_ch id sm, err)
    | _ ↦ (remove_ch id sm, "ErrTimeOut")
  ]

  -- Stable: the Err of the reply.
  unfoldable pub reply_stable : ShardMaster B → String
  reply_stable sm = if is_stable sm.state then "OK" else "ErrTransition"

  -- findGid: the Err and the gid of the reply; a shard that is out of range panics.
  unfoldable pub find_gid : ℕ → ShardMaster B → Option (String × ℕ)
  unfolding get_config_copy
  find_gid shard sm =
      if is_stable sm.state
      then (do
        config ← get_config_copy minus_one sm
        gid ← get_elem? config.shards shard
        some ("OK", gid))
      else some ("ErrTransition", 0)

  -- The Config of the reply of Query, after its wait.
  unfoldable pub finish_query : QueryArgs → ShardMaster B → Option Config
  unfolding get_config_copy
  finish_query args sm = get_config_copy args.num sm

module _ {B : Type 0} (gob : Gob (PersistData Op) B) where
  -- waitForRaft up to the wait, one lock at a time.
  unfoldable pub wait_for_raft : Op → Stage → ShardMaster B → Option (ShardMaster B × Stage)
  wait_for_raft op starting sm = do
    (rf, (index, term, leads)) ← start gob (Command.op op) sm.rf
    some (record sm { rf = rf }, if leads then started else waited)
  wait_for_raft op started sm =
      some (record sm { notify_data = put op.request_id waiting sm.notify_data }, waits)
  wait_for_raft op stage sm = some (sm, stage)

  -- Join, Leave and Move, but for the end of the wait.
  unfoldable pub change_rpc : Op → Stage → ShardMaster B → Option (ShardMaster B × Stage)
  unfolding wait_for_raft change_state
  change_rpc op asked sm = some (sm, if (get_state sm.rf).1 then unstable else wrong_leader)
  change_rpc op unstable sm = some (sm, if is_stable sm.state then changing else unstable)
  change_rpc op changing sm = some (change_state transition sm, starting)
  change_rpc op waited sm = some (change_state freeze sm, frozen)
  change_rpc op frozen sm = some (change_state stable sm, ended)
  change_rpc op stage sm = wait_for_raft op stage sm

  -- Query up to the wait for raft.
  unfoldable pub query_rpc : Op → Stage → ShardMaster B → Option (ShardMaster B × Stage)
  unfolding wait_for_raft
  query_rpc op asked sm = some (sm, if (get_state sm.rf).1 then unstable else wrong_leader)
  query_rpc op unstable sm = some (sm, if is_transition sm.state then unstable else starting)
  query_rpc op stage sm = wait_for_raft op stage sm

  -- StartServer
  unfoldable pub start_server : (servers me : ℕ) → Persister B → Option (ShardMaster B)
  unfolding make
  start_server servers me persister = do
    rf ← make gob servers me persister
    some (record {
      me = me;
      rf = rf;
      configs = record { num = 0; shards = replicate n_shards 0; groups = [] } ∷ [];
      last_applies = [];
      notify_data = [];
      state = stable;
    })

module _ {B : Type 0} where
  -- `apply` for the messages of applyCh, one after the other, each with the orders of its run.
  unfoldable pub apply_msgs : List (Orders × ApplyMsg Op) → ShardMaster B → Option (ShardMaster B)
  unfolding apply_msg
  apply_msgs [] sm = some sm
  apply_msgs ((orders, msg) ∷ msgs) sm = do sm' ← apply_msg orders msg sm; apply_msgs msgs sm'
