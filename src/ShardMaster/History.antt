-- ===== src/ShardMaster/History.antt =====
-- The list of configurations: numbered from 0, only ever extended, by at most one for each message.
use sjytker_my_mit.Base.{
  ℕ, zero, suc, ◌+◌, ◌-◌, ◌<◌, ◌≡◌, refl, sym, ◌∙◌, subst, ◌⊎◌, inl, inr, Bool, true, false, ◌||◌,
  some, List, [], ◌∷◌, ◌++◌, arith, ltb, leb, if◌then◌else◌, Bool-cases, >>=-eq-some, length,
  get_elem?, length-append, get_elem?-some, ℤ, pos_part, neg_part, minus_one,
}
use sjytker_my_mit.Raft.State.{Command, ApplyMsg}
use sjytker_my_mit.Raft.Role.{set_at}
use sjytker_my_mit.ShardMaster.Config.{
  Config, JoinArgs, LeaveArgs, MoveArgs, Args, join_args, leave_args, move_args, query_args, Op,
}
use sjytker_my_mit.ShardMaster.Adjust.{Orders, adjust_config}
use sjytker_my_mit.ShardMaster.Server.{
  ShardMaster, put_all, delete_all, get_config_copy, append_config, join, leave, move,
  check_applied, execute, notify, apply_msg,
}

-- The configurations have the numbers i, i + 1, ...
abbrev pub Numbered : ℕ → List Config → Type 0
Numbered i [] = Unit
Numbered i (c ∷ cs) = (c.num ≡ i) × Numbered (suc i) cs

abbrev pub IsHistory : List Config → Type 0
IsHistory cs = (0 < length cs) × Numbered 0 cs

-- The same list, or one configuration more, with the next number.
abbrev pub Extends : List Config → List Config → Type 0
Extends cs cs' = (cs' ≡ cs) ⊎ ((c : Config) × (cs' ≡ cs ++ c ∷ []) × (c.num ≡ length cs))

pub Numbered-get :
    (i k : ℕ) (cs : List Config) {c : Config}
    → Numbered i cs
    → get_elem? cs k ≡ some c
    → c.num ≡ i + k
Numbered-get i zero (c ∷ cs) (h, hs) e = ground arith
Numbered-get i (suc k) (c ∷ cs) (h, hs) e = omega (arith, Numbered-get (suc i) k cs hs e)
Numbered-get i k [] h e = ground arith

Numbered-append :
    (i : ℕ) (cs : List Config) (c : Config)
    → Numbered i cs
    → c.num ≡ i + length cs
    → Numbered i (cs ++ c ∷ [])
Numbered-append i [] c h e = (omega (arith, e), tt)
Numbered-append i (d ∷ cs) c (h, hs) e = (h, Numbered-append (suc i) cs c hs (omega (arith, e)))

Extends-IsHistory : (cs cs' : List Config) → IsHistory cs → Extends cs cs' → IsHistory cs'
Extends-IsHistory cs cs' h (inl e) = subst IsHistory (sym e) h
Extends-IsHistory cs cs' (l, h) (inr (c, e, n)) =
    subst IsHistory (sym e)
      (omega (arith, length-append cs (c ∷ [])), Numbered-append 0 cs c h (omega (arith, n)))

adjust_config-num :
    (orders : Orders) (last config : Config) → (adjust_config orders last config).num ≡ config.num
unfolding adjust_config
adjust_config-num orders last config = ground arith

module _ {B : Type 0} where
  get_config_copy-newest :
      (sm : ShardMaster B) (c : Config)
      → IsHistory sm.configs
      → get_config_copy minus_one sm ≡ some c
      → c.num + 1 ≡ length sm.configs
  unfolding get_config_copy
  get_config_copy-newest sm c (l, h) e =
      omega (arith, Numbered-get 0 (length sm.configs - 1) sm.configs h e)

  append-Extends :
      (c : Config) (sm : ShardMaster B) {sm' : ShardMaster B}
      → c.num ≡ length sm.configs
      → some (append_config c sm) ≡ some sm'
      → Extends sm.configs sm'.configs
  append-Extends c sm n e = inr (c, ground arith, n)

  -- Where the configurations are numbered from 0, a query for a number that exists gives the
  -- configuration of that number, and any other query gives the newest one.
  get_config_copy-num :
      (i : ℤ) (sm : ShardMaster B)
      → IsHistory sm.configs
      → (c : Config) × (get_config_copy i sm ≡ some c)
        × (c.num ≡ (
            if ltb 0 (neg_part i) || leb (length sm.configs) (pos_part i)
            then length sm.configs - 1
            else pos_part i))
  unfolding get_config_copy
  get_config_copy-num i sm (l, h) =
      let b = ltb 0 (neg_part i) || leb (length sm.configs) (pos_part i) in
      let k = if b then length sm.configs - 1 else pos_part i in
      let (c, e) = get_elem?-some sm.configs k (ground arith) in
      (c, ground arith, omega (arith, Numbered-get 0 k sm.configs h e))

  join-Extends :
      (orders : Orders) (args : JoinArgs) (sm : ShardMaster B) {sm' : ShardMaster B}
      → IsHistory sm.configs
      → join orders args sm ≡ some sm'
      → Extends sm.configs sm'.configs
  unfolding join
  join-Extends orders args sm h e =
      let (last, f, k) = >>=-eq-some (get_config_copy minus_one sm) _ e in
      let config = record last { num = last.num + 1; groups = put_all args.servers last.groups } in
      append-Extends (adjust_config orders last config) sm
        (adjust_config-num orders last config ∙ get_config_copy-newest sm last h f) k

  leave-Extends :
      (orders : Orders) (args : LeaveArgs) (sm : ShardMaster B) {sm' : ShardMaster B}
      → IsHistory sm.configs
      → leave orders args sm ≡ some sm'
      → Extends sm.configs sm'.configs
  unfolding leave
  leave-Extends orders args sm h e =
      let (last, f, k) = >>=-eq-some (get_config_copy minus_one sm) _ e in
      let config = record last { num = last.num + 1; groups = delete_all args.gids last.groups } in
      append-Extends (adjust_config orders last config) sm
        (adjust_config-num orders last config ∙ get_config_copy-newest sm last h f) k

  move-Extends :
      (args : MoveArgs) (sm : ShardMaster B) {sm' : ShardMaster B}
      → IsHistory sm.configs
      → move args sm ≡ some sm'
      → Extends sm.configs sm'.configs
  unfolding move
  move-Extends args sm h e =
      let (last, f, k) = >>=-eq-some (get_config_copy minus_one sm) _ e in
      let (shards, g, j) = >>=-eq-some (set_at last.shards args.shard args.gid) _ k in
      append-Extends (record last { num = last.num + 1; shards = shards }) sm
        (get_config_copy-newest sm last h f) j

  execute-Extends :
      (orders : Orders) (op : Op) (sm : ShardMaster B) {sm' : ShardMaster B} (args : Args)
      → op.args ≡ args
      → IsHistory sm.configs
      → execute orders op sm ≡ some sm'
      → Extends sm.configs sm'.configs
  unfolding execute
  execute-Extends orders op sm {sm'} (join_args args) a h e =
      ground (arith, join-Extends orders args sm {sm' = sm'} h)
  execute-Extends orders op sm {sm'} (leave_args args) a h e =
      ground (arith, leave-Extends orders args sm {sm' = sm'} h)
  execute-Extends orders op sm {sm'} (move_args args) a h e =
      ground (arith, move-Extends args sm {sm' = sm'} h)
  execute-Extends orders op sm {sm'} (query_args args) a h e = ground arith

  notify-configs :
      (op : Op) (sm : ShardMaster B) {sm' : ShardMaster B}
      → notify op sm ≡ some sm'
      → sm'.configs ≡ sm.configs
  unfolding notify
  notify-configs op sm e = ground arith

  apply_op-Extends :
      (orders : Orders) (index : ℕ) (op : Op) (sm : ShardMaster B) {sm' : ShardMaster B}
      → IsHistory sm.configs
      → apply_msg orders
          (record { command_valid = true; command = Command.op op; command_index = index })
          sm
        ≡ some sm'
      → Extends sm.configs sm'.configs
  unfolding apply_msg
  apply_op-Extends orders index op sm {sm'} h e =
      let b = check_applied op.msg_id op.client_id sm in
      let (mid, f, g) = >>=-eq-some (if b then some sm else execute orders op sm) _ e in
      let n = notify-configs op _ g in
      let x : Extends sm.configs mid.configs = elim (Bool-cases b) [
        | inl t ↦ inl (ground arith)
        | inr k ↦ execute-Extends orders op sm {sm' = mid} op.args refl h (ground arith)
      ] in
      subst (Extends sm.configs) (sym n) x

  apply-Extends :
      (orders : Orders) (valid : Bool) (command : Command Op) (index : ℕ) (sm : ShardMaster B)
      {sm' : ShardMaster B}
      → IsHistory sm.configs
      → apply_msg orders
          (record { command_valid = valid; command = command; command_index = index })
          sm
        ≡ some sm'
      → Extends sm.configs sm'.configs
  unfolding apply_msg
  apply-Extends orders false c index sm h e = inl (ground arith)
  apply-Extends orders true (Command.op op) index sm h e = apply_op-Extends orders index op sm h e
  apply-Extends orders true Command.nothing index sm h e = ground arith
  apply-Extends orders true (Command.message t) index sm h e = ground arith

  -- Where the configurations are numbered from 0, each message of the log leaves them as they are or
  -- appends one, with the next number: no old configuration ever changes.
  pub apply_msg-Extends :
      (orders : Orders) (msg : ApplyMsg Op) (sm sm' : ShardMaster B)
      → IsHistory sm.configs
      → apply_msg orders msg sm ≡ some sm'
      → IsHistory sm'.configs × Extends sm.configs sm'.configs
  apply_msg-Extends orders msg sm sm' h e =
      let x = apply-Extends orders msg.command_valid msg.command msg.command_index sm h e in
      (Extends-IsHistory sm.configs sm'.configs h x, x)
