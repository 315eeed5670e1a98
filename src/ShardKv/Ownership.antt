-- ===== src/ShardKv/Ownership.antt =====
-- The configurations that a sharded server goes through.
use sjytker_my_mit.Base.{
  ℕ, ◌≤◌, ◌≡◌, ◌∙◌, subst, inl, inr, true, Option, none, some, List, [], ◌∷◌, arith, leb,
  Bool-cases, >>=-eq-some,
}
use sjytker_my_mit.Raft.State.{Command, ApplyMsg}
use sjytker_my_mit.Raft.Persist.{Gob, PersistData}
use sjytker_my_mit.ShardMaster.Config.{Config}
use sjytker_my_mit.ShardKv.Once.{Same, save_snapshot-Same, apply_op-Same}
use sjytker_my_mit.ShardKv.State.{Op, Entry, op_entry, config_entry, ShardKv, SnapshotGob}
use sjytker_my_mit.ShardKv.Store.{
  execute, put_shard, append_shard, read_snapshot, apply_config, apply_msg, apply_msgs,
}

module _ {B : Type 0} where
  execute-config :
      (index : ℕ) (op : Op) (kv : ShardKv B) {kv' : ShardKv B}
      → execute index op kv ≡ some kv'
      → kv'.config ≡ kv.config
  unfolding execute put_shard append_shard
  execute-config index op kv e = ground arith

module _ {B : Type 0} (gob : Gob (PersistData Entry) B) (kv_gob : SnapshotGob B) where
  -- A server that has a configuration keeps it or goes on to a later one.
  abbrev pub Later : ShardKv B → ShardKv B → Type 0
  Later kv kv' =
      (c : Config) → kv.config ≡ some c → (d : Config) × (kv'.config ≡ some d) × (c.num ≤ d.num)

  Same-Later : (kv kv' : ShardKv B) → Same kv' kv → Later kv kv'
  Same-Later kv kv' (a, b, p) c h = (c, p ∙ h, omega arith)

  apply_config-Later :
      (index : ℕ) (new : Config) (kv : ShardKv B) {kv' : ShardKv B}
      → apply_config gob kv_gob index new kv ≡ some kv'
      → Later kv kv'
  unfolding apply_config
  apply_config-Later index new kv {kv'} e c h = elim (Bool-cases (leb new.num c.num)) [
    | inl t ↦
        Same-Later kv kv' (save_snapshot-Same gob kv_gob index kv {kv' = kv'} (ground arith)) c h
    | inr f ↦ (new, ground arith, ground arith)
  ]

  read_snapshot-config :
      (snapshot : Option B) (kv : ShardKv B) {kv' : ShardKv B}
      → read_snapshot gob kv_gob snapshot kv ≡ some kv'
      → kv'.config ≡ kv.config
  unfolding read_snapshot
  read_snapshot-config none kv e = ground arith
  read_snapshot-config (some bytes) kv e = ground arith

  command-Later :
      (i : ℕ) (m : Command Entry) (kv : ShardKv B) {kv' : ShardKv B}
      → apply_msg gob kv_gob (record { command_valid = true; command = m; command_index = i }) kv
        ≡ some kv'
      → Later kv kv'
  unfolding apply_msg
  command-Later i Command.nothing kv e c h = (c, ground arith, omega arith)
  command-Later i (Command.message text) kv e c h = (c, ground arith, omega arith)
  command-Later i (Command.op (op_entry op)) kv e c h =
      let (k, p, (d, f, g)) = apply_op-Same gob kv_gob i op kv e in
      (c, g ∙ execute-config i op kv p ∙ h, omega arith)
  command-Later i (Command.op (config_entry new)) kv e c h = apply_config-Later i new kv e c h

  apply_msg-Later :
      (msg : ApplyMsg Entry) (kv : ShardKv B) {kv' : ShardKv B}
      → apply_msg gob kv_gob msg kv ≡ some kv'
      → Later kv kv'
  unfolding apply_msg
  apply_msg-Later msg kv {kv'} e c h = elim (Bool-cases msg.command_valid) [
    | inl t ↦
        command-Later msg.command_index msg.command kv
          (subst (λ b. apply_msg gob kv_gob (record msg { command_valid = b }) kv ≡ some kv') t e) c
          h
    | inr f ↦ (
      c,
      read_snapshot-config kv.rf.persister.snapshot kv {kv' = kv'} (ground arith) ∙ h,
      omega arith,
    )
  ]

  -- Whatever the log and the snapshots of raft bring, a server under a configuration never goes back
  -- to an earlier one.
  pub apply_msgs-Later :
      (msgs : List (ApplyMsg Entry)) (kv kv' : ShardKv B) (c : Config)
      → apply_msgs gob kv_gob msgs kv ≡ some kv'
      → kv.config ≡ some c
      → (d : Config) × (kv'.config ≡ some d) × (c.num ≤ d.num)
  unfolding apply_msgs
  apply_msgs-Later [] kv kv' c e h = (c, ground arith, omega arith)
  apply_msgs-Later (msg ∷ msgs) kv kv' c e h =
      let (k, e1, e2) = >>=-eq-some (apply_msg gob kv_gob msg kv) _ e in
      let (d, p, le1) = apply_msg-Later msg kv e1 c h in
      let (f, q, le2) = apply_msgs-Later msgs k kv' d e2 p in (f, q, omega arith)
