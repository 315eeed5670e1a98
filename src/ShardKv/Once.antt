-- ===== src/ShardKv/Once.antt =====
-- Retries of a request to a sharded server, through the loop of WaitApplyCh.
use sjytker_my_mit.Base.{
  ℕ, ◌≡◌, refl, sym, ap, ◌∙◌, subst, ◌≢◌, inl, inr, Bool, true, false, ◌||◌, none, some, List, [],
  ◌∷◌, arith, leb, same_text, same_text_iff, Bool-cases, Option-cases, >>=-eq-some, find,
  find-put_self, find-put_ne,
}
use sjytker_my_mit.Raft.State.{Command, ApplyMsg}
use sjytker_my_mit.ShardMaster.Config.{Config}
use sjytker_my_mit.Raft.Persist.{Gob, PersistData}
use sjytker_my_mit.ShardKv.State.{Op, Entry, op_entry, config_entry, ShardKv, SnapshotGob}
use sjytker_my_mit.ShardKv.Store.{
  check_applied, execute, notify, save_snapshot, apply_op, apply_config, apply_msg, apply_msgs,
}

abbrev pub is_change : Op → Bool
is_change op = same_text op.method "Put" || same_text op.method "Append"

-- The message that the log entry with this operation becomes.
abbrev pub op_message : ℕ → Op → ApplyMsg Entry
op_message index op = record {
  command_valid = true;
  command = Command.op (op_entry op);
  command_index = index;
}

-- A command that is no operation of this client.
abbrev pub ElsewhereCommand : ℕ → Command Entry → Type 0
ElsewhereCommand c (Command.op (op_entry op)) = op.client_id ≢ c
ElsewhereCommand c (Command.op (config_entry config)) = Unit
ElsewhereCommand c Command.nothing = Unit
ElsewhereCommand c (Command.message text) = Unit

-- Commands, and none of them an operation of this client.
abbrev pub Elsewhere : ℕ → List (ApplyMsg Entry) → Type 0
Elsewhere c [] = Unit
Elsewhere c (msg ∷ msgs) =
    (msg.command_valid ≡ true) × ElsewhereCommand c msg.command × Elsewhere c msgs

-- A change is no Migration.
is_change_Migration : (op : Op) → is_change op ≡ true → same_text op.method "Migration" ≡ false
is_change_Migration op h = elim (Bool-cases (same_text op.method "Put")) [
  | inl t ↦ rw ((same_text_iff op.method "Put").0 t) refl
  | inr f ↦ rw ((same_text_iff op.method "Append").0 (ground arith)) refl
]

module _ {B : Type 0} where
  -- The same shards, last messages and configuration.
  abbrev pub Same : ShardKv B → ShardKv B → Type 0
  Same kv kv' =
      (kv.shard_data ≡ kv'.shard_data)
      × (kv.last_applied ≡ kv'.last_applied)
      × (kv.config ≡ kv'.config)

  notify-Same : (op : Op) (kv : ShardKv B) {kv' : ShardKv B} → notify op kv ≡ some kv' → Same kv' kv
  unfolding notify
  notify-Same op kv e = ground arith

  execute-Elsewhere :
      (c i : ℕ) (op : Op) (kv : ShardKv B) {kv' : ShardKv B}
      → execute i op kv ≡ some kv'
      → op.client_id ≢ c
      → find c kv'.last_applied ≡ find c kv.last_applied
  unfolding execute
  execute-Elsewhere c i op kv e ne = grind (arith, find-put_ne)

  execute-records :
      (i : ℕ) (op : Op) (kv : ShardKv B) {kv' : ShardKv B}
      → is_change op ≡ true
      → execute i op kv ≡ some kv'
      → find op.client_id kv'.last_applied ≡ some op.msg_id
  unfolding execute check_applied
  execute-records i op kv h e =
      let m = is_change_Migration op h in
      ground (arith, find-put_self op.client_id op.msg_id kv.last_applied)

  execute-again :
      (i : ℕ) (op : Op) (kv : ShardKv B)
      → find op.client_id kv.last_applied ≡ some op.msg_id
      → execute i op kv ≡ some kv
  unfolding execute check_applied
  execute-again i op kv h = ground arith

module _ {B : Type 0} (gob : Gob (PersistData Entry) B) (kv_gob : SnapshotGob B) where
  pub save_snapshot-Same :
      (index : ℕ) (kv : ShardKv B) {kv' : ShardKv B}
      → save_snapshot gob kv_gob index kv ≡ some kv'
      → Same kv' kv
  unfolding save_snapshot
  save_snapshot-Same index kv e = ground arith

  pub apply_op-Same :
      (index : ℕ) (op : Op) (kv : ShardKv B) {kv' : ShardKv B}
      → apply_op gob kv_gob index op kv ≡ some kv'
      → (k : ShardKv B) × (execute index op kv ≡ some k) × Same kv' k
  unfolding apply_op
  apply_op-Same index op kv e =
      let (k, e1, e2) = >>=-eq-some (execute index op kv) _ e in
      let (l, e3, e4) = >>=-eq-some (save_snapshot gob kv_gob index k) _ e2 in
      let (a, b, c) = save_snapshot-Same index k e3 in
      let (d, f, g) = notify-Same op l e4 in (k, e1, (d ∙ a, f ∙ b, g ∙ c))

  apply_config-last :
      (index : ℕ) (new : Config) (kv : ShardKv B) {kv' : ShardKv B}
      → apply_config gob kv_gob index new kv ≡ some kv'
      → kv'.last_applied ≡ kv.last_applied
  unfolding apply_config
  apply_config-last index new kv {kv'} e = elim (Option-cases kv.config) [
    | inl n ↦ ground arith
    | inr (c, p) ↦ elim (Bool-cases (leb new.num c.num)) [
      | inl t ↦ (save_snapshot-Same index kv {kv' = kv'} (ground arith)).1
      | inr f ↦ ground arith
    ]
  ]

  command-Elsewhere :
      (c i : ℕ) (m : Command Entry) (kv : ShardKv B) {kv' : ShardKv B}
      → apply_msg gob kv_gob (record { command_valid = true; command = m; command_index = i }) kv
        ≡ some kv'
      → ElsewhereCommand c m
      → find c kv'.last_applied ≡ find c kv.last_applied
  unfolding apply_msg
  command-Elsewhere c i Command.nothing kv e w = ground arith
  command-Elsewhere c i (Command.message text) kv e w = ground arith
  command-Elsewhere c i (Command.op (op_entry op)) kv e w =
      let (k, p, (d, f, g)) = apply_op-Same i op kv e in
      ap (find c) f ∙ execute-Elsewhere c i op kv p w
  command-Elsewhere c i (Command.op (config_entry new)) kv e w =
      ap (find c) (apply_config-last i new kv e)

  apply_msg-Elsewhere :
      (c : ℕ) (msg : ApplyMsg Entry) (kv : ShardKv B) {kv' : ShardKv B}
      → apply_msg gob kv_gob msg kv ≡ some kv'
      → msg.command_valid ≡ true
      → ElsewhereCommand c msg.command
      → find c kv'.last_applied ≡ find c kv.last_applied
  apply_msg-Elsewhere c msg kv {kv'} e h w =
      command-Elsewhere c msg.command_index msg.command kv
        (subst (λ b. apply_msg gob kv_gob (record msg { command_valid = b }) kv ≡ some kv') h e) w

  apply_msgs-Elsewhere :
      (c : ℕ) (msgs : List (ApplyMsg Entry)) (kv : ShardKv B) {kv' : ShardKv B}
      → apply_msgs gob kv_gob msgs kv ≡ some kv'
      → Elsewhere c msgs
      → find c kv'.last_applied ≡ find c kv.last_applied
  unfolding apply_msgs
  apply_msgs-Elsewhere c [] kv e h = ground arith
  apply_msgs-Elsewhere c (msg ∷ msgs) kv e (v, w, hs) =
      let (k, e1, e2) = >>=-eq-some (apply_msg gob kv_gob msg kv) _ e in
      apply_msgs-Elsewhere c msgs k e2 hs ∙ apply_msg-Elsewhere c msg kv e1 v w

  -- A Put or Append that the log has again, with any configurations and operations of other clients
  -- between, changes no shard, no last message and no configuration the second time.
  pub apply_msgs-retry :
      (i j : ℕ) (op retry : Op) (msgs : List (ApplyMsg Entry)) (kv k l kv' : ShardKv B)
      → is_change op ≡ true
      → retry.client_id ≡ op.client_id
      → retry.msg_id ≡ op.msg_id
      → Elsewhere op.client_id msgs
      → apply_msg gob kv_gob (op_message i op) kv ≡ some k
      → apply_msgs gob kv_gob msgs k ≡ some l
      → apply_msg gob kv_gob (op_message j retry) l ≡ some kv'
      → (kv'.shard_data ≡ l.shard_data)
        × (kv'.last_applied ≡ l.last_applied)
        × (kv'.config ≡ l.config)
  unfolding apply_msg
  apply_msgs-retry i j op retry msgs kv k l kv' h c m e e1 e2 e3 =
      let (a, p, (d, f, g)) = apply_op-Same i op kv e1 in
      let (b, q, r) = apply_op-Same j retry l e3 in
      let last = ap (find op.client_id) f ∙ execute-records i op kv h p in
      let again =
        execute-again j retry l
          (rw (c, m) (apply_msgs-Elsewhere op.client_id msgs k e2 e ∙ last)) in
      subst (Same kv')
        (ap (λ o. elim o as (λ _. ShardKv B) [ none ↦ l | some x ↦ x ]) (sym q ∙ again)) r
