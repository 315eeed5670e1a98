-- ===== src/ShardKv/Examples.antt =====
-- Runs of the sharded server.
use sjytker_my_mit.Base.{
  ℕ, ◌≤◌, ◌≡◌, refl, true, false, none, some, List, [], ◌∷◌, arith, replicate, find, put, pos,
  minus_one,
}
use sjytker_my_mit.Raft.State.{leader, append_now, Raft, Command, LogEntry}
use sjytker_my_mit.Raft.Persist.{Gob, PersistData, persist, persist_data, raft_state_size}
use sjytker_my_mit.Raft.Role.{start, append_entries_now}
use sjytker_my_mit.Raft.Snapshot.{compact}
use sjytker_my_mit.ShardMaster.Config.{Config}
use sjytker_my_mit.ShardKv.State.{
  Op, Entry, op_entry, config_entry, stable, transition, ShardKv, KvData, SnapshotGob, shard_map,
  entries, decoded,
}
use sjytker_my_mit.ShardKv.Store.{
  execute, put_shard, append_shard, write_through, with_map, save_snapshot, apply_msg, apply_msgs,
  start_server,
}
use sjytker_my_mit.ShardKv.Requests.{
  unstable, in_group, owned, started, check_and_migrate_shard, advance, start_op,
}
use sjytker_my_mit.ShardKv.Migrate.{shards_to_move}
use sjytker_my_mit.Kv.{Store, write}
use sjytker_my_mit.ShardKv.Once.{op_message, apply_msgs-retry}
use sjytker_my_mit.ShardKv.Recovery.{start_server-save_snapshot}
use sjytker_my_mit.ShardKv.Ownership.{apply_msgs-Later}

-- What is on disk: the state of raft, or the data of a server.
data Bytes : Type 0 where
  raft_bytes : PersistData Entry → Bytes
  kv_bytes : KvData → Bytes

abbrev gob : Gob (PersistData Entry) Bytes
gob = record {
  encode = raft_bytes;
  decode = λ b. elim b [ raft_bytes d ↦ some d | kv_bytes d ↦ none ];
  size = λ b. 1;
  decode-encode = λ a. refl;
  size-encode = λ a. omega arith;
}

abbrev kv_gob : SnapshotGob Bytes
kv_gob = record {
  encode = kv_bytes;
  decode = λ b. elim b [ raft_bytes d ↦ none | kv_bytes d ↦ some (decoded d.0, d.1, d.2) ];
  decode-encode = λ shards last config. refl;
}

abbrev rf : Raft Entry Bytes
rf = record {
  peers = 3;
  me = 0;
  dead = false;
  state = leader;
  current_term = 1;
  vote_for = pos 0;
  log = record { command = Command.message ""; term = 0 } ∷ [];
  commit_index = 0;
  last_applied = 0;
  next_index = pos 1 ∷ pos 1 ∷ pos 1 ∷ [];
  match_index = pos 0 ∷ pos 0 ∷ pos 0 ∷ [];
  last_snapshot_index = 0;
  last_snapshot_term = 0;
  persister = record { raft_state = none; snapshot = none };
  timers = [];
  notified = 0;
}

-- All shards at group 1, and then shards 0 and 1 at group 2.
abbrev first : Config
first = record { num = 1; shards = replicate 10 1; groups = (1, "a" ∷ []) ∷ [] }

abbrev second : Config
second = record {
  num = 2;
  shards = 2 ∷ 2 ∷ replicate 8 1;
  groups = (1, "a" ∷ []) ∷ (2, "b" ∷ []) ∷ [];
}

abbrev kv : ShardKv Bytes
kv = record {
  me = 0;
  rf = rf;
  gid = 1;
  max_raft_state = minus_one;
  config = some first;
  shard_data = (0, some (λ key. none)) ∷ (3, none) ∷ [];
  shared = [];
  last_applied = [];
  notify_data = [];
  state = stable;
}

abbrev put_a : Op
put_a = record {
  method = "Put";
  shard = 0;
  key = "k";
  value = "a";
  client_id = 7;
  msg_id = 10;
  request_id = 100;
  migration_data = none;
}

abbrev append_b : Op
append_b = record put_a { method = "Append"; value = "b"; client_id = 8 }

abbrev append_nil : Op
append_nil = record append_b { shard = 3 }

abbrev after_put : ShardKv Bytes
after_put = record kv {
  shard_data = (0, some (write "k" "a" (λ key. none))) ∷ (3, none) ∷ [];
  last_applied = (7, 10) ∷ [];
}

executed : execute 1 put_a kv ≡ some after_put
unfolding execute find put put_shard append_shard write_through
executed = refl

panicked : execute 1 append_nil kv ≡ none
unfolding execute find put put_shard append_shard write_through
panicked = refl

abbrev after_append : ShardKv Bytes
after_append = record after_put {
  shard_data = (0, some (write "k" "ab" (write "k" "a" (λ key. none)))) ∷ (3, none) ∷ [];
  last_applied = (7, 10) ∷ (8, 10) ∷ [];
}

apply_msgs-retry_example :
    (after_append.shard_data ≡ after_append.shard_data)
    × (after_append.last_applied ≡ after_append.last_applied)
    × (after_append.config ≡ after_append.config)
unfolding apply_msg apply_msgs find put
apply_msgs-retry_example =
    apply_msgs-retry gob kv_gob 1 3 put_a (record put_a { request_id = 102 })
      (op_message 2 append_b ∷ []) kv after_put after_append after_append refl refl refl
      (refl, ground arith, tt) refl refl refl

abbrev full : ShardKv Bytes
full = record kv { max_raft_state = pos 0 }

abbrev saved : ShardKv Bytes
saved = record full {
  rf = record rf {
    persister = record {
      raft_state = some (raft_bytes (persist_data rf));
      snapshot = some (kv_bytes (kv.shard_data, [], first));
    };
  };
}

start_server-save_snapshot_example :
    (new : ShardKv Bytes) × (start_server gob kv_gob 3 0 1 saved.rf.persister (pos 0) ≡ some new)
    × ((shard : ℕ)
        → entries (shard_map shard new.shard_data) ≡ entries (shard_map shard full.shard_data))
    × (new.last_applied ≡ full.last_applied)
    × (new.rf.log ≡ saved.rf.log)
    × ((shard : ℕ) → check_and_migrate_shard shard new ≡ none)
unfolding save_snapshot compact raft_state_size
start_server-save_snapshot_example =
    start_server-save_snapshot gob kv_gob 0 0 3 0 1 first full saved refl refl (omega arith)
      (omega arith) refl

abbrev new_log : List (LogEntry Entry)
new_log =
    record { command = Command.message ""; term = 0 }
    ∷ record { command = Command.op (op_entry put_a); term = 1 }
    ∷ []

abbrev served : ShardKv Bytes
served = record kv {
  rf = record rf {
    log = new_log;
    next_index = pos 2 ∷ pos 1 ∷ pos 1 ∷ [];
    match_index = pos 1 ∷ pos 0 ∷ pos 0 ∷ [];
    persister = record {
      raft_state = some (raft_bytes (1, pos 0, 0, 0, 0, new_log));
      snapshot = none;
    };
    timers = append_now ∷ [];
  };
}

abbrev moving : ShardKv Bytes
moving = record kv { state = transition; config = some second }

-- A request that has seen STABLE goes on under TRANSITION, and one whose shard was tested calls Start
-- when the group has the shard no more.
tested_in_transition :
    (advance gob 1 0 put_a unstable kv ≡ some (kv, in_group))
    × (advance gob 1 0 put_a in_group (record kv { state = transition })
        ≡ some (record kv { state = transition }, owned))
unfolding advance check_and_migrate_shard
tested_in_transition = (refl, refl)

started_without_shard :
    (check_and_migrate_shard 0 moving ≡ some false)
    × (advance gob 1 0 put_a owned moving ≡ some (record moving { rf = served.rf }, started))
unfolding advance check_and_migrate_shard start_op start persist append_entries_now
started_without_shard = (refl, refl)

-- A shard that came with entry 1 of the log, which holds the map of the shard.
abbrev brought : Store → Op
brought m = record put_a { method = "Migration"; migration_data = some m }

abbrev log_of : Store → List (LogEntry Entry)
log_of m =
    record { command = Command.message ""; term = 0 }
    ∷ record { command = Command.op (op_entry (brought m)); term = 1 }
    ∷ []

abbrev held : Store → ShardKv Bytes
held m = record kv {
  rf = record rf { log = log_of m };
  shard_data = (0, some m) ∷ [];
  shared = (0, 1) ∷ [];
}

abbrev old_map : Store
old_map = write "k" "a" (λ key. none)

abbrev new_map : Store
new_map = write "k" "ab" old_map

-- The Append of a client changes the entry of the Migration in the log of raft.
log_changed :
    execute 2 (record append_b { msg_id = 11 }) (held old_map)
    ≡ some (record (held new_map) { last_applied = (8, 11) ∷ [] })
unfolding execute find put append_shard write_through with_map
log_changed = refl

abbrev moved_on : ShardKv Bytes
moved_on = record kv { config = some second }

apply_msgs-Later_example : (d : Config) × (moved_on.config ≡ some d) × (1 ≤ d.num)
unfolding apply_msgs
apply_msgs-Later_example =
    apply_msgs-Later gob kv_gob
      (record {
        command_valid = true;
        command = Command.op (config_entry second);
        command_index = 1;
      }
        ∷ [])
      kv moved_on first refl refl

moved : shards_to_move 1 0 10 first second ≡ 0 ∷ 1 ∷ []
unfolding shards_to_move
moved = refl
