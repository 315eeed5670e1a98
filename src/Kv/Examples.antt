-- ===== src/Kv/Examples.antt =====
-- Runs of the key-value server.
use sjytker_my_mit.Base.{
  ℕ, ◌≡◌, refl, true, false, Option, none, some, List, [], ◌∷◌, arith, find, put, ℤ, pos, minus_one,
}
use sjytker_my_mit.Raft.State.{follower, Raft, Command}
use sjytker_my_mit.Raft.Persist.{Gob, PersistData, persist_data, raft_state_size}
use sjytker_my_mit.Raft.Snapshot.{compact}
use sjytker_my_mit.Kv.{
  waiting, Op, read, write, Chan, KvServer, KvData, apply_msg, save_snapshot, start_kv_server,
  started, waits, advance,
}
use sjytker_my_mit.Kv.Once.{execute_all, run, fresh, execute_all-run}
use sjytker_my_mit.Kv.Linear.{history}
use sjytker_my_mit.Kv.Recovery.{start_kv_server-save_snapshot}

-- What is on disk: the state of raft, or the data of a server.
data Bytes : Type 0 where
  raft_bytes : PersistData Op → Bytes
  kv_bytes : KvData → Bytes

abbrev gob : Gob (PersistData Op) Bytes
gob = record {
  encode = raft_bytes;
  decode = λ b. elim b [ raft_bytes d ↦ some d | kv_bytes d ↦ none ];
  size = λ b. 1;
  decode-encode = λ a. refl;
  size-encode = λ a. omega arith;
}

abbrev kv_gob : Gob KvData Bytes
kv_gob = record {
  encode = kv_bytes;
  decode = λ b. elim b [ raft_bytes d ↦ none | kv_bytes d ↦ some d ];
  size = λ b. 1;
  decode-encode = λ a. refl;
  size-encode = λ a. omega arith;
}

abbrev rf : Raft Op Bytes
rf = record {
  peers = 3;
  me = 0;
  dead = false;
  state = follower;
  current_term = 0;
  vote_for = minus_one;
  log = record { command = Command.message ""; term = 0 } ∷ [];
  commit_index = 0;
  last_applied = 0;
  next_index = [];
  match_index = [];
  last_snapshot_index = 0;
  last_snapshot_term = 0;
  persister = record { raft_state = none; snapshot = none };
  timers = [];
  notified = 0;
}

abbrev server : ℤ → List (ℕ × Chan) → KvServer Bytes
server limit channels = record {
  me = 0;
  rf = rf;
  store = λ key. none;
  max_raft_state = limit;
  last_applied = [];
  notify_data = channels;
}

abbrev kv : KvServer Bytes
kv = server minus_one []

abbrev put_a : Op
put_a = record {
  method = "Put";
  key = "k";
  value = "a";
  client_id = 1;
  msg_id = 10;
  request_id = 100;
}

abbrev append_b : Op
append_b = record {
  method = "Append";
  key = "k";
  value = "b";
  client_id = 2;
  msg_id = 20;
  request_id = 200;
}

abbrev retry_a : Op
retry_a = record put_a { request_id = 101 }

abbrev nobody : ℕ → Option ℕ
nobody c = none

no_messages : (c : ℕ) → find c kv.last_applied ≡ nobody c
unfolding find
no_messages c = refl

retried : read (execute_all (put_a ∷ append_b ∷ retry_a ∷ []) kv).store "k" ≡ "ab"
unfolding execute_all find put
retried = refl

execute_all-run_example :
    (execute_all (put_a ∷ append_b ∷ retry_a ∷ []) kv).store
    ≡ run (fresh nobody (put_a ∷ append_b ∷ retry_a ∷ [])) kv.store
execute_all-run_example = execute_all-run (put_a ∷ append_b ∷ retry_a ∷ []) kv nobody no_messages

abbrev full : KvServer Bytes
full = server (pos 0) []

abbrev saved : KvServer Bytes
saved = record full {
  rf = record rf {
    persister = record {
      raft_state = some (raft_bytes (persist_data rf));
      snapshot = some (kv_bytes (full.store, []));
    };
  };
}

start_kv_server-save_snapshot_example :
    (new : KvServer Bytes) × (start_kv_server gob kv_gob 3 0 saved.rf.persister (pos 0) ≡ some new)
    × (new.store ≡ full.store)
    × (new.last_applied ≡ full.last_applied)
    × (new.rf.log ≡ saved.rf.log)
    × (new.rf.current_term ≡ saved.rf.current_term)
    × (new.rf.vote_for ≡ saved.rf.vote_for)
unfolding save_snapshot compact raft_state_size
start_kv_server-save_snapshot_example =
    start_kv_server-save_snapshot gob kv_gob 0 0 3 0 full saved refl (omega arith) (omega arith)
      refl

abbrev get_k : Op
get_k = record {
  method = "Get";
  key = "k";
  value = "";
  client_id = 2;
  msg_id = 21;
  request_id = 201;
}

abbrev log : List Op
log = put_a ∷ append_b ∷ retry_a ∷ get_k ∷ []

three_seen :
    history nobody log kv
    ≡ (record { op = 1; key = "k"; value = "a" }, record { value = "a" })
      ∷ (record { op = 2; key = "k"; value = "b" }, record { value = "ab" })
      ∷ (record { op = 0; key = "k"; value = "" }, record { value = "ab" })
      ∷ []
unfolding history find put
three_seen = refl

abbrev put_applied : KvServer Bytes
put_applied = record kv { store = write "k" "a" kv.store; last_applied = (1, 10) ∷ [] }

-- The entry of a request is applied before its channel is there: nothing is sent to it then.
applied_before_wait :
    (apply_msg gob kv_gob
        (record { command_valid = true; command = Command.op put_a; command_index = 1 })
        kv
      ≡ some put_applied)
    × (advance gob kv_gob put_a started put_applied
        ≡ some (record put_applied { notify_data = (100, waiting) ∷ [] }, waits))
unfolding apply_msg advance find put
applied_before_wait = (refl, refl)
