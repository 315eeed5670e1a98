-- ===== src/ShardMaster/Examples.antt =====
-- Runs of the shard master.
use sjytker_my_mit.Base.{
  replicate, ℕ, ◌≡◌, refl, none, some, List, [], ◌∷◌, ◌++◌, arith, pos, minus_one, true, false,
  find, put,
}
use sjytker_my_mit.Raft.State.{follower, Command, ApplyMsg, Raft}
use sjytker_my_mit.Raft.Persist.{Gob, PersistData}
use sjytker_my_mit.ShardMaster.Runs.{query-stays}
use sjytker_my_mit.ShardMaster.Config.{n_shards, Config, stable, join_args, Op}
use sjytker_my_mit.ShardMaster.Adjust.{Orders, adjust_config}
use sjytker_my_mit.ShardMaster.Server.{
  unstable, changing, change_rpc, start_server, apply_msgs, ShardMaster, get_config_copy, apply_msg,
}
use sjytker_my_mit.ShardMaster.History.{IsHistory, Extends, apply_msg-Extends}

-- Every loop in the order of the association list, and the groups of config in a given order.
abbrev in_order : (List ℕ → List ℕ) → Orders
in_order order = record {
  keeping = order;
  leaving = λ gid ks. ks;
  coming = order;
  leaving_too = λ gid ks. ks;
  cleaning = λ ks. ks;
  filling = order;
}

abbrev as_listed : Orders
as_listed = in_order (λ ks. ks)

abbrev swap : List ℕ → List ℕ
swap (x ∷ y ∷ ks) = y ∷ x ∷ ks
swap ks = ks

-- Ten shards in group 1, and two groups that join.
abbrev one_group : Config
one_group = record {
  num = 1;
  shards = 1 ∷ 1 ∷ 1 ∷ 1 ∷ 1 ∷ 1 ∷ 1 ∷ 1 ∷ 1 ∷ 1 ∷ [];
  groups = (1, "a" ∷ []) ∷ [];
}

abbrev three_groups : Config
three_groups = record one_group {
  num = 2;
  groups = (2, "b" ∷ []) ∷ (3, "c" ∷ []) ∷ (1, "a" ∷ []) ∷ [];
}

joined :
    (adjust_config as_listed one_group three_groups).shards
    ≡ 2 ∷ 2 ∷ 2 ∷ 3 ∷ 3 ∷ 3 ∷ 1 ∷ 1 ∷ 1 ∷ 1 ∷ []
unfolding adjust_config find put
joined = refl

-- Another order of one loop over the same map gives other owners.
joined_in_another_order :
    (adjust_config (in_order swap) one_group three_groups).shards
    ≡ 3 ∷ 3 ∷ 3 ∷ 2 ∷ 2 ∷ 2 ∷ 1 ∷ 1 ∷ 1 ∷ 1 ∷ []
unfolding adjust_config find put
joined_in_another_order = refl

-- Three groups with three shards each and one with one; when that one leaves, its shard stays.
abbrev four_groups : Config
four_groups = record {
  num = 4;
  shards = 1 ∷ 1 ∷ 1 ∷ 2 ∷ 2 ∷ 2 ∷ 3 ∷ 3 ∷ 3 ∷ 4 ∷ [];
  groups = (1, "a" ∷ []) ∷ (2, "b" ∷ []) ∷ (3, "c" ∷ []) ∷ (4, "d" ∷ []) ∷ [];
}

abandoned :
    (adjust_config as_listed four_groups (record four_groups {
      num = 5;
      groups = (1, "a" ∷ []) ∷ (2, "b" ∷ []) ∷ (3, "c" ∷ []) ∷ [];
    })).shards
    ≡ four_groups.shards
unfolding adjust_config find put
abandoned = refl

-- After moves, a join can leave a shard without a group.
abbrev moved_groups : Config
moved_groups = record {
  num = 3;
  shards = 1 ∷ 2 ∷ 2 ∷ 2 ∷ 2 ∷ 2 ∷ 2 ∷ 2 ∷ 2 ∷ 2 ∷ [];
  groups = (1, "a" ∷ []) ∷ (2, "b" ∷ []) ∷ [];
}

unassigned :
    (adjust_config as_listed moved_groups (record moved_groups {
      num = 4;
      groups = (1, "a" ∷ []) ∷ (2, "b" ∷ []) ∷ (3, "c" ∷ []) ∷ [];
    })).shards
    ≡ 1 ∷ 1 ∷ 1 ∷ 3 ∷ 3 ∷ 3 ∷ 0 ∷ 2 ∷ 2 ∷ 2 ∷ []
unfolding adjust_config find put
unassigned = refl

abbrev rf : Raft Op ℕ
rf = record {
  peers = 3;
  me = 0;
  dead = false;
  state = follower;
  current_term = 0;
  vote_for = minus_one;
  log = record { command = Command.message ""; term = 0 } ∷ [];
  commit_index = 0;
  last_applied = 0;
  next_index = [];
  match_index = [];
  last_snapshot_index = 0;
  last_snapshot_term = 0;
  persister = record { raft_state = none; snapshot = none };
  timers = [];
  notified = 0;
}

abbrev sm : ShardMaster ℕ
sm = record {
  me = 0;
  rf = rf;
  configs =
      record { num = 0; shards = 0 ∷ 0 ∷ 0 ∷ 0 ∷ 0 ∷ 0 ∷ 0 ∷ 0 ∷ 0 ∷ 0 ∷ []; groups = [] }
      ∷ one_group
      ∷ [];
  last_applies = [];
  notify_data = [];
  state = stable;
}

abbrev joining : ApplyMsg Op
joining = record {
  command_valid = true;
  command = Command.op (record {
    method = "Join";
    client_id = 1;
    msg_id = 10;
    request_id = 100;
    args = join_args (record { servers = (2, "b" ∷ []) ∷ []; client_id = 1; msg_id = 10 });
  });
  command_index = 1;
}

abbrev grown : ShardMaster ℕ
grown = record sm {
  configs =
      sm.configs
      ++ record {
        num = 2;
        shards = 2 ∷ 2 ∷ 2 ∷ 2 ∷ 2 ∷ 1 ∷ 1 ∷ 1 ∷ 1 ∷ 1 ∷ [];
        groups = (1, "a" ∷ []) ∷ (2, "b" ∷ []) ∷ [];
      }
        ∷ [];
  last_applies = (1, 10) ∷ [];
}

apply_msg-Extends_example : IsHistory grown.configs × Extends sm.configs grown.configs
unfolding apply_msg find put
apply_msg-Extends_example =
    apply_msg-Extends as_listed joining sm grown (omega arith, (refl, (refl, tt))) refl

-- The bytes of a state of raft are that state.
abbrev gob : Gob (PersistData Op) (PersistData Op)
gob = record {
  encode = λ a. a;
  decode = λ a. some a;
  size = λ a. 1;
  decode-encode = λ a. refl;
  size-encode = λ a. omega arith;
}

abbrev new_rf : Raft Op (PersistData Op)
new_rf = record {
  peers = 3;
  me = 0;
  dead = false;
  state = follower;
  current_term = 0;
  vote_for = minus_one;
  log = record { command = Command.message ""; term = 0 } ∷ [];
  commit_index = 0;
  last_applied = 0;
  next_index = [];
  match_index = [];
  last_snapshot_index = 0;
  last_snapshot_term = 0;
  persister = record { raft_state = none; snapshot = none };
  timers = [];
  notified = 0;
}

abbrev no_groups : Config
no_groups = record { num = 0; shards = replicate n_shards 0; groups = [] }

abbrev group_2 : Config
group_2 = record { num = 1; shards = replicate n_shards 2; groups = (2, "b" ∷ []) ∷ [] }

abbrev started : List Config → List (ℕ × ℕ) → ShardMaster (PersistData Op)
started configs last = record {
  me = 0;
  rf = new_rf;
  configs = configs;
  last_applies = last;
  notify_data = [];
  state = stable;
}

query-stays_example :
    (c : Config) × (get_config_copy (pos 0) (started (no_groups ∷ []) []) ≡ some c)
    × (get_config_copy (pos 0) (started (no_groups ∷ group_2 ∷ []) ((1, 10) ∷ [])) ≡ some c)
    × (c.num ≡ 0)
unfolding start_server apply_msgs find put
query-stays_example =
    query-stays gob 3 0 new_rf.persister [] ((as_listed, joining) ∷ [])
      (started (no_groups ∷ []) []) (started (no_groups ∷ []) [])
      (started (no_groups ∷ group_2 ∷ []) ((1, 10) ∷ [])) 0 refl refl refl (omega arith)

-- A server that one request has found stable is found so by another before the first changes it.
both_changing :
    (one other : Op)
    → (change_rpc gob one unstable (started (no_groups ∷ []) [])
        ≡ some (started (no_groups ∷ []) [], changing))
      × (change_rpc gob other unstable (started (no_groups ∷ []) [])
          ≡ some (started (no_groups ∷ []) [], changing))
unfolding change_rpc
both_changing one other = (refl, refl)
