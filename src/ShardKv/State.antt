-- ===== src/ShardKv/State.antt =====
-- The types of shardkv (common.go, server.go). Shards and group ids are numbers from 0 on.
use Prim.Native.String.{String}
use sjytker_my_mit.Base.{ℕ, ◌≡◌, Option, none, some, List, [], ◌∷◌, find, ℤ}
use sjytker_my_mit.Raft.State.{Raft}
use sjytker_my_mit.ShardMaster.Config.{Config}
use sjytker_my_mit.Kv.{Store, Chan}

-- `migration_data` is a map, of which `none` is the nil map.
pub record Op : Type 0 where
  pub method : String
  pub shard : ℕ
  pub key : String
  pub value : String
  pub client_id : ℕ
  pub msg_id : ℕ
  pub request_id : ℕ
  pub migration_data : Option Store

-- What a server hands to raft: an Op or a shardmaster.Config.
pub data Entry : Type 0 where
  op_entry : Op → Entry
  config_entry : Config → Entry

pub data GroupState : Type 0 where
  stable transition : GroupState

-- `shard_data` is the map `data` from shards to maps, and `config` the pointer, which may be nil. A
-- shard that came with a Migration has the map of the Op in the log of raft, not a copy: `shared` has,
-- for such a shard, the index of the entry.
pub record ShardKv (B : Type 0) : Type 0 where
  pub me : ℕ
  pub rf : Raft Entry B
  pub gid : ℕ
  pub max_raft_state : ℤ
  pub config : Option Config
  pub shard_data : List (ℕ × Option Store)
  pub shared : List (ℕ × ℕ)
  pub last_applied : List (ℕ × ℕ)
  pub notify_data : List (ℕ × Chan)
  pub state : GroupState

-- What a snapshot encodes: data, lastApplied, config.
abbrev pub KvData : Type 0
KvData = List (ℕ × Option Store) × List (ℕ × ℕ) × Config

pub record PutAppendArgs : Type 0 where
  pub key : String
  pub value : String
  pub op : String
  pub msg_id : ℕ
  pub client_id : ℕ
  pub gid : ℕ
  pub shard : ℕ

pub record GetArgs : Type 0 where
  pub key : String
  pub msg_id : ℕ
  pub client_id : ℕ
  pub gid : ℕ
  pub shard : ℕ

pub record MigrationArgs : Type 0 where
  pub shard : ℕ
  pub kv_map : Option Store
  pub new_gid : ℕ
  pub msg_id : ℕ
  pub client_id : ℕ

-- No entry in any map.
abbrev pub no_keys : Store
no_keys key = none

-- A map as a reader sees it: the nil map has no keys.
abbrev pub entries : Option Store → Store
entries none = no_keys
entries (some store) = store

-- kv.data[shard]: a missing shard reads as the nil map.
abbrev pub shard_map : ℕ → List (ℕ × Option Store) → Option Store
shard_map shard shards = elim (find shard shards) [ none ↦ none | some m ↦ m ]

-- What gob makes of the map of shards: an inner map that is nil comes back as an empty one.
unfoldable pub decoded : List (ℕ × Option Store) → List (ℕ × Option Store)
decoded [] = []
decoded ((shard, m) ∷ shards) = (shard, some (entries m)) ∷ decoded shards

-- The encoding of a snapshot, which loses the difference between a nil and an empty map.
pub record SnapshotGob (B : Type 0) : Type 0 where
  pub encode : KvData → B
  pub decode : B → Option KvData
  pub decode-encode :
      (shards : List (ℕ × Option Store)) (last_applied : List (ℕ × ℕ)) (config : Config)
      → decode (encode (shards, last_applied, config)) ≡ some (decoded shards, last_applied, config)
