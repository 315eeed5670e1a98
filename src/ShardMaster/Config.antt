-- ===== src/ShardMaster/Config.antt =====
-- Configurations and the arguments of the requests (shardmaster/common.go). Group ids are taken as
-- numbers from 0 on, where 0 is the group that a shard without one has.
use Prim.Native.String.{String}
use sjytker_my_mit.Base.{ℕ, Bool, true, false, none, some, List, [], ◌∷◌, find, ℤ}

abbrev pub n_shards : ℕ
n_shards = 10

-- `shards` has n_shards entries, as the array; `groups` is the map.
pub record Config : Type 0 where
  pub num : ℕ
  pub shards : List ℕ
  pub groups : List (ℕ × List String)

abbrev pub keys {ℓ} : {V : Type ℓ} → List (ℕ × V) → List ℕ
keys [] = []
keys ((k, v) ∷ m) = k ∷ keys m

-- The test `_, ok := m[k]`.
unfoldable pub has {ℓ} : {V : Type ℓ} → ℕ → List (ℕ × V) → Bool
has k m = elim (find k m) [ none ↦ false | some v ↦ true ]

pub data ServiceState : Type 0 where
  stable transition freeze : ServiceState

pub record JoinArgs : Type 0 where
  pub servers : List (ℕ × List String)
  pub client_id : ℕ
  pub msg_id : ℕ

pub record LeaveArgs : Type 0 where
  pub gids : List ℕ
  pub client_id : ℕ
  pub msg_id : ℕ

pub record MoveArgs : Type 0 where
  pub shard : ℕ
  pub gid : ℕ
  pub client_id : ℕ
  pub msg_id : ℕ

pub record QueryArgs : Type 0 where
  pub num : ℤ
  pub client_id : ℕ
  pub msg_id : ℕ

-- What the field `Args interface{}` holds.
pub data Args : Type 0 where
  join_args : JoinArgs → Args
  leave_args : LeaveArgs → Args
  move_args : MoveArgs → Args
  query_args : QueryArgs → Args

pub record Op : Type 0 where
  pub method : String
  pub client_id : ℕ
  pub msg_id : ℕ
  pub request_id : ℕ
  pub args : Args
