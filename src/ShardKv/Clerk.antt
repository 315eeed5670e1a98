-- ===== src/ShardKv/Clerk.antt =====
-- The clerk of the sharded store (shardkv/client.go). A call has a round, the name of a server and
-- its arguments; `newest` gives what the shard master's clerk answers after a round. The loops have no
-- bound: `fuel` is the number of rounds, and `some none` a clerk still asking. `none` is a panic.
use Prim.Native.Char.{code}
use Prim.Native.String.{String, [] as no_text, ◌∷◌ as ◌∷S◌}
use sjytker_my_mit.Base.{
  ℕ, zero, suc, ◌+◌, ◌/◌, ◌%◌, Bool, ◌||◌, Option, none, some, List, [], ◌∷◌, ltb, same_text,
  if◌then◌else◌, ◌>>=◌, get_elem?, find,
}
use sjytker_my_mit.ShardMaster.Config.{Config, n_shards}
use sjytker_my_mit.ShardKv.State.{PutAppendArgs, GetArgs}

-- The first byte of the UTF-8 of a character.
abbrev pub first_byte : ℕ → ℕ
first_byte c =
    if ltb c 128
    then c
    else if ltb c 2048
    then 192 + c / 64
    else if ltb c 65_536
    then 224 + c / 4096
    else 240 + c / 262_144

unfoldable pub key2shard : String → ℕ
key2shard no_text = 0
key2shard (c ∷S s) = first_byte (code c) % n_shards

pub record Clerk : Type 0 where
  pub config : Config
  pub client_id : ℕ

-- MakeClerk, for the answer of the shard master's clerk.
unfoldable pub make_clerk : (newest : Config) (random : ℕ) → Clerk
make_clerk newest random = record { config = newest; client_id = random }

-- The Err and the value of a reply, if the call got one.
abbrev pub Reply : Type 0
Reply = Option (String × String)

-- What a reply makes of the pass, where `rest` comes from the servers behind. A wrong group ends it.
abbrev pub or_rest : (done : String → Bool) → Reply → Option String → Option String
or_rest done none rest = rest
or_rest done (some (err, value)) rest =
    if done err then some value else if same_text err "ErrWrongGroup" then none else rest

-- The servers of a group, one after the other.
unfoldable pub pass : (done : String → Bool) → (String → Reply) → List String → Option String
pass done call [] = none
pass done call (server ∷ servers) =
    let rest = pass done call servers in or_rest done (call server) rest

-- One round, for the group that the configuration gives a shard. `call` takes the group's number.
unfoldable pub round :
    (done : String → Bool) → (shard : ℕ) → Clerk → (ℕ → String → Reply) → Option (Option String)
unfolding pass
round done shard ck call = do
  gid ← get_elem? ck.config.shards shard
  elim (find gid ck.config.groups) [
    | none ↦ some none
    | some servers ↦ some (pass done (call gid) servers)
  ]

unfoldable pub rounds :
    (done : String → Bool)
    → (shard : ℕ) → (ℕ → ℕ → String → Reply)
    → (newest : ℕ → Config) → (r fuel : ℕ) → Clerk
    → Option (Option String × Clerk)
unfolding round
rounds done shard call newest r zero ck = some (none, ck)
rounds done shard call newest r (suc fuel) ck = do
  result ← round done shard ck (call r)
  elim result [
    | some value ↦ some (some value, ck)
    | none ↦ rounds done shard call newest (r + 1) fuel (record ck { config = newest r })
  ]

abbrev pub got_value : String → Bool
got_value err = same_text err "OK" || same_text err "ErrNoKey"

abbrev pub get_args : String → ℕ → Clerk → ℕ → GetArgs
get_args key msg_id ck gid = record {
  key = key;
  msg_id = msg_id;
  client_id = ck.client_id;
  gid = gid;
  shard = key2shard key;
}

abbrev pub put_append_args : (key value op : String) → ℕ → Clerk → ℕ → PutAppendArgs
put_append_args key value op msg_id ck gid = record {
  key = key;
  value = value;
  op = op;
  msg_id = msg_id;
  client_id = ck.client_id;
  gid = gid;
  shard = key2shard key;
}

unfoldable pub get :
    (key : String) (msg_id : ℕ)
    → (ℕ → GetArgs → String → Reply)
    → (newest : ℕ → Config) → (fuel : ℕ) → Clerk
    → Option (Option String × Clerk)
unfolding rounds key2shard
get key msg_id call newest fuel ck =
    rounds got_value (key2shard key) (λ r gid. call r (get_args key msg_id ck gid)) newest 0 fuel ck

-- The reply of PutAppend has an Err only; its value here is not read.
unfoldable pub put_append :
    (key value op : String) (msg_id : ℕ)
    → (ℕ → PutAppendArgs → String → Reply)
    → (newest : ℕ → Config) → (fuel : ℕ) → Clerk
    → Option (Option String × Clerk)
unfolding rounds key2shard
put_append key value op msg_id call newest fuel ck =
    rounds (λ err. same_text err "OK") (key2shard key)
      (λ r gid. call r (put_append_args key value op msg_id ck gid)) newest 0 fuel ck
