-- ===== src/ShardKv/AskingExamples.antt =====
-- A clerk of the sharded store whose configuration is old in the first round.
use Prim.Native.String.{String}
use sjytker_my_mit.Base.{
  ℕ, ◌<◌, ◌≡◌, refl, some, [], ◌∷◌, same_text, if◌then◌else◌, replicate, find,
}
use sjytker_my_mit.ShardMaster.Config.{Config}
use sjytker_my_mit.ShardKv.State.{GetArgs}
use sjytker_my_mit.ShardKv.Clerk.{
  key2shard, Clerk, Reply, rounds, round, pass, got_value, get_args, get,
}
use sjytker_my_mit.ShardKv.Asking.{config_of, AskedOwner, get-owner}

abbrev old : Config
old = record { num = 1; shards = replicate 10 1; groups = (1, "a" ∷ []) ∷ [] }

abbrev new : Config
new = record { num = 2; shards = replicate 10 2; groups = (1, "a" ∷ []) ∷ (2, "b" ∷ []) ∷ [] }

abbrev ck : Clerk
ck = record { config = old; client_id = 7 }

abbrev call : ℕ → GetArgs → String → Reply
call r args server = if same_text server "b" then some ("OK", "v") else some ("ErrWrongGroup", "")

get-owner_example :
    (r : ℕ) × (r < 3)
    × AskedOwner got_value
        (key2shard "k")
        (config_of (λ r. new) old 0 r)
        (λ gid. call r (get_args "k" 5 ck gid))
        "v"
    × (new ≡ config_of (λ r. new) old 0 r)
unfolding get rounds round pass key2shard find
get-owner_example = get-owner "k" 5 call (λ r. new) 3 ck (record ck { config = new }) "v" refl
