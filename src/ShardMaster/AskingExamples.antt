-- ===== src/ShardMaster/AskingExamples.antt =====
-- A clerk of the shard master that finds the leader in the second round.
use sjytker_my_mit.Base.{
  ℕ, ◌≤◌, ◌<◌, ◌≡◌, refl, true, false, Option, none, some, [], arith, ◌==◌, if◌then◌else◌,
  replicate, minus_one,
}
use sjytker_my_mit.ShardMaster.Config.{Config, QueryArgs}
use sjytker_my_mit.ShardMaster.Clerk.{Clerk, Reply, accept, query}
use sjytker_my_mit.ShardMaster.Asking.{First, query-ends}

abbrev ck : Clerk
ck = record { servers = 2; client_id = 7 }

abbrev config : Config
config = record { num = 3; shards = replicate 10 1; groups = [] }

-- Server 0 answers in the second round; server 1 never leads.
abbrev call : QueryArgs → ℕ → ℕ → Option (Reply Config)
call args r s =
    if s == 0
    then (if r == 1 then some (record { wrong_leader = false; value = config }) else none)
    else some (record { wrong_leader = true; value = config })

query-ends_example :
    (found : Config) × (q : ℕ) × (t : ℕ) × (query minus_one 5 ck call 4 ≡ some found)
    × (q ≤ 1)
    × (t < 2)
    × First accept 2 (call (record { num = minus_one; client_id = 7; msg_id = 5 })) 0 q t found
query-ends_example = query-ends minus_one 5 ck call 4 1 0 config (omega arith) (omega arith) refl
