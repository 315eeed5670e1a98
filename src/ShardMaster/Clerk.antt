-- ===== src/ShardMaster/Clerk.antt =====
-- The clerk of the shard master (shardmaster/client.go): it asks one server after the other, and
-- sleeps between rounds. A reply is given by the round and the server, and is `none` where the call
-- fails. The loops have no bound: `fuel` is the number of rounds, and `none` a clerk still asking.
use sjytker_my_mit.Base.{
  ℕ, zero, suc, ◌+◌, Bool, true, false, Option, none, some, List, same_text, if◌then◌else◌, ℤ,
}
use sjytker_my_mit.ShardMaster.Config.{Config, JoinArgs, LeaveArgs, MoveArgs, QueryArgs}
use Prim.Native.String.{String}

pub record Clerk : Type 0 where
  pub servers : ℕ
  pub client_id : ℕ

unfoldable pub make_clerk : (servers random : ℕ) → Clerk
make_clerk servers random = record { servers = servers; client_id = random }

-- The parts of the replies that the clerk reads.
pub record Reply (A : Type 0) : Type 0 where
  pub wrong_leader : Bool
  pub value : A

abbrev pub accept : {A : Type 0} → Reply A → Option A
accept reply = if reply.wrong_leader then none else some reply.value

-- The first answer that is there.
abbrev pub or_else : {A : Type 0} → Option A → Option A → Option A
or_else none o = o
or_else (some a) o = some a

module _ {R A : Type 0} (accepts : R → Option A) where
  abbrev pub answer : Option R → Option A
  answer none = none
  answer (some reply) = accepts reply

  -- One round: the servers from number `i` on, `left` many.
  unfoldable pub pass : (ℕ → Option R) → ℕ → ℕ → Option A
  pass reply i zero = none
  pass reply i (suc left) = let rest = pass reply (i + 1) left in or_else (answer (reply i)) rest

  unfoldable pub rounds : (servers : ℕ) → (ℕ → ℕ → Option R) → (round fuel : ℕ) → Option A
  unfolding pass
  rounds servers reply round zero = none
  rounds servers reply round (suc fuel) =
      let rest = rounds servers reply (round + 1) fuel in
      or_else (pass (reply round) 0 servers) rest

unfoldable pub query :
    (num : ℤ) (msg_id : ℕ) → Clerk → (QueryArgs → ℕ → ℕ → Option (Reply Config)) → ℕ → Option Config
unfolding rounds
query num msg_id ck call fuel =
    rounds accept ck.servers
      (call (record { num = num; client_id = ck.client_id; msg_id = msg_id })) 0 fuel

unfoldable pub join :
    (servers : List (ℕ × List String)) (msg_id : ℕ)
    → Clerk
    → (JoinArgs → ℕ → ℕ → Option (Reply Unit))
    → ℕ
    → Option {0} Unit
unfolding rounds
join servers msg_id ck call fuel =
    rounds accept ck.servers
      (call (record { servers = servers; client_id = ck.client_id; msg_id = msg_id })) 0 fuel

unfoldable pub leave :
    (gids : List ℕ) (msg_id : ℕ)
    → Clerk
    → (LeaveArgs → ℕ → ℕ → Option (Reply Unit))
    → ℕ
    → Option {0} Unit
unfolding rounds
leave gids msg_id ck call fuel =
    rounds accept ck.servers
      (call (record { gids = gids; client_id = ck.client_id; msg_id = msg_id })) 0 fuel

unfoldable pub move :
    (shard gid msg_id : ℕ) → Clerk → (MoveArgs → ℕ → ℕ → Option (Reply Unit)) → ℕ → Option {0} Unit
unfolding rounds
move shard gid msg_id ck call fuel =
    rounds accept ck.servers
      (call (record { shard = shard; gid = gid; client_id = ck.client_id; msg_id = msg_id })) 0 fuel

-- Stable, one round only: is there a server that says so.
unfoldable pub stable : Clerk → (ℕ → Option String) → Bool
unfolding pass
stable ck call =
    elim (pass (λ err. if same_text err "OK" then some true else none) call 0 ck.servers) [
      | none ↦ false
      | some b ↦ b
    ]

-- FindGid, for replies with an Err and a gid.
unfoldable pub find_gid : (shard : ℕ) → Clerk → (ℕ → ℕ → ℕ → Option (String × ℕ)) → ℕ → Option ℕ
unfolding rounds
find_gid shard ck call fuel =
    rounds (λ (err, gid). if same_text err "OK" then some gid else none) ck.servers (call shard) 0
      fuel
