-- ===== src/Kv/Clerk.antt =====
-- The clerk of the key-value server (kvraft/client.go): Get, PutAppend and FindLeader.
use Prim.Native.String.{String}
use sjytker_my_mit.Base.{
  ℕ, zero, suc, ◌+◌, Bool, true, false, ◌&&◌, ◌||◌, Option, none, some, List, [], ◌∷◌, leb,
  same_text, if◌then◌else◌, find, delete, ℤ, pos, negsuc, eqb_ℤ, minus_one,
}
use sjytker_my_mit.Kv.{PutAppendArgs, GetArgs}

pub record GetStateReply : Type 0 where
  pub term : ℕ
  pub is_leader : Bool
  pub leader_id : ℕ

-- `asked` counts the calls of findLeaderNow, and `waits` says whether a request is in the loop that
-- waits for a leader. `pending` has the goroutines of FindLeader that are between their test of the
-- term and their lock, by the number of the server that they called.
pub record Clerk : Type 0 where
  pub servers : ℕ
  pub dead : Bool
  pub leader_id : ℤ
  pub client_id : ℕ
  pub leader_me : ℤ
  pub term : ℕ
  pub asked : ℕ
  pub waits : Bool
  pub pending : List (ℕ × GetStateReply)

unfoldable pub make_clerk : (servers random : ℕ) → Clerk
make_clerk servers random = record {
  servers = servers;
  dead = false;
  leader_id = minus_one;
  client_id = random;
  leader_me = pos 0;
  term = 0;
  asked = 0;
  waits = false;
  pending = [];
}

-- A step of a goroutine of FindLeader: it gets a reply and tests it, without a lock, or it has the
-- lock and writes. A failed call has no step.
pub data FindStep : Type 0 where
  tested : ℕ → GetStateReply → FindStep
  wrote : ℕ → FindStep

unfoldable pub test_reply : ℕ → GetStateReply → Clerk → Clerk
test_reply i reply ck =
    if reply.is_leader && leb ck.term reply.term
    then record ck { pending = (i, reply) ∷ ck.pending }
    else ck

-- Only a goroutine that has passed its test writes.
unfoldable pub write_leader : ℕ → Clerk → Clerk
write_leader i ck = elim (find i ck.pending) [
  | none ↦ ck
  | some reply ↦ record ck {
    leader_id = pos i;
    leader_me = pos reply.leader_id;
    term = reply.term;
    pending = delete i ck.pending;
  }
]

-- The steps of the goroutines, in any order.
unfoldable pub find_steps : List FindStep → Clerk → Clerk
unfolding test_reply write_leader
find_steps [] ck = ck
find_steps (tested i reply ∷ steps) ck = find_steps steps (test_reply i reply ck)
find_steps (wrote i ∷ steps) ck = find_steps steps (write_leader i ck)

unfoldable pub begin_find : Clerk → Clerk
begin_find ck = record ck { leader_id = minus_one; leader_me = minus_one }

-- FindLeader, which ends when no goroutine is left.
unfoldable pub find_leader : List FindStep → Clerk → Clerk
unfolding find_steps begin_find
find_leader steps ck = find_steps steps (begin_find ck)

unfoldable pub find_leader_now : Clerk → Clerk
find_leader_now ck = record ck { asked = ck.asked + 1; waits = true }

-- The Err and the value of a reply, if the call got one.
abbrev pub Reply : Type 0
Reply = Option (String × String)

-- The `switch` over the Err of a reply, which is "" where no call was made: a result, or none yet.
unfoldable pub handle_reply : String → String → Clerk → Clerk × Option String
unfolding find_leader_now
handle_reply err value ck =
    if same_text err "OK"
    then (ck, some value)
    else if same_text err "ErrNoKey"
    then (ck, some "")
    else if same_text err "ErrWrongLeader" || same_text err "ErrTimeOut"
    then (find_leader_now ck, none)
    else (ck, none)

-- One round of Get or PutAppend, which looks at `dead` where it does not wait for a leader, for the
-- reply that each server would give. A negative leader other than -1 does not occur.
unfoldable pub round : (ℕ → Reply) → Clerk → Clerk × Option String
unfolding handle_reply
round call ck =
    if ck.waits
    then (record ck { waits = eqb_ℤ ck.leader_id minus_one }, none)
    else if ck.dead
    then (ck, some "")
    else elim ck.leader_id [
      | negsuc n ↦ handle_reply "" "" ck
      | pos i ↦ elim (call i) [ none ↦ (ck, none) | some (err, value) ↦ handle_reply err value ck ]
    ]

-- What may come between two rounds: a FindLeader begins, or not, and then its goroutines take steps.
abbrev pub between : Bool × List FindStep → Clerk → Clerk
between (true, steps) ck = find_leader steps ck
between (false, steps) ck = find_steps steps ck

-- The loop of Get and of PutAppend, for `fuel` rounds from number `r` on.
unfoldable pub rounds :
    (ℕ → ℕ → Reply)
    → (finder : ℕ → Bool × List FindStep) → (r fuel : ℕ) → Clerk
    → Clerk × Option String
unfolding round
rounds call finder r zero ck = (ck, none)
rounds call finder r (suc fuel) ck =
    let (ck', result) = round (call r) (between (finder r) ck) in
    elim result [ none ↦ rounds call finder (r + 1) fuel ck' | some value ↦ (ck', some value) ]

unfoldable pub get :
    (key : String) (msg_id : ℕ)
    → (GetArgs → ℕ → ℕ → Reply)
    → (finder : ℕ → Bool × List FindStep) → (fuel : ℕ) → Clerk
    → Clerk × Option String
unfolding rounds
get key msg_id call finder fuel ck =
    rounds (call (record { key = key; msg_id = msg_id; client_id = ck.client_id })) finder 0 fuel ck

-- The reply of PutAppend has an Err only; its value here is not read.
unfoldable pub put_append :
    (key value op : String) (msg_id : ℕ)
    → (PutAppendArgs → ℕ → ℕ → Reply)
    → (finder : ℕ → Bool × List FindStep) → (fuel : ℕ) → Clerk
    → Clerk × Option String
unfolding rounds
put_append key value op msg_id call finder fuel ck =
    let args : PutAppendArgs = record {
      key = key;
      value = value;
      op = op;
      msg_id = msg_id;
      client_id = ck.client_id;
    } in
    rounds (call args) finder 0 fuel ck
