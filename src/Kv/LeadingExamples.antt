-- ===== src/Kv/LeadingExamples.antt =====
-- A clerk that hears of an old and of a new leader.
use sjytker_my_mit.Base.{refl, ◌⊎◌, true, false, List, [], ◌∷◌, find, delete, pos, minus_one}
use sjytker_my_mit.Kv.Clerk.{
  Clerk, GetStateReply, FindStep, tested, wrote, test_reply, write_leader, find_steps, find_leader,
}
use sjytker_my_mit.Kv.Leading.{Unknown, AllOlder, Known, Follows, find_leader-Known}

abbrev ck : Clerk
ck = record {
  servers = 3;
  dead = false;
  leader_id = minus_one;
  client_id = 7;
  leader_me = pos 0;
  term = 0;
  asked = 0;
  waits = false;
  pending = [];
}

abbrev stale : GetStateReply
stale = record { term = 3; is_leader = true; leader_id = 0 }

abbrev leads : GetStateReply
leads = record { term = 4; is_leader = true; leader_id = 2 }

abbrev steps : List FindStep
steps = tested 1 leads ∷ wrote 1 ∷ tested 0 stale ∷ []

-- Both goroutines test the term before one has written, and the stale leader's is the last to write.
abbrev raced : List FindStep
raced = tested 1 leads ∷ tested 0 stale ∷ wrote 1 ∷ wrote 0 ∷ []

find_leader-Known_example :
    (Unknown 0 (find_leader raced ck) × AllOlder 0 raced) ⊎ Known 0 raced (find_leader raced ck)
unfolding find_leader find_steps test_reply write_leader find delete
find_leader-Known_example = find_leader-Known raced ck refl refl

new_leader_found : Follows 1 leads (find_leader steps ck)
unfolding find_leader find_steps test_reply write_leader find delete
new_leader_found = (refl, refl, refl)

stale_leader_found : Follows 0 stale (find_leader raced ck)
unfolding find_leader find_steps test_reply write_leader find delete
stale_leader_found = (refl, refl, refl)
