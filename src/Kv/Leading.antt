-- ===== src/Kv/Leading.antt =====
-- Which server the clerk takes for the leader.
use mathlib.Core.List.{Memᴰ}
use sjytker_my_mit.Base.{
  ℕ, ◌≤◌, ◌<◌, ◌≡◌, refl, sym, ap, ◌∙◌, subst, ◌≢◌, ◌⊎◌, inl, inr, true, false, some, List, [], ◌∷◌,
  arith, leb, ◌==◌, ==_iff, Bool-cases, Option-cases, find, delete, pos, minus_one,
}
use sjytker_my_mit.Kv.Clerk.{
  Clerk, GetStateReply, FindStep, tested, wrote, test_reply, write_leader, find_steps, begin_find,
  find_leader,
}

-- None of these steps gets a reply of a leader of this term or a later one.
abbrev pub AllOlder : ℕ → List FindStep → Type 0
AllOlder term [] = Unit
AllOlder term (tested i reply ∷ steps) =
    ((reply.is_leader ≡ false) ⊎ (reply.term < term)) × AllOlder term steps
AllOlder term (wrote i ∷ steps) = AllOlder term steps

-- One of the steps got this reply, of a server that leads in this term or a later one.
abbrev pub Told : ℕ → List FindStep → ℕ → GetStateReply → Type 0
Told term steps s reply =
    Memᴰ (tested s reply) steps × (reply.is_leader ≡ true) × (term ≤ reply.term)

-- The clerk takes this server for the leader.
abbrev pub Follows : ℕ → GetStateReply → Clerk → Type 0
Follows s reply ck =
    (ck.leader_id ≡ pos s) × (ck.leader_me ≡ pos reply.leader_id) × (ck.term ≡ reply.term)

AllTold : ℕ → List FindStep → List (ℕ × GetStateReply) → Type 0
AllTold term steps [] = Unit
AllTold term steps ((s, reply) ∷ pending) = Told term steps s reply × AllTold term steps pending

-- The clerk knows no leader and has this term.
abbrev pub Unknown : ℕ → Clerk → Type 0
Unknown term ck = (ck.leader_id ≡ minus_one) × (ck.term ≡ term)

-- The clerk follows a server that told it that it leads, in this term or a later one.
abbrev pub Known : ℕ → List FindStep → Clerk → Type 0
Known term all ck = (s : ℕ) × (reply : GetStateReply) × Told term all s reply × Follows s reply ck

-- A goroutine has passed its test, and perhaps written.
abbrev Heard : ℕ → List FindStep → Clerk → Type 0
Heard term all ck =
    AllTold term all ck.pending × ((Unknown term ck × (ck.pending ≢ [])) ⊎ Known term all ck)

abbrev Quiet : ℕ → Clerk → Type 0
Quiet term ck = Unknown term ck × (ck.pending ≡ [])

find-Told :
    (term i : ℕ) (all : List FindStep) (pending : List (ℕ × GetStateReply)) {reply : GetStateReply}
    → AllTold term all pending
    → find i pending ≡ some reply
    → Told term all i reply
unfolding AllTold find
find-Told term i all [] h e = absurd (ground arith)
find-Told term i all ((s, r) ∷ pending) {reply} (t, h) e = elim (Bool-cases (s == i)) [
  | inl same ↦
      let p : s ≡ i = (==_iff s i).0 same in
      let q : r ≡ reply = ground arith in
      subst (λ j. Told term all j reply) p (subst (λ x. Told term all s x) q t)
  | inr other ↦ find-Told term i all pending h (ground arith)
]

delete-AllTold :
    (term i : ℕ) (all : List FindStep) (pending : List (ℕ × GetStateReply))
    → AllTold term all pending
    → AllTold term all (delete i pending)
unfolding AllTold delete
delete-AllTold term i all [] h = h
delete-AllTold term i all ((s, r) ∷ pending) (t, h) = elim (Bool-cases (s == i)) [
  | inl same ↦ rw same (delete-AllTold term i all pending h)
  | inr other ↦ rw other (t, delete-AllTold term i all pending h)
]

Heard-term : (term : ℕ) (all : List FindStep) (ck : Clerk) → Heard term all ck → term ≤ ck.term
Heard-term term all ck (h, inl ((a, b), c)) = omega arith
Heard-term term all ck (h, inr (s, r, (m, l, le), (a, b, c))) = omega arith

test_reply-cases :
    (i : ℕ) (reply : GetStateReply) (ck : Clerk)
    → ((test_reply i reply ck ≡ ck) × ((reply.is_leader ≡ false) ⊎ (reply.term < ck.term)))
      ⊎ ((test_reply i reply ck ≡ record ck { pending = (i, reply) ∷ ck.pending })
          × (reply.is_leader ≡ true)
          × (ck.term ≤ reply.term))
unfolding test_reply
test_reply-cases i reply ck = elim (Bool-cases reply.is_leader) [
  | inr f ↦ inl (ground arith, inl f)
  | inl t ↦ elim (Bool-cases (leb ck.term reply.term)) [
    | inr f ↦ inl (ground arith, inr (ground arith))
    | inl le ↦ inr (ground arith, t, ground arith)
  ]
]

tested-Heard :
    (term i : ℕ) (reply : GetStateReply) (all : List FindStep) (ck : Clerk)
    → Memᴰ (tested i reply) all
    → Heard term all ck
    → Heard term all (test_reply i reply ck)
unfolding AllTold
tested-Heard term i reply all ck m (h, k) = elim (test_reply-cases i reply ck) [
  | inl (e, old) ↦ subst (Heard term all) (sym e) (h, k)
  | inr (e, t, le) ↦
      let from = Heard-term term all ck (h, k) in
      subst (Heard term all) (sym e) (
        ((m, t, omega arith), h),
        elim k [ inl (u, ne) ↦ inl (u, ground arith) | inr known ↦ inr known ],
      )
]

write_leader-cases :
    (i : ℕ) (ck : Clerk)
    → (write_leader i ck ≡ ck)
      ⊎ ((reply : GetStateReply) × (find i ck.pending ≡ some reply)
          × Follows i reply (write_leader i ck)
          × ((write_leader i ck).pending ≡ delete i ck.pending))
unfolding write_leader
write_leader-cases i ck = elim (Option-cases (find i ck.pending)) [
  | inl e ↦ inl (ground arith)
  | inr (reply, e) ↦ inr (reply, e, (ground arith, ground arith, ground arith), ground arith)
]

wrote-Heard :
    (term i : ℕ) (all : List FindStep) (ck : Clerk)
    → Heard term all ck
    → Heard term all (write_leader i ck)
wrote-Heard term i all ck (h, k) = elim (write_leader-cases i ck) [
  | inl e ↦ subst (Heard term all) (sym e) (h, k)
  | inr (reply, e, follows, rest) ↦ (
    subst (AllTold term all) (sym rest) (delete-AllTold term i all ck.pending h),
    inr (i, reply, find-Told term i all ck.pending h e, follows),
  )
]

tested-Quiet :
    (term i : ℕ) (reply : GetStateReply) (all : List FindStep) (ck : Clerk)
    → Memᴰ (tested i reply) all
    → Quiet term ck
    → (Quiet term (test_reply i reply ck) × ((reply.is_leader ≡ false) ⊎ (reply.term < term)))
      ⊎ Heard term all (test_reply i reply ck)
unfolding AllTold
tested-Quiet term i reply all ck m ((a, b), c) = elim (test_reply-cases i reply ck) [
  | inl (e, old) ↦ inl (
    subst (Quiet term) (sym e) ((a, b), c),
    elim old [ inl f ↦ inl f | inr lt ↦ inr (omega arith) ],
  )
  | inr (e, t, le) ↦ inr (
      subst (Heard term all) (sym e)
        (((m, t, omega arith), subst (AllTold term all) (sym c) tt), inl ((a, b), ground arith)))
]

wrote-Quiet : (term i : ℕ) (ck : Clerk) → Quiet term ck → Quiet term (write_leader i ck)
unfolding find
wrote-Quiet term i ck ((a, b), c) = elim (write_leader-cases i ck) [
  | inl e ↦ subst (Quiet term) (sym e) ((a, b), c)
  | inr (reply, e, follows, rest) ↦ absurd (let f = sym (ap (find i) c) ∙ e in ground arith)
]

find_steps-Heard :
    (term : ℕ) (all steps : List FindStep) (ck : Clerk)
    → ((step : FindStep) → Memᴰ step steps → Memᴰ step all)
    → Heard term all ck
    → Heard term all (find_steps steps ck)
unfolding find_steps
find_steps-Heard term all [] ck sub h = h
find_steps-Heard term all (tested i reply ∷ steps) ck sub h =
    find_steps-Heard term all steps (test_reply i reply ck) (λ s m. sub s (Memᴰ.tail m))
      (tested-Heard term i reply all ck (sub _ (Memᴰ.head refl)) h)
find_steps-Heard term all (wrote i ∷ steps) ck sub h =
    find_steps-Heard term all steps (write_leader i ck) (λ s m. sub s (Memᴰ.tail m))
      (wrote-Heard term i all ck h)

find_steps-Quiet :
    (term : ℕ) (all steps : List FindStep) (ck : Clerk)
    → ((step : FindStep) → Memᴰ step steps → Memᴰ step all)
    → Quiet term ck
    → (Quiet term (find_steps steps ck) × AllOlder term steps)
      ⊎ Heard term all (find_steps steps ck)
unfolding find_steps
find_steps-Quiet term all [] ck sub q = inl (q, tt)
find_steps-Quiet term all (tested i reply ∷ steps) ck sub q =
    let sub' : (s : FindStep) → Memᴰ s steps → Memᴰ s all = λ s m. sub s (Memᴰ.tail m) in
    elim (tested-Quiet term i reply all ck (sub _ (Memᴰ.head refl)) q) [
      | inr h ↦ inr (find_steps-Heard term all steps (test_reply i reply ck) sub' h)
      | inl (q', old) ↦ elim (find_steps-Quiet term all steps (test_reply i reply ck) sub' q') [
        | inl (q'', older) ↦ inl (q'', (old, older))
        | inr h ↦ inr h
      ]
    ]
find_steps-Quiet term all (wrote i ∷ steps) ck sub q =
    find_steps-Quiet term all steps (write_leader i ck) (λ s m. sub s (Memᴰ.tail m))
      (wrote-Quiet term i ck q)

-- FindLeader, begun with no goroutine of an earlier one and run in any interleaving of the tests and
-- the writes of its goroutines until none is left, knows no leader exactly where no reply was of a
-- leader of the clerk's term or a later one. Otherwise the server, its number and the term that it
-- takes are those of one reply, of a server that leads in such a term.
pub find_leader-Known :
    (steps : List FindStep) (ck : Clerk)
    → ck.pending ≡ []
    → (find_leader steps ck).pending ≡ []
    → (Unknown ck.term (find_leader steps ck) × AllOlder ck.term steps)
      ⊎ Known ck.term steps (find_leader steps ck)
unfolding find_leader begin_find
find_leader-Known steps ck none_before done =
    elim (find_steps-Quiet ck.term steps steps (begin_find ck) (λ s m. m)
      ((refl, refl), none_before)) [
        | inl ((u, p), older) ↦ inl (u, older)
        | inr (h, inl (u, ne)) ↦ absurd (ne done)
        | inr (h, inr known) ↦ inr known
      ]
