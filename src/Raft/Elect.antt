-- ===== src/Raft/Elect.antt =====
-- The steps of an election: what SendRequest counts, and what its start and end do to the candidate.
use sjytker_my_mit.Base.{
  ℕ, zero, suc, ◌+◌, ◌/◌, ◌≤◌, ◌<◌, ◌≡◌, refl, ap, ◌⊎◌, inl, inr, Bool, true, false, not, ◌&&◌,
  ◌||◌, Option, none, some, arith, ltb, ◌==◌, if◌then◌else◌, ==_iff, Bool-cases, >>=-eq-some, pos,
}
use sjytker_my_mit.Raft.State.{follower, candidate, Raft, RequestVoteArgs, RequestVoteReply}
use sjytker_my_mit.Raft.Persist.{Gob, PersistData, persist_data}
use sjytker_my_mit.Raft.Vote.{
  count_reply, count_replies, send_request, start_election, finish_election,
}
use sjytker_my_mit.Raft.Ballot.{Follows, ballot}
use sjytker_my_mit.Raft.Handler.{Moves}

-- The number of j < n for which `f j`.
unfoldable pub count_true : ℕ → (ℕ → Bool) → ℕ
count_true zero f = 0
count_true (suc n) f = if f n then suc (count_true n f) else count_true n f

-- A reply that SendRequest counts for the request.
abbrev pub is_vote : RequestVoteArgs → Option RequestVoteReply → Bool
is_vote args none = false
is_vote args (some r) = not (ltb args.term r.term) && r.vote_granted

-- The peers whose replies are counted: never the candidate itself.
abbrev pub voters : RequestVoteArgs → (ℕ → Option RequestVoteReply) → ℕ → ℕ → Bool
voters args replies me j = not (j == me) && is_vote args (replies j)

-- What one reply, and then the whole of them, does to the tally that SendRequest keeps.
record Counts {C B : Type 0} (t t' : Raft C B × ℕ × Bool) (more : ℕ) : Type 0 where
  same_me : t'.0.me ≡ t.0.me
  same_peers : t'.0.peers ≡ t.0.peers
  forward : Follows (ballot t.0) (ballot t'.0)
  disk : t'.0.persister ≡ t.0.persister
  role :
      ((t'.0.state ≡ t.0.state) × (t'.0.current_term ≡ t.0.current_term)) ⊎ (t'.0.state ≡ follower)
  votes : t'.1 ≡ t.1 + more

module _ {C B : Type 0} (args : RequestVoteArgs) where
  count_reply-Counts :
      (o : Option RequestVoteReply) (t : Raft C B × ℕ × Bool) {t' : Raft C B × ℕ × Bool}
      → count_reply args o t ≡ some t'
      → Counts t t' (if is_vote args o then 1 else 0)
  unfolding count_reply
  count_reply-Counts o t h = ground arith

  count_replies-Counts :
      (replies : ℕ → Option RequestVoteReply) (me n : ℕ) (t : Raft C B × ℕ × Bool)
      {t' : Raft C B × ℕ × Bool}
      → count_replies args replies me n t ≡ some t'
      → Counts t t' (count_true n (voters args replies me))
  unfolding count_replies count_true
  count_replies-Counts replies me zero t h = ground arith
  count_replies-Counts replies me (suc n) t {t'} h =
      let (t1, e, k) = >>=-eq-some (count_replies args replies me n t) _ h in
      let before = count_replies-Counts replies me n t {t' = t1} e in
      ground (arith, count_reply-Counts (replies n) t1 {t' = t'})

module _ {C B : Type 0} (gob : Gob (PersistData C) B) {rf rf' : Raft C B} where
  pub send_request-Moves :
      (args : RequestVoteArgs) (replies : ℕ → Option RequestVoteReply) (count : ℕ)
      → send_request gob args replies rf ≡ some (rf', count)
      → Moves gob rf rf' × (count ≡ count_true rf.peers (voters args replies rf.me))
  unfolding send_request
  send_request-Moves args replies count h =
      let (t1, e, k) = >>=-eq-some (count_replies args replies rf.me rf.peers (rf, 0, false)) _ h in
      let c = count_replies-Counts args replies rf.me rf.peers (rf, 0, false) {t' = t1} e in
      ground arith

module _ {C B : Type 0} (gob : Gob (PersistData C) B) where
  -- A candidate votes for itself in the term that it has entered, and the vote stands on its disk.
  pub start_election-votes :
      (rf : Raft C B) (args : RequestVoteArgs) {rf' : Raft C B}
      → start_election gob rf ≡ some (rf', some args)
      → (rf'.me ≡ rf.me)
        × (rf'.peers ≡ rf.peers)
        × Follows (ballot rf) (ballot rf')
        × (rf'.state ≡ candidate)
        × (rf'.current_term ≡ args.term)
        × (rf'.vote_for ≡ pos rf.me)
        × (args.candidate_id ≡ rf.me)
        × (rf'.persister.raft_state ≡ some (gob.encode (persist_data rf')))
  unfolding start_election
  start_election-votes rf args h = ground arith

  -- A peer that the end of an election makes a leader was a candidate in the term of its request,
  -- and at least half of the peers granted it.
  pub finish_election-wins :
      (args : RequestVoteArgs) (count : ℕ) (rf : Raft C B) {rf' : Raft C B}
      → finish_election gob args count rf ≡ some rf'
      → (rf'.me ≡ rf.me)
        × (rf'.peers ≡ rf.peers)
        × (ballot rf' ≡ ballot rf)
        × ((rf'.persister.raft_state ≡ rf.persister.raft_state)
            ⊎ (rf'.persister.raft_state ≡ some (gob.encode (persist_data rf'))))
        × ((rf'.state ≡ rf.state)
            ⊎ ((rf.state ≡ candidate) × (rf.current_term ≡ args.term) × (rf.peers / 2 ≤ count)))
  unfolding finish_election
  finish_election-wins args count rf h = ground arith

-- Two families of more than n indices below n together have an index in common.
pub count_true-meet :
    (n : ℕ) (f g : ℕ → Bool)
    → n < count_true n f + count_true n g
    → (j : ℕ) × (j < n) × (f j ≡ true) × (g j ≡ true)
unfolding count_true
count_true-meet zero f g h = absurd (omega arith)
count_true-meet (suc n) f g h = elim (Bool-cases (f n && g n)) [
  | inl both ↦ (n, omega arith, ground arith, ground arith)
  | inr not_both ↦
      let (j, lt, p, q) = count_true-meet n f g (ground arith) in (j, omega arith, p, q)
]

count_true-outside :
    (n i : ℕ) (f : ℕ → Bool) → n ≤ i → count_true n (λ j. (j == i) || f j) ≡ count_true n f
unfolding count_true
count_true-outside zero i f h = refl
count_true-outside (suc n) i f h = ground (arith, count_true-outside n i f)

-- One more index, not counted yet, adds one.
pub count_true-add :
    (n i : ℕ) (f : ℕ → Bool)
    → i < n
    → f i ≡ false
    → count_true n (λ j. (j == i) || f j) ≡ suc (count_true n f)
unfolding count_true
count_true-add zero i f lt h = absurd (omega arith)
count_true-add (suc n) i f lt h = elim (Bool-cases (n == i)) [
  | inl last ↦ ground (arith, ap f ((==_iff n i).0 last), count_true-outside n i f)
  | inr below ↦ ground (arith, count_true-add n i f (ground arith) h)
]
