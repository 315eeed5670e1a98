-- ===== src/Raft/Complete/PollElect.antt =====
-- The end of an election: the voters of a new leader vouch for its log.
use sjytker_my_mit.Base.{
  ℕ, ◌≡◌, refl, sym, ap, ◌∙◌, subst, inl, inr, true, not, ◌&&◌, some, List, [], ◌∷◌, arith, ==_refl,
  some_eq, append-nil,
}
use sjytker_my_mit.Raft.State.{leader, candidate, LogEntry, Raft, RequestVoteArgs}
use sjytker_my_mit.Raft.Persist.{Gob, PersistData}
use sjytker_my_mit.Raft.Role.{is_leader}
use sjytker_my_mit.Raft.Vote.{finish_election}
use sjytker_my_mit.Raft.Ballot.{Ballot}
use sjytker_my_mit.Raft.Elect.{finish_election-wins}
use sjytker_my_mit.Raft.Cluster.{Cluster, Grant, In, update, Reach}
use sjytker_my_mit.Raft.Cluster.Invariant.{grant}
use sjytker_my_mit.Raft.Cluster.Safety.{Inv, Reach-Inv, election_safety}
use sjytker_my_mit.Raft.Cluster.Matched.{Leaders, Matched-Grows}
use sjytker_my_mit.Raft.Cluster.Matching.{win}
use sjytker_my_mit.Raft.Cluster.Writes.{finish_election-SameLog}
use sjytker_my_mit.Raft.Cluster.Grow.{Evolves}
use sjytker_my_mit.Raft.Cluster.NetInv.{NetInv}
use sjytker_my_mit.Raft.Complete.{Past}
use sjytker_my_mit.Raft.Complete.Terms.{Evolves-Grows}
use sjytker_my_mit.Raft.Complete.Logs.{Kept-back}
use sjytker_my_mit.Raft.Complete.Preserve.{disk_term-current}
use sjytker_my_mit.Raft.Complete.Votes.{VoteFrom, Voting-more, Voting-stored}
use sjytker_my_mit.Raft.Complete.Polls.{Safe, Elected, PollInv}
use sjytker_my_mit.Raft.Complete.PollSteps.{step-PollInv}
use sjytker_my_mit.Raft.Complete.PollMoves.{disk_forward}
use sjytker_my_mit.Raft.Complete.PollVote.{no_poll}

module _ {C B : Type 0} (gob : Gob (PersistData C) B) (n : ℕ) (s s' : Cluster C B)
    (past past' : Past C) (polls polls' : List RequestVoteArgs) (logs logs' : Leaders C)
    (N : ℕ → Type 0) (i : ℕ) (rf : Raft C B) (reach : Reach gob n s) (later : Reach gob n s')
    (net : NetInv gob n s past.sent logs) (net' : NetInv gob n s' past'.sent logs')
    (old : PollInv gob n s past polls logs) (ev : Evolves N logs logs')
    (at : s'.peer ≡ update s.peer i rf) (ps : polls' ≡ polls) (same_past : past' ≡ past)
    (gs : s'.grants ≡ s.grants) (args : RequestVoteArgs) (count : ℕ)
    (run : finish_election gob args count (s.peer i) ≡ some rf)
    (wins : (t : ℕ)
      → N t
      → ((is_leader rf.state && not (is_leader (s.peer i).state)) ≡ true)
        × (rf.current_term ≡ t)
        × (s'.wins ≡ win i rf.current_term ∷ s.wins)) where
  before : Inv gob n s
  before = Reach-Inv gob n s reach

  cur : rf.current_term ≡ (s.peer i).current_term
  cur = ap (λ (x : Ballot). x.term) (finish_election-wins gob args count (s.peer i) run).2

  vote_same : rf.vote_for ≡ (s.peer i).vote_for
  vote_same = ap (λ (x : Ballot). x.vote) (finish_election-wins gob args count (s.peer i) run).2

  self : s'.peer i ≡ rf
  self = ap (λ f. f i) at ∙ rw (==_refl i) refl

  Safe-same : (p : RequestVoteArgs) (q : ℕ) → Safe logs past.acks p q → Safe logs' past'.acks p q
  Safe-same p q h a k u m peer su lt has kept =
      h a k u (subst (λ (x : Past C). In a x.acks) same_past m) peer su lt has
        (Kept-back gob ev a.term u u k (omega arith) kept)

  module _ (t : ℕ) (new : N t) where
    stands : (s.peer i).state ≡ candidate
    stands = elim (finish_election-wins gob args count (s.peer i) run).4 [
      | inl same ↦ absurd (ground (arith, (wins t new).0))
      | inr r ↦ r.0
    ]

    leads : rf.state ≡ leader
    leads = ground (arith, (wins t new).0)

    no_leader : (l : List (LogEntry C)) → logs rf.current_term ≡ some l → ⊥
    no_leader l led =
        let (up, none_won) = (net.peers i).stands stands in
        elim (net.won rf.current_term l led) [
          | inl z ↦ omega (arith, cur)
          | inr (j, w) ↦
              let same =
                election_safety gob n s' (win j rf.current_term) (win i rf.current_term) later
                  (subst (In (win j rf.current_term)) (sym (wins t new).2) (inr w))
                  (subst (In (win i rf.current_term)) (sym (wins t new).2) (inl refl)) refl in
              none_won (
                subst (λ x. In (win i x) s.wins) cur
                  (subst (λ k. In (win k rf.current_term) s.wins) same w))
        ]

    new_leader :
        (l : List (LogEntry C)) → logs' t ≡ some l → Elected n logs' past'.acks s'.grants t l
    new_leader l led =
        let c = rf.current_term in
        let own =
          subst (λ x. In (grant i x i) s.grants) (sym cur) ((before.peers i).standing stands) in
        let (f, half, votes) =
          (Reach-Inv gob n s' later).elected (win i c)
            (subst (In (win i c)) (sym (wins t new).2) (inl refl)) in
        elim (old.safe i c i own) [
          | inl (l0, led0) ↦ absurd (no_leader l0 led0)
          | inr (p, m, term, cand, safe) ↦
              let (low, g, (log, stood, same)) = old.polled p m in
              let is_log : (s.peer i).log ≡ log =
                subst
                  (λ j.
                    (s.peer j).state ≡ candidate
                    → (s.peer j).current_term ≡ p.term
                    → (s.peer j).log ≡ log)
                  cand same stands (sym cur ∙ sym term) in
              let led_rf : logs' c ≡ some rf.log =
                subst (λ (x : Raft C B). x.state ≡ leader → logs' x.current_term ≡ some x.log) self
                  (net'.peers i).leads leads in
              record {
                poll = p;
                at_term = term ∙ (wins t new).1;
                voters = f;
                half = half;
                winner = i;
                voted = λ q v. subst (λ x. In (grant q x i) s'.grants) (wins t new).1 (votes q v);
                covers = λ q v. elim (old.safe q c i (subst (In (grant q c i)) gs (votes q v))) [
                  | inl (l0, led0) ↦ absurd (no_leader l0 led0)
                  | inr (p', m', term', cand', safe') ↦ Safe-same p q (
                      subst (λ x. Safe logs past.acks x q)
                        (old.once p' p m' m (cand' ∙ sym cand) (term' ∙ sym term)) safe')
                ];
                first = log;
                more = [];
                is_log =
                    some_eq (sym led ∙ ap logs' (sym (wins t new).1) ∙ led_rf)
                    ∙ (finish_election-SameLog gob (s.peer i) rf args count run).0
                    ∙ is_log
                    ∙ sym (append-nil log);
                own = λ k e q. cc;
                stood = (stood.0, Matched-Grows logs logs' log (Evolves-Grows ev) stood.1, stood.2);
              }
        ]

  pub elect-PollInv : PollInv gob n s' past' polls' logs'
  elect-PollInv =
      let v = finish_election-wins gob args count (s.peer i) run in
      let more : (x : Grant) → In x s.grants → In x s'.grants = λ x m. subst (In x) (sym gs) m in
      let h = Voting-more gob logs logs' s.grants s'.grants i (s.peer i) ev more (old.voting i) in
      step-PollInv gob n s s' past past' polls polls' logs logs' N ev i rf old before at
        (disk_forward gob (s.peer i) rf v.3 (omega (arith, cur))
          (disk_term-current gob n i (s.peer i) (before.peers i)))
        (λ a x. inl (subst (λ (p : Past C). In a p.acks) same_past x)) more
        (λ t c at_t low. (
          elim v.4 [ inl same ↦ sym same ∙ c | inr r ↦ r.0 ],
          sym cur ∙ at_t,
          (finish_election-SameLog gob (s.peer i) rf args count run).0,
        ))
        no_poll
        (Voting-stored gob logs' s'.grants i (s.peer i) rf v.3 h
          (subst (VoteFrom gob logs' s'.grants i) (sym v.2) h.memory)
          (elim h.own [
            | inr mine ↦ inr (vote_same ∙ mine)
            | inl f ↦ elim v.4 [ inl same ↦ inl (same ∙ f) | inr r ↦ absurd (cc (r.0)) ]
          ]))
        (λ q x. subst (In q) (sym ps) x) (λ q x. inl (subst (In q) ps x))
        (λ q t c x. inl (subst (In (grant q t c)) gs x)) (λ t l new led. new_leader t new l led)
