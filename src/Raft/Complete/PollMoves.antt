-- ===== src/Raft/Complete/PollMoves.antt =====
-- A handler that gives no vote and asks for none.
use sjytker_my_mit.Base.{ℕ, ◌≤◌, ◌≡◌, sym, ap, ◌∙◌, subst, ◌⊎◌, inl, inr, some, List, arith, pos}
use sjytker_my_mit.Raft.State.{leader, follower, candidate, LogEntry, Raft, RequestVoteArgs}
use sjytker_my_mit.Raft.Persist.{Gob, PersistData, persist_data}
use sjytker_my_mit.Raft.Ballot.{ballot}
use sjytker_my_mit.Raft.Handler.{Moves}
use sjytker_my_mit.Raft.Cluster.{Cluster, Grant, In, update}
use sjytker_my_mit.Raft.Cluster.Invariant.{grant}
use sjytker_my_mit.Raft.Cluster.Safety.{Inv}
use sjytker_my_mit.Raft.Cluster.Matched.{Leaders}
use sjytker_my_mit.Raft.Cluster.Grow.{Evolves}
use sjytker_my_mit.Raft.Complete.{Ack, Past}
use sjytker_my_mit.Raft.Complete.Invariant.{disk_term}
use sjytker_my_mit.Raft.Complete.Logs.{disk_term-now}
use sjytker_my_mit.Raft.Complete.Preserve.{disk_term-current}
use sjytker_my_mit.Raft.Complete.Votes.{VoteFrom, Voting, Voting-more, Voting-stored}
use sjytker_my_mit.Raft.Complete.Polls.{PollInv}
use sjytker_my_mit.Raft.Complete.PollSteps.{step-PollInv}

module _ {C B : Type 0} (gob : Gob (PersistData C) B) where
  -- The term on the disk does not go back.
  pub disk_forward :
      (rf rf' : Raft C B)
      → (rf'.persister.raft_state ≡ rf.persister.raft_state)
        ⊎ (rf'.persister.raft_state ≡ some (gob.encode (persist_data rf')))
      → rf.current_term ≤ rf'.current_term
      → disk_term gob rf.persister.raft_state ≤ rf.current_term
      → disk_term gob rf.persister.raft_state ≤ disk_term gob rf'.persister.raft_state
  disk_forward rf rf' (inl same) fwd le = omega (arith, ap (disk_term gob) same)
  disk_forward rf rf' (inr now) fwd le = omega (arith, disk_term-now gob rf' now)

  -- A vote that is kept, in the same term, in a term that has a leader, or for the peer itself.
  pub kept_vote :
      (logs : Leaders C) (gs : List Grant) (i : ℕ) (rf rf' : Raft C B)
      → Voting gob logs gs i rf
      → (rf'.persister.raft_state ≡ rf.persister.raft_state)
        ⊎ (rf'.persister.raft_state ≡ some (gob.encode (persist_data rf')))
      → rf'.vote_for ≡ rf.vote_for
      → (rf'.current_term ≡ rf.current_term)
        ⊎ ((l : List (LogEntry C)) × (logs rf'.current_term ≡ some l))
        ⊎ (rf.state ≡ leader)
      → (rf'.state ≡ rf.state) ⊎ (rf'.state ≡ follower)
      → Voting gob logs gs i rf'
  kept_vote logs gs i rf rf' h stored same term role =
      Voting-stored gob logs gs i rf rf' stored h memory own
    where
      own : (rf'.state ≡ follower) ⊎ (rf'.vote_for ≡ pos i)
      own = elim role [
        | inr f ↦ inl f
        | inl r ↦ elim h.own [ inl f ↦ inl (r ∙ f) | inr mine ↦ inr (same ∙ mine) ]
      ]

      memory : VoteFrom gob logs gs i (ballot rf')
      memory c e = elim term [
        | inl t ↦ elim (h.memory c (sym same ∙ e)) [
          | inl (l, at) ↦ inl (l, ap logs t ∙ at)
          | inr (inl mine) ↦ inr (inl mine)
          | inr (inr g) ↦ inr (inr (subst (λ x. In (grant i x c) gs) (sym t) g))
        ]
        | inr (inl led) ↦ inl led
        | inr (inr l) ↦ elim h.own [
          | inl f ↦ absurd cc
          | inr mine ↦ inr (inl (ground (arith, e, same, mine)))
        ]
      ]

module _ {C B : Type 0} (gob : Gob (PersistData C) B) (n : ℕ) (s s' : Cluster C B)
    (past past' : Past C) (polls polls' : List RequestVoteArgs) (logs logs' : Leaders C)
    (ev : Evolves (λ t. ⊥) logs logs') (i : ℕ) (rf : Raft C B)
    (old : PollInv gob n s past polls logs) (before : Inv gob n s) where
  pub moves-PollInv :
      Moves gob (s.peer i) rf
      → s'.peer ≡ update s.peer i rf
      → s'.grants ≡ s.grants
      → polls' ≡ polls
      → ((a : Ack C)
          → In a past'.acks
          → In a past.acks ⊎ ((a.peer ≡ i) × ((s.peer i).current_term ≤ a.term)))
      → (rf.state ≡ candidate → rf.log ≡ (s.peer i).log)
      → rf.vote_for ≡ (s.peer i).vote_for
      → (rf.current_term ≡ (s.peer i).current_term)
        ⊎ ((l : List (LogEntry C)) × (logs' rf.current_term ≡ some l))
        ⊎ ((s.peer i).state ≡ leader)
      → PollInv gob n s' past' polls' logs'
  moves-PollInv m e gs ps acks log same term =
      step-PollInv gob n s s' past past' polls polls' logs logs' (λ t. ⊥) ev i rf old before e
        (let fwd = m.forward in
          disk_forward gob (s.peer i) rf m.stored (omega arith)
            (disk_term-current gob n i (s.peer i) (before.peers i)))
        acks (λ g x. subst (In g) (sym gs) x)
        (λ t c at low. elim m.role [
          | inl (r, q) ↦ (sym r ∙ c, sym q ∙ at, log c)
          | inr f ↦ absurd cc
        ])
        (record { term = 0; candidate_id = 0; last_log_index = 0; last_log_term = 0 })
        (kept_vote gob logs' s'.grants i (s.peer i) rf
          (Voting-more gob logs logs' s.grants s'.grants i (s.peer i) ev
            (λ g x. subst (In g) (sym gs) x) (old.voting i))
          m.stored same term (elim m.role [ inl (r, _) ↦ inl r | inr f ↦ inr f ]))
        (λ p x. subst (In p) (sym ps) x) (λ p x. inl (subst (In p) ps x))
        (λ q t c x. inl (subst (In (grant q t c)) gs x)) (λ t l x. absurd x)
