-- ===== src/Raft/Complete/PollCases.antt =====
-- The other steps: a candidate stands, replies come in, and a peer starts again.
use sjytker_my_mit.Base.{
  ℕ, suc, ◌≤◌, ◌<◌, ◌≡◌, refl, sym, ap, ◌∙◌, subst, ◌⊎◌, inl, inr, true, Option, some, List, ◌∷◌,
  arith, ==_refl, get_elem?, pos,
}
use sjytker_my_mit.Raft.State.{
  candidate, LogEntry, Persister, Raft, RequestVoteArgs, RequestVoteReply,
}
use sjytker_my_mit.Raft.Log.{last_log_term_index}
use sjytker_my_mit.Raft.Persist.{Gob, PersistData}
use sjytker_my_mit.Raft.Role.{make}
use sjytker_my_mit.Raft.Vote.{up_to_date, send_request, start_election}
use sjytker_my_mit.Raft.Elect.{send_request-Moves, start_election-votes}
use sjytker_my_mit.Raft.Cluster.{Cluster, Grant, In, update}
use sjytker_my_mit.Raft.Cluster.Invariant.{grant}
use sjytker_my_mit.Raft.Cluster.Renew.{make-restores}
use sjytker_my_mit.Raft.Cluster.Safety.{Inv}
use sjytker_my_mit.Raft.Cluster.Matched.{Leaders, Matched-Grows}
use sjytker_my_mit.Raft.Cluster.Matching.{dummy}
use sjytker_my_mit.Raft.Cluster.Writes.{start_election-SameLog, send_request-SameLog}
use sjytker_my_mit.Raft.Cluster.Grow.{Evolves}
use sjytker_my_mit.Raft.Cluster.NetInv.{NetInv}
use sjytker_my_mit.Raft.Complete.{Ack, Past}
use sjytker_my_mit.Raft.Complete.Terms.{UpTo-le, Evolves-Grows}
use sjytker_my_mit.Raft.Complete.Invariant.{disk_term}
use sjytker_my_mit.Raft.Complete.Logs.{disk_term-now, Kept-back}
use sjytker_my_mit.Raft.Complete.Preserve.{Acked, disk_term-current, PastInv}
use sjytker_my_mit.Raft.Complete.Votes.{VoteFrom, Voting-more, Voting-stored}
use sjytker_my_mit.Raft.Complete.Ballots.{send_request-votes}
use sjytker_my_mit.Raft.Complete.Polls.{Stood, Safe, PollInv}
use sjytker_my_mit.Raft.Complete.PollSteps.{step-PollInv}
use sjytker_my_mit.Raft.Complete.PollMoves.{moves-PollInv}
use sjytker_my_mit.Raft.Complete.PollVote.{log_end, no_poll, pos_inj, up_to_date-Covers}

own_end :
    (args : RequestVoteArgs) (t m : ℕ)
    → args.last_log_term ≡ t
    → args.last_log_index ≡ m
    → up_to_date args (t, m) ≡ true
unfolding up_to_date
own_end args t m p q = ground arith

module _ {C B : Type 0} (gob : Gob (PersistData C) B) where
  start_election-asks :
      (rf rf' : Raft C B) (args : RequestVoteArgs) (last : ℕ × ℕ)
      → last_log_term_index rf ≡ some last
      → start_election gob rf ≡ some (rf', some args)
      → (args.last_log_term ≡ last.0)
        × (args.last_log_index ≡ last.1)
        × (args.term ≡ suc rf.current_term)
  unfolding start_election last_log_term_index
  start_election-asks rf rf' args last l h = ground arith

module _ {C B : Type 0} (gob : Gob (PersistData C) B) (n : ℕ) (s s' : Cluster C B)
    (past past' : Past C) (polls polls' : List RequestVoteArgs) (logs logs' : Leaders C) (i : ℕ)
    (rf : Raft C B) (inv : PastInv gob s past logs) (net : NetInv gob n s past.sent logs)
    (old : PollInv gob n s past polls logs) (before : Inv gob n s)
    (ev : Evolves (λ t. ⊥) logs logs') (at : s'.peer ≡ update s.peer i rf)
    (same_past : past' ≡ past) where
  acks :
      (a : Ack C)
      → In a past'.acks
      → In a past.acks ⊎ ((a.peer ≡ i) × ((s.peer i).current_term ≤ a.term))
  acks a x = inl (subst (λ (p : Past C). In a p.acks) same_past x)

  disk : disk_term gob (s.peer i).persister.raft_state ≤ (s.peer i).current_term
  disk = disk_term-current gob n i (s.peer i) (before.peers i)

  pub ask-PollInv :
      (args : RequestVoteArgs) (replies : ℕ → Option RequestVoteReply) (count : ℕ)
      → send_request gob args replies (s.peer i) ≡ some (rf, count)
      → ((j : ℕ) (r : RequestVoteReply) → replies j ≡ some r → r.term ≡ 0)
      → polls' ≡ polls
      → s'.grants ≡ s.grants
      → PollInv gob n s' past' polls' logs'
  ask-PollInv args replies count h z ps gs =
      let (v, t) = send_request-votes gob args replies (s.peer i) rf count z h in
      moves-PollInv gob n s s' past past' polls polls' logs logs' ev i rf old before
        (send_request-Moves gob args replies count h).0 at gs ps acks
        (λ _. (send_request-SameLog gob (s.peer i) rf args replies count h).0) v (inl t)

  pub restart-PollInv :
      make gob n i (s.peer i).persister ≡ some rf
      → polls' ≡ polls
      → s'.grants ≡ s.grants
      → PollInv gob n s' past' polls' logs'
  restart-PollInv h ps gs =
      let p = before.peers i in
      let r = make-restores gob n i (s.peer i).persister p.disk p.on_disk h in
      let more : (x : Grant) → In x s.grants → In x s'.grants = λ x m. subst (In x) (sym gs) m in
      let v = Voting-more gob logs logs' s.grants s'.grants i (s.peer i) ev more (old.voting i) in
      step-PollInv gob n s s' past past' polls polls' logs logs' (λ t. ⊥) ev i rf old before at
        (omega (arith, ap (λ (x : Persister B). disk_term gob x.raft_state) r.3)) acks more
        (λ t c cur low. cc (r.2)) no_poll
        (Voting-stored gob logs' s'.grants i (s.peer i) rf
          (inl (ap (λ (x : Persister B). x.raft_state) r.3)) v
          (subst (VoteFrom gob logs' s'.grants i) (sym r.4) (v.disk p.disk p.on_disk)) (inl r.2))
        (λ q x. subst (In q) (sym ps) x) (λ q x. inl (subst (In q) ps x))
        (λ q t c x. inl (subst (In (grant q t c)) gs x)) (λ t l x. absurd x)

  pub stand-PollInv :
      (args : RequestVoteArgs)
      → start_election gob (s.peer i) ≡ some (rf, some args)
      → polls' ≡ args ∷ polls
      → s'.grants ≡ grant i args.term i ∷ s.grants
      → PollInv gob n s' past' polls' logs'
  stand-PollInv args h ps gs =
      let v = start_election-votes gob (s.peer i) args h in
      let good = (net.peers i).good in
      let (e, last, len, here, ends) = log_end gob (s.peer i) dummy good.0 good.1 in
      let asks = start_election-asks gob (s.peer i) rf args (e.term, last) ends h in
      let same_log = (start_election-SameLog gob (s.peer i) rf (some args) h).0 in
      let me = (before.peers i).me in
      let now = disk_term-now gob rf v.7 in
      let low = disk in
      let mine : rf.vote_for ≡ pos i = v.5 ∙ ap pos me in
      let cand : args.candidate_id ≡ i = v.6 ∙ me in
      let more : (x : Grant) → In x s.grants → In x s'.grants =
        λ x m. subst (In x) (sym gs) (inr m) in
      let self : s'.peer i ≡ rf = ap (λ f. f i) at ∙ rw (==_refl i) refl in
      let stood : Stood logs' args (s.peer i).log = (
        (e, ap (get_elem? (s.peer i).log) asks.1 ∙ here, sym asks.0, len ∙ ap suc (sym asks.1)),
        Matched-Grows logs logs' (s.peer i).log (Evolves-Grows ev) good.2,
        ((s.peer i).current_term, sym asks.2, UpTo-le (s.peer i).log _ _ disk (inv.peers i).terms),
      ) in
      let polled : (args.term ≤ disk_term gob (s'.peer i).persister.raft_state)
          × In (grant i args.term i) s'.grants
          × ((log : List (LogEntry C)) × Stood logs' args log
              × ((s'.peer i).state ≡ candidate
                  → (s'.peer i).current_term ≡ args.term
                  → (s'.peer i).log ≡ log)) =
        (
          subst (λ (x : Raft C B). args.term ≤ disk_term gob x.persister.raft_state) (sym self)
              (omega (arith, now, v.4)),
          subst (In (grant i args.term i)) (sym gs) (inl refl),
          ((s.peer i).log, stood, λ _ _. ap (λ (x : Raft C B). x.log) self ∙ same_log),
        ) in
      let own_safe : Safe logs' past'.acks args i = λ a k u ma peer su lt has kept.
        let (lead, disk', keep) =
          subst (λ j. Acked gob logs a (s.peer j)) peer
            (inv.acked a (subst (λ (x : Past C). In a x.acks) same_past ma)) in
        up_to_date-Covers gob logs (s.peer i).log args e last a.term k inv.upto good.2 len here
          (keep k has (Kept-back gob ev a.term _ u k (omega (arith, asks.2)) kept))
          (own_end args e.term last asks.0 asks.1) in
      step-PollInv gob n s s' past past' polls polls' logs logs' (λ t. ⊥) ev i rf old before at
        (omega (arith, v.4, now, asks.2, low)) acks more
        (λ t c cur low'. absurd (omega (arith, v.4, asks.2, low))) args
        (Voting-stored gob logs' s'.grants i (s.peer i) rf (inr v.7)
          (Voting-more gob logs logs' s.grants s'.grants i (s.peer i) ev more (old.voting i))
          (λ c q. inr (inl (pos_inj (sym q ∙ mine)))) (inr mine))
        (λ q x. subst (In q) (sym ps) (inr x))
        (λ q x. elim (subst (In q) ps x) [
          | inr was ↦ inl was
          | inl same ↦ inr (
            sym same,
            subst
                (λ (p : RequestVoteArgs).
                  (p.candidate_id ≡ i)
                  × (disk_term gob (s.peer i).persister.raft_state < p.term)
                  × ((p.term ≤ disk_term gob (s'.peer p.candidate_id).persister.raft_state)
                      × In (grant p.candidate_id p.term p.candidate_id) s'.grants
                      × ((log : List (LogEntry C)) × Stood logs' p log
                          × ((s'.peer p.candidate_id).state ≡ candidate
                              → (s'.peer p.candidate_id).current_term ≡ p.term
                              → (s'.peer p.candidate_id).log ≡ log))))
                same
                (
                  cand,
                  omega (arith, asks.2, low),
                  subst
                      (λ j.
                        (args.term ≤ disk_term gob (s'.peer j).persister.raft_state)
                        × In (grant j args.term j) s'.grants
                        × ((log : List (LogEntry C)) × Stood logs' args log
                            × ((s'.peer j).state ≡ candidate
                                → (s'.peer j).current_term ≡ args.term
                                → (s'.peer j).log ≡ log)))
                      (sym cand) polled,
                ),
          )
        ])
        (λ q t c x. elim (subst (In (grant q t c)) gs x) [
          | inr was ↦ inl was
          | inl same ↦ inr (
              subst
                (λ (y : Grant).
                  ((l : List (LogEntry C)) × (logs' y.term ≡ some l))
                  ⊎ ((p : RequestVoteArgs) × In p polls'
                      × (p.term ≡ y.term)
                      × (p.candidate_id ≡ y.candidate)
                      × Safe logs' past'.acks p y.voter))
                same (inr (args, subst (In args) (sym ps) (inl refl), refl, cand, own_safe)))
        ])
        (λ t l x. absurd x)
