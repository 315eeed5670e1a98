-- ===== src/Raft/Complete/Completeness.antt =====
-- Leader completeness: what a majority has accepted is in the logs of all later leaders.
use sjytker_my_mit.Base.{
  ℕ, suc, ◌+◌, ◌<◌, ◌≡◌, sym, ap, ◌∙◌, subst, inl, inr, Bool, true, some, List, [], ◌∷◌, ◌++◌,
  arith, if◌then◌else◌, Bool-cases, some_eq, take, get_elem?-lt, get_elem?-append_left,
}
use sjytker_my_mit.Raft.State.{leader, RequestVoteArgs}
use sjytker_my_mit.Raft.Persist.{Gob, PersistData, make_persister}
use sjytker_my_mit.Raft.Role.{make}
use sjytker_my_mit.Raft.Elect.{count_true}
use sjytker_my_mit.Raft.Cluster.{
  Cluster, Grant, In, with_grant, Step, vote, handle, stand, ask, elect, restart, IsInitial, Reach,
  next,
}
use sjytker_my_mit.Raft.Cluster.Invariant.{grant}
use sjytker_my_mit.Raft.Cluster.Safety.{Reach-Inv}
use sjytker_my_mit.Raft.Cluster.Matched.{Leaders, take-append}
use sjytker_my_mit.Raft.Cluster.Matching.{win}
use sjytker_my_mit.Raft.Cluster.Grow.{Evolves}
use sjytker_my_mit.Raft.Cluster.NetInv.{NetInv}
use sjytker_my_mit.Raft.Cluster.Agreement.{
  NewTerm, Step-After, begin-NetInv, first_logs, first_logs-zero,
}
use sjytker_my_mit.Raft.Complete.{Ack, Past, Notes, Notes-Permits}
use sjytker_my_mit.Raft.Complete.Terms.{Has}
use sjytker_my_mit.Raft.Complete.Preserve.{PastInv}
use sjytker_my_mit.Raft.Complete.Keep.{keeps}
use sjytker_my_mit.Raft.Complete.Accepted.{begin-PastInv, ReachPast-Reach}
use sjytker_my_mit.Raft.Complete.Polls.{
  Asks, ReachPolls, begin_polls, next_polls, ReachPolls-ReachPast, PollInv,
}
use sjytker_my_mit.Raft.Complete.PollKeep.{Handles-PollInv}
use sjytker_my_mit.Raft.Complete.PollVote.{given-PollInv, refused-PollInv}
use sjytker_my_mit.Raft.Complete.PollCases.{ask-PollInv, restart-PollInv, stand-PollInv}
use sjytker_my_mit.Raft.Complete.PollElect.{elect-PollInv}
use sjytker_my_mit.Raft.Complete.Later.{later_leaders}

module _ {C B : Type 0} (gob : Gob (PersistData C) B) (n : ℕ) where
  step_polls :
      (s s' : Cluster C B) (past past' : Past C) (polls polls' : List RequestVoteArgs)
      (logs logs' : Leaders C)
      → Reach gob n s
      → Reach gob n s'
      → NetInv gob n s past.sent logs
      → NetInv gob n s' past'.sent logs'
      → PastInv gob s past logs
      → PollInv gob n s past polls logs
      → (st : Step gob n s s') → Notes gob n st past past'
      → Asks gob n st polls polls'
      → Evolves (NewTerm gob n st) logs logs'
      → PollInv gob n s' past' polls' logs'
  step_polls s s' past past' polls polls' logs logs' reach later net net' inv old
        (vote i args rf r h e) d (asked, ps) ev =
      let given : Bool → List Grant =
        λ b. with_grant b (grant i args.term args.candidate_id) s.grants in
      let gs : s'.grants ≡ given r.vote_granted = ap (λ (x : Cluster C B). x.grants) e in
      let at = ap (λ (x : Cluster C B). x.peer) e in
      elim (Bool-cases r.vote_granted) [
        | inl g ↦
            given-PollInv gob n s s' past past' polls polls' logs logs' i rf inv net old
              (Reach-Inv gob n s reach) ev at args r h asked ps d g (gs ∙ ap given g)
        | inr f ↦
            refused-PollInv gob n s s' past past' polls polls' logs logs' i rf inv net old
              (Reach-Inv gob n s reach) ev at args r h asked ps d f (gs ∙ ap given f)
      ]
  step_polls s s' past past' polls polls' logs logs' reach later net net' inv old (handle i rf h e)
        d a ev =
      Handles-PollInv gob n s s' past past' polls polls' logs logs' i rf inv old
        (Reach-Inv gob n s reach) ev (ap (λ (x : Cluster C B). x.peer) e)
        (ap (λ (x : Cluster C B). x.grants) e) h d a
  step_polls s s' past past' polls polls' logs logs' reach later net net' inv old
        (stand i args rf h e) d ps ev =
      stand-PollInv gob n s s' past past' polls polls' logs logs' i rf inv net old
        (Reach-Inv gob n s reach) ev (ap (λ (x : Cluster C B). x.peer) e) d args h ps
        (ap (λ (x : Cluster C B). x.grants) e)
  step_polls s s' past past' polls polls' logs logs' reach later net net' inv old
        (ask i args replies rf count h e) d (z, ps) ev =
      ask-PollInv gob n s s' past past' polls polls' logs logs' i rf inv net old
        (Reach-Inv gob n s reach) ev (ap (λ (x : Cluster C B). x.peer) e) d args replies count h z
        ps (ap (λ (x : Cluster C B). x.grants) e)
  step_polls s s' past past' polls polls' logs logs' reach later net net' inv old
        (elect i args replies before after rf count lt b voted given h e) d ps ev =
      elect-PollInv gob n s s' past past' polls polls' logs logs' _ i rf reach later net net' old ev
        (ap (λ (x : Cluster C B). x.peer) e) ps d (ap (λ (x : Cluster C B). x.grants) e) args count
        h
        (λ t (new, cur). (
          new,
          cur,
          ap (λ (x : Cluster C B). x.wins) e
              ∙ ap (λ (c : Bool). if c then win i rf.current_term ∷ s.wins else s.wins) new,
        ))
  step_polls s s' past past' polls polls' logs logs' reach later net net' inv old (restart i rf h e)
        d ps ev =
      restart-PollInv gob n s s' past past' polls polls' logs logs' i rf inv net old
        (Reach-Inv gob n s reach) ev (ap (λ (x : Cluster C B). x.peer) e) d h ps
        (ap (λ (x : Cluster C B). x.grants) e)

  begin-PollInv :
      (s : Cluster C B)
      → IsInitial gob n s
      → PollInv gob n s (record { sent = []; acks = [] }) [] (first_logs gob n)
  unfolding make make_persister
  begin-PollInv s h = record {
    voting = λ i. record {
      memory = λ c e. absurd (ground (arith, h.fresh i));
      disk = λ b on c e. absurd (ground (arith, h.fresh i));
      own = inl (ground (arith, h.fresh i));
    };
    polled = λ p m. absurd m;
    once = λ p q m. absurd m;
    safe = λ q t c g. absurd (subst (In (grant q t c)) h.no_grants g);
    elected = λ t l e. inl (first_logs-zero gob n t l e);
  }

  ReachPolls-PollInv :
      (s : Cluster C B) (past : Past C) (polls : List RequestVoteArgs)
      → ReachPolls gob n s past polls
      → (logs : Leaders C) × NetInv gob n s past.sent logs
        × PastInv gob s past logs
        × PollInv gob n s past polls logs
  ReachPolls-PollInv s past polls (begin_polls h e) = (
    first_logs gob n,
    subst (λ (p : Past C). NetInv gob n s p.sent (first_logs gob n)) (sym e)
        (begin-NetInv gob n s h),
    subst (λ p. PastInv gob s p (first_logs gob n)) (sym e) (begin-PastInv gob n s h),
    subst (λ p. PollInv gob n s p [] (first_logs gob n)) (sym e) (begin-PollInv s h),
  )
  ReachPolls-PollInv s past polls (next_polls {s = t} {past = before} {polls = was} r st d a) =
      let (logs, net, inv, old) = ReachPolls-PollInv t before was r in
      let reach = ReachPast-Reach gob n (ReachPolls-ReachPast gob n r) in
      let (logs', net', ev) =
        Step-After gob n t s before.sent past.sent logs reach (next reach st) net st
          (Notes-Permits gob n st before past d) in
      (
        logs',
        net',
        keeps gob n t s before past logs logs' reach (next reach st) inv net net' st d ev,
        step_polls t s before past was polls logs logs' reach (next reach st) net net' inv old st d
            a ev,
      )

  -- Leader completeness: in every reachable state of a cluster that takes no snapshots, whose network
  -- delivers to RequestVote and AppendEntries only what candidates and leaders have sent, late, again
  -- or never, whose replies to RequestVote have the term that the handler leaves, and where no reply
  -- to AppendEntries with a newer term comes to a peer that leads no more: where more than half of the
  -- peers have accepted, from the leader of a term, logs with an entry of that term at an index, each
  -- leader of a later term has the log that any of them has accepted up to that entry.
  pub leader_completeness :
      (s : Cluster C B) (past : Past C) (polls : List RequestVoteArgs) (t k i : ℕ) (f : ℕ → Bool)
      → ReachPolls gob n s past polls
      → n < count_true n f + count_true n f
      → ((q : ℕ)
          → f q ≡ true
          → (a : Ack C) × In a past.acks × (a.peer ≡ q) × (a.term ≡ t) × Has a.log t k)
      → (s.peer i).state ≡ leader
      → t < (s.peer i).current_term
      → (a : Ack C) → In a past.acks
      → a.term ≡ t
      → Has a.log t k
      → take (suc k) (s.peer i).log ≡ take (suc k) a.log
  leader_completeness s past polls t k i f r half accepted lead lt a m term (e, at, same) =
      let (logs, net, inv, old) = ReachPolls-PollInv s past polls r in
      let ((rest, led), low, keep) = inv.acked a m in
      let led_t : logs t ≡ some (a.log ++ rest) = ap logs (sym term) ∙ led in
      let in_log = get_elem?-lt a.log k at in
      let kept =
        later_leaders n logs past.acks s.grants t k (a.log ++ rest) led_t
          (e, get_elem?-append_left a.log rest k in_log ∙ at, same) inv.upto inv.matched old.elected
          f half accepted (s.peer i).current_term in
      let (x, here, x_term) =
        kept (s.peer i).current_term (s.peer i).log lt (omega arith) ((net.peers i).leads lead) in
      let (l, p, q) = (net.peers i).good.2 k x here in
      q
      ∙ ap (take (suc k)) (some_eq (sym p ∙ ap logs x_term ∙ led_t))
      ∙ take-append (suc k) a.log rest in_log
