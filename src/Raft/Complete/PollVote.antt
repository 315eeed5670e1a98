-- ===== src/Raft/Complete/PollVote.antt =====
-- A vote that is given makes the candidate cover what the voter has accepted.
use sjytker_my_mit.Base.{
  ℕ, suc, ◌-◌, ◌≤◌, ◌≡◌, refl, sym, ap, ◌∙◌, subst, ◌⊎◌, inl, inr, true, false, none, some, List,
  ◌∷◌, ◌++◌, arith, dec_lt, Option-cases, length, get_elem?, get_elem?-some, get_elem?-lt, pos,
}
use sjytker_my_mit.Raft.State.{
  follower, candidate, LogEntry, Raft, RequestVoteArgs, RequestVoteReply,
}
use sjytker_my_mit.Raft.Log.{last_log_term_index}
use sjytker_my_mit.Raft.Persist.{Gob, PersistData}
use sjytker_my_mit.Raft.Vote.{up_to_date, request_vote}
use sjytker_my_mit.Raft.Handler.{request_vote-Moves, Moves, request_vote-granted}
use sjytker_my_mit.Raft.Cluster.{Cluster, Grant, In, update}
use sjytker_my_mit.Raft.Cluster.Invariant.{grant}
use sjytker_my_mit.Raft.Cluster.Safety.{Inv}
use sjytker_my_mit.Raft.Cluster.Matched.{Leaders, Matched}
use sjytker_my_mit.Raft.Cluster.Writes.{request_vote-SameLog}
use sjytker_my_mit.Raft.Cluster.Grow.{Evolves}
use sjytker_my_mit.Raft.Cluster.NetInv.{NetInv}
use sjytker_my_mit.Raft.Complete.{Ack, Past}
use sjytker_my_mit.Raft.Complete.Terms.{Has, UpTo, Has-take}
use sjytker_my_mit.Raft.Complete.Invariant.{disk_term}
use sjytker_my_mit.Raft.Complete.Logs.{Kept-back}
use sjytker_my_mit.Raft.Cluster.Matching.{dummy}
use sjytker_my_mit.Raft.Complete.Preserve.{Acked, disk_term-current, PastInv}
use sjytker_my_mit.Raft.Complete.Votes.{Voting-more, Voting-stored}
use sjytker_my_mit.Raft.Complete.Ballots.{request_vote-refused, request_vote-new}
use sjytker_my_mit.Raft.Complete.Polls.{Covers, Safe, PollInv}
use sjytker_my_mit.Raft.Complete.PollSteps.{step-PollInv}
use sjytker_my_mit.Raft.Complete.PollMoves.{disk_forward, moves-PollInv}

pub no_poll : RequestVoteArgs
no_poll = record { term = 0; candidate_id = 0; last_log_index = 0; last_log_term = 0 }

same_grant : (i : ℕ) {t t' c c' : ℕ} → t ≡ t' → c ≡ c' → grant i t c ≡ grant i t' c'
same_grant i p q j = record { voter = i; term = p j; candidate = q j }

pub pos_inj : {a b : ℕ} → pos a ≡ pos b → a ≡ b
pos_inj e = ground (arith, e)

module _ {C B : Type 0} (gob : Gob (PersistData C) B) where
  granted-follows :
      (rf rf' : Raft C B) (args : RequestVoteArgs) (r : RequestVoteReply)
      → request_vote gob args rf ≡ some (rf', r)
      → r.vote_granted ≡ true
      → (rf'.state ≡ follower) × (rf.current_term ≤ args.term)
  unfolding request_vote
  granted-follows rf rf' args r h g = ground arith

  -- A log's end, where no snapshot was taken.
  pub log_end :
      (rf : Raft C B) (e0 : LogEntry C)
      → rf.last_snapshot_index ≡ 0
      → get_elem? rf.log 0 ≡ some e0
      → (e : LogEntry C) × (m : ℕ) × (length rf.log ≡ suc m)
        × (get_elem? rf.log m ≡ some e)
        × (last_log_term_index rf ≡ some (e.term, m))
  unfolding last_log_term_index
  log_end rf e0 z at =
      let lt = get_elem?-lt rf.log 0 at in
      let m = length rf.log - 1 in
      let (e, here) = get_elem?-some rf.log m (omega arith) in
      (e, m, omega arith, here, ground arith)

  -- A log that is up to date covers every entry of the voter's.
  pub up_to_date-Covers :
      (logs : Leaders C) (log : List (LogEntry C)) (args : RequestVoteArgs) (e : LogEntry C)
      (m t k : ℕ)
      → ((u : ℕ) (l : List (LogEntry C)) → logs u ≡ some l → UpTo u l)
      → Matched logs log
      → length log ≡ suc m
      → get_elem? log m ≡ some e
      → Has log t k
      → up_to_date args (e.term, m) ≡ true
      → Covers args t k
  unfolding up_to_date
  up_to_date-Covers logs log args e m t k upto matched len last (x, here, term) up =
      let lt = get_elem?-lt log k here in
      let (lead, p, q) = matched m e last in
      let (y, there, y_term) = Has-take lead log t k m (omega arith) (sym q) (x, here, term) in
      let low = upto e.term lead p k y there in ground arith

module _ {C B : Type 0} (gob : Gob (PersistData C) B) (n : ℕ) (s s' : Cluster C B)
    (past past' : Past C) (polls polls' : List RequestVoteArgs) (logs logs' : Leaders C) (i : ℕ)
    (rf : Raft C B) (inv : PastInv gob s past logs) (net : NetInv gob n s past.sent logs)
    (old : PollInv gob n s past polls logs) (before : Inv gob n s)
    (ev : Evolves (λ t. ⊥) logs logs') (at : s'.peer ≡ update s.peer i rf) (args : RequestVoteArgs)
    (r : RequestVoteReply) (run : request_vote gob args (s.peer i) ≡ some (rf, r))
    (asked : In args polls) (ps : polls' ≡ polls) (same_past : past' ≡ past) where
  m : Moves gob (s.peer i) rf
  m = request_vote-Moves gob args r run

  acks :
      (a : Ack C)
      → In a past'.acks
      → In a past.acks ⊎ ((a.peer ≡ i) × ((s.peer i).current_term ≤ a.term))
  acks a x = inl (subst (λ (p : Past C). In a p.acks) same_past x)

  -- The voter has what it has accepted, and the candidate's log covers that.
  new_vote :
      (e : LogEntry C) (last : ℕ)
      → logs args.term ≡ none
      → r.vote_granted ≡ true
      → length (s.peer i).log ≡ suc last
      → get_elem? (s.peer i).log last ≡ some e
      → up_to_date args (e.term, last) ≡ true
      → Safe logs past.acks args i
  new_vote e last absent g len here up a k u ma peer su lt has kept =
      let (lead, low, keep) = subst (λ j. Acked gob logs a (s.peer j)) peer (inv.acked a ma) in
      let fwd = (granted-follows gob (s.peer i) rf args r run g).1 in
      let disk = disk_term-current gob n i (s.peer i) (before.peers i) in
      up_to_date-Covers gob logs (s.peer i).log args e last a.term k inv.upto (net.peers i).good.2
        len here
        (keep k has (λ v l lt' le' led. elim (dec_lt u v) [
          | no ge ↦ kept v l lt' (omega arith) led
          | yes over ↦
              let top : v ≡ args.term = omega arith in
              let led' : logs args.term ≡ some l = subst (λ x. logs x ≡ some l) top led in absurd cc
        ]))
        up

  abbrev Backs : Type 0
  Backs =
      ((l : List (LogEntry C)) × (logs' args.term ≡ some l))
      ⊎ ((p : RequestVoteArgs) × In p polls'
          × (p.term ≡ args.term)
          × (p.candidate_id ≡ args.candidate_id)
          × Safe logs' past'.acks p i)

  Safe-same : (p : RequestVoteArgs) → Safe logs past.acks p i → Safe logs' past'.acks p i
  Safe-same p h a k u m peer su lt has kept =
      h a k u (subst (λ (x : Past C). In a x.acks) same_past m) peer su lt has
        (Kept-back gob ev a.term u u k (omega arith) kept)

  -- A grant of the step's term that was there before, for any voter's own sake.
  old_grant : In (grant i args.term args.candidate_id) s.grants → Backs
  old_grant g = elim (old.safe i args.term args.candidate_id g) [
    | inl (l, led) ↦ let (rest, e, all) = ev.0 args.term l led in inl (l ++ rest, e)
    | inr (p, mp, term, cand, h) ↦ inr (p, subst (In p) (sym ps) mp, term, cand, Safe-same p h)
  ]

  backed : r.vote_granted ≡ true → Backs
  backed g = elim (Option-cases (logs args.term)) [
    | inr (l, led) ↦ let (rest, e, all) = ev.0 args.term l led in inl (l ++ rest, e)
    | inl absent ↦
        let good = (net.peers i).good in
        let (e, last, len, here, ends) = log_end gob (s.peer i) dummy good.0 good.1 in
        elim (request_vote-new gob (s.peer i) rf args r e.term last ends run g) [
          | inr up ↦ inr (
            args,
            subst (In args) (sym ps) asked,
            refl,
            refl,
            Safe-same args (new_vote e last absent g len here up),
          )
          | inl (cur, cast) ↦ elim ((old.voting i).memory args.candidate_id cast) [
            | inl (l, led) ↦
                let led' : logs args.term ≡ some l = ap logs (sym cur) ∙ led in absurd cc
            | inr (inl me) ↦ old_grant (
                subst (λ j. In (grant j args.term args.candidate_id) s.grants) me
                  (old.polled args asked).1)
            | inr (inr was) ↦
                old_grant (subst (λ t. In (grant i t args.candidate_id) s.grants) cur was)
          ]
        ]
  ]

  fwd : (s.peer i).current_term ≤ rf.current_term
  fwd = let f = m.forward in omega arith

  mono : disk_term gob (s.peer i).persister.raft_state ≤ disk_term gob rf.persister.raft_state
  mono =
      disk_forward gob (s.peer i) rf m.stored fwd
        (disk_term-current gob n i (s.peer i) (before.peers i))

  still :
      (t : ℕ)
      → rf.state ≡ candidate
      → rf.current_term ≡ t
      → t ≤ disk_term gob (s.peer i).persister.raft_state
      → ((s.peer i).state ≡ candidate) × ((s.peer i).current_term ≡ t) × (rf.log ≡ (s.peer i).log)
  still t c cur low = elim m.role [
    | inl (q, w) ↦ (sym q ∙ c, sym w ∙ cur, (request_vote-SameLog gob (s.peer i) rf args r run).0)
    | inr f ↦ absurd cc
  ]

  pub given-PollInv :
      r.vote_granted ≡ true
      → s'.grants ≡ grant i args.term args.candidate_id ∷ s.grants
      → PollInv gob n s' past' polls' logs'
  given-PollInv g gs =
      let more : (x : Grant) → In x s.grants → In x s'.grants =
        λ x h. subst (In x) (sym gs) (inr h) in
      let (term, cast, now) = request_vote-granted gob args r (s.peer i) run g in
      step-PollInv gob n s s' past past' polls polls' logs logs' (λ t. ⊥) ev i rf old before at mono
        acks more still no_poll
        (Voting-stored gob logs' s'.grants i (s.peer i) rf m.stored
          (Voting-more gob logs logs' s.grants s'.grants i (s.peer i) ev more (old.voting i))
          (λ c e. inr (
            inr (
              subst (In (grant i rf.current_term c)) (sym gs)
                (inl (same_grant i (sym term) (pos_inj (sym cast ∙ e)))))))
          (inl (granted-follows gob (s.peer i) rf args r run g).0))
        (λ p x. subst (In p) (sym ps) x) (λ p x. inl (subst (In p) ps x))
        (λ q t c x. elim (subst (In (grant q t c)) gs x) [
          | inr was ↦ inl was
          | inl same ↦ inr (
              subst
                (λ (y : Grant).
                  ((l : List (LogEntry C)) × (logs' y.term ≡ some l))
                  ⊎ ((p : RequestVoteArgs) × In p polls'
                      × (p.term ≡ y.term)
                      × (p.candidate_id ≡ y.candidate)
                      × Safe logs' past'.acks p y.voter))
                same (backed g))
        ])
        (λ t l x. absurd x)

  pub refused-PollInv :
      r.vote_granted ≡ false → s'.grants ≡ s.grants → PollInv gob n s' past' polls' logs'
  refused-PollInv f gs =
      let more : (x : Grant) → In x s.grants → In x s'.grants = λ x h. subst (In x) (sym gs) h in
      let h = Voting-more gob logs logs' s.grants s'.grants i (s.peer i) ev more (old.voting i) in
      elim (request_vote-refused gob (s.peer i) rf args r run f) [
        | inl (v, t) ↦
            moves-PollInv gob n s s' past past' polls polls' logs logs' ev i rf old before m at gs
              ps acks (λ _. (request_vote-SameLog gob (s.peer i) rf args r run).0) v (inl t)
        | inr (blank, follows) ↦
            step-PollInv gob n s s' past past' polls polls' logs logs' (λ t. ⊥) ev i rf old before
              at mono acks more still no_poll
              (Voting-stored gob logs' s'.grants i (s.peer i) rf m.stored h
                (λ c e. absurd (ground (arith, e, blank))) (inl follows))
              (λ p x. subst (In p) (sym ps) x) (λ p x. inl (subst (In p) ps x))
              (λ q t c x. inl (subst (In (grant q t c)) gs x)) (λ t l x. absurd x)
      ]
