-- ===== src/Raft/Complete/PollSteps.antt =====
-- A step of one peer, by what it does to its votes, its log and the requests for votes.
use sjytker_my_mit.Base.{
  ℕ, ◌≤◌, ◌<◌, ◌≡◌, refl, sym, ap, ◌∙◌, subst, ◌⊎◌, inl, inr, some, List, ◌++◌, arith, ℕ_discrete,
  ==_refl, ==_false, some_eq, append_assoc,
}
use sjytker_my_mit.Raft.State.{candidate, LogEntry, Raft, RequestVoteArgs}
use sjytker_my_mit.Raft.Persist.{Gob, PersistData}
use sjytker_my_mit.Raft.Cluster.{Cluster, Grant, In, update}
use sjytker_my_mit.Raft.Cluster.Invariant.{grant}
use sjytker_my_mit.Raft.Cluster.Safety.{Inv}
use sjytker_my_mit.Raft.Cluster.Matched.{Leaders, Matched-Grows}
use sjytker_my_mit.Raft.Cluster.Grow.{Evolves}
use sjytker_my_mit.Raft.Complete.{Ack, Past}
use sjytker_my_mit.Raft.Complete.Terms.{Evolves-Grows}
use sjytker_my_mit.Raft.Complete.Invariant.{disk_term}
use sjytker_my_mit.Raft.Complete.Logs.{Kept-back}
use sjytker_my_mit.Raft.Complete.Preserve.{OfTerm-append}
use sjytker_my_mit.Raft.Complete.Votes.{Voting, Voting-more}
use sjytker_my_mit.Raft.Complete.Polls.{Safe, Stood, Elected, PollInv}

module _ {C B : Type 0} (gob : Gob (PersistData C) B) (n : ℕ) (s s' : Cluster C B)
    (past past' : Past C) (polls polls' : List RequestVoteArgs) (logs logs' : Leaders C)
    (N : ℕ → Type 0) (ev : Evolves N logs logs') (i : ℕ) (rf : Raft C B)
    (old : PollInv gob n s past polls logs) (before : Inv gob n s)
    (e : s'.peer ≡ update s.peer i rf)
    (mono : disk_term gob (s.peer i).persister.raft_state ≤ disk_term gob rf.persister.raft_state)
    (acks : (a : Ack C)
      → In a past'.acks
      → In a past.acks ⊎ ((a.peer ≡ i) × ((s.peer i).current_term ≤ a.term)))
    (grants : (g : Grant) → In g s.grants → In g s'.grants)
    (still : (t : ℕ)
      → rf.state ≡ candidate
      → rf.current_term ≡ t
      → t ≤ disk_term gob (s.peer i).persister.raft_state
      → ((s.peer i).state ≡ candidate)
        × ((s.peer i).current_term ≡ t)
        × (rf.log ≡ (s.peer i).log)) where
  self : s'.peer i ≡ rf
  self = ap (λ f. f i) e ∙ rw (==_refl i) refl

  others : (j : ℕ) → ¬ (i ≡ j) → s'.peer j ≡ s.peer j
  others j ne = ap (λ f. f j) e ∙ rw (==_false i j ne) refl

  -- A vote is for no later term than the voter's.
  grant_low : (q t c : ℕ) → In (grant q t c) s.grants → t ≤ (s.peer q).current_term
  grant_low q t c g =
      let p = before.peers q in let a = p.kept t c g in let b = p.follows in ground arith

  pub Safe-step :
      (p : RequestVoteArgs) (q c : ℕ)
      → In (grant q p.term c) s.grants
      → Safe logs past.acks p q
      → Safe logs' past'.acks p q
  Safe-step p q c g h a k u m peer su lt has kept = elim (acks a m) [
    | inl was ↦ h a k u was peer su lt has (Kept-back gob ev a.term u u k (omega arith) kept)
    | inr (at, ge) ↦
        let low =
          subst (λ j. p.term ≤ (s.peer j).current_term) (sym peer ∙ at) (grant_low q p.term c g) in
        absurd (omega arith)
  ]

  pub Stood-step :
      (p : RequestVoteArgs) (log : List (LogEntry C)) → Stood logs p log → Stood logs' p log
  Stood-step p log (end, m, b) = (end, Matched-Grows logs logs' log (Evolves-Grows ev) m, b)

  disks :
      (j : ℕ)
      → disk_term gob (s.peer j).persister.raft_state
        ≤ disk_term gob (s'.peer j).persister.raft_state
  disks j = elim (ℕ_discrete i j) [
    | yes same ↦
        subst
          (λ k.
            disk_term gob (s.peer k).persister.raft_state
            ≤ disk_term gob (s'.peer k).persister.raft_state)
          same
          (subst
            (λ (x : Raft C B).
              disk_term gob (s.peer i).persister.raft_state ≤ disk_term gob x.persister.raft_state)
            (sym self) mono)
    | no ne ↦
        subst
          (λ (x : Raft C B).
            disk_term gob (s.peer j).persister.raft_state ≤ disk_term gob x.persister.raft_state)
          (sym (others j ne)) (omega arith)
  ]

  -- A candidate that still is one in the term of its request has the log with which it stood.
  candidates :
      (j t : ℕ) (log : List (LogEntry C))
      → t ≤ disk_term gob (s.peer j).persister.raft_state
      → ((s.peer j).state ≡ candidate → (s.peer j).current_term ≡ t → (s.peer j).log ≡ log)
      → (s'.peer j).state ≡ candidate
      → (s'.peer j).current_term ≡ t
      → (s'.peer j).log ≡ log
  candidates j t log low h = elim (ℕ_discrete i j) [
    | no ne ↦
        subst (λ (x : Raft C B). x.state ≡ candidate → x.current_term ≡ t → x.log ≡ log)
          (sym (others j ne)) h
    | yes same ↦
        subst
          (λ k.
            (s'.peer k).state ≡ candidate → (s'.peer k).current_term ≡ t → (s'.peer k).log ≡ log)
          same
          (subst (λ (x : Raft C B). x.state ≡ candidate → x.current_term ≡ t → x.log ≡ log)
            (sym self)
            (λ c at.
              let low' =
                subst (λ k. t ≤ disk_term gob (s.peer k).persister.raft_state) (sym same) low in
              let (cand, cur, kept) = still t c at low' in
              let h' =
                subst
                  (λ k.
                    (s.peer k).state ≡ candidate
                    → (s.peer k).current_term ≡ t
                    → (s.peer k).log ≡ log)
                  (sym same) h in
              kept ∙ h' cand cur))
  ]

  pub polled_still :
      (p : RequestVoteArgs)
      → In p polls
      → (p.term ≤ disk_term gob (s'.peer p.candidate_id).persister.raft_state)
        × In (grant p.candidate_id p.term p.candidate_id) s'.grants
        × ((log : List (LogEntry C)) × Stood logs' p log
            × ((s'.peer p.candidate_id).state ≡ candidate
                → (s'.peer p.candidate_id).current_term ≡ p.term
                → (s'.peer p.candidate_id).log ≡ log))
  polled_still p m =
      let (low, g, (log, stood, same)) = old.polled p m in
      let more = disks p.candidate_id in
      (
        omega arith,
        grants _ g,
        (log, Stood-step p log stood, candidates p.candidate_id p.term log low same),
      )

  pub elected_still :
      (t : ℕ) (l l' : List (LogEntry C))
      → logs t ≡ some l
      → logs' t ≡ some l'
      → (t ≡ 0) ⊎ Elected n logs' past'.acks s'.grants t l'
  elected_still t l l' at at' =
      let (more, e', all) = ev.0 t l at in
      elim (old.elected t l at) [
        | inl z ↦ inl z
        | inr h ↦ inr (record {
          poll = h.poll;
          at_term = h.at_term;
          voters = h.voters;
          half = h.half;
          winner = h.winner;
          voted = λ q v. grants _ (h.voted q v);
          covers = λ q v.
              Safe-step h.poll q h.winner
                (subst (λ x. In (grant q x h.winner) s.grants) (sym h.at_term) (h.voted q v))
                (h.covers q v);
          first = h.first;
          more = h.more ++ more;
          is_log =
              some_eq (sym at' ∙ e')
              ∙ ap (λ x. x ++ more) h.is_log
              ∙ append_assoc h.first h.more more;
          own = OfTerm-append t h.more more h.own all;
          stood = Stood-step h.poll h.first h.stood;
        })
      ]

  pub Safe-still :
      (q t c : ℕ)
      → ((p : RequestVoteArgs) → In p polls → In p polls')
      → In (grant q t c) s.grants
      → ((l : List (LogEntry C)) × (logs' t ≡ some l))
        ⊎ ((p : RequestVoteArgs) × In p polls'
            × (p.term ≡ t)
            × (p.candidate_id ≡ c)
            × Safe logs' past'.acks p q)
  Safe-still q t c more g = elim (old.safe q t c g) [
    | inl (l, at) ↦ let (rest, e', all) = ev.0 t l at in inl (l ++ rest, e')
    | inr (p, m, term, cand, h) ↦ inr (
      p,
      more p m,
      term,
      cand,
      Safe-step p q c (subst (λ x. In (grant q x c) s.grants) (sym term) g) h,
    )
  ]

  -- What holds of a request for votes after the step.
  abbrev pub Polled : RequestVoteArgs → Type 0
  Polled p =
      (p.term ≤ disk_term gob (s'.peer p.candidate_id).persister.raft_state)
      × In (grant p.candidate_id p.term p.candidate_id) s'.grants
      × ((log : List (LogEntry C)) × Stood logs' p log
          × ((s'.peer p.candidate_id).state ≡ candidate
              → (s'.peer p.candidate_id).current_term ≡ p.term
              → (s'.peer p.candidate_id).log ≡ log))

  abbrev pub Backed : (q t c : ℕ) → Type 0
  Backed q t c =
      ((l : List (LogEntry C)) × (logs' t ≡ some l))
      ⊎ ((p : RequestVoteArgs) × In p polls'
          × (p.term ≡ t)
          × (p.candidate_id ≡ c)
          × Safe logs' past'.acks p q)

  -- The request of a candidate that the step makes, if it does.
  abbrev pub Fresh : RequestVoteArgs → Type 0
  Fresh p =
      (p.candidate_id ≡ i) × (disk_term gob (s.peer i).persister.raft_state < p.term) × Polled p

  old_term :
      (p : RequestVoteArgs)
      → In p polls
      → p.candidate_id ≡ i
      → p.term ≤ disk_term gob (s.peer i).persister.raft_state
  old_term p m at =
      subst (λ j. p.term ≤ disk_term gob (s.peer j).persister.raft_state) at (old.polled p m).0

  pub step-PollInv :
      (fresh : RequestVoteArgs)
      → Voting gob logs' s'.grants i rf
      → ((p : RequestVoteArgs) → In p polls → In p polls')
      → ((p : RequestVoteArgs) → In p polls' → In p polls ⊎ ((p ≡ fresh) × Fresh p))
      → ((q t c : ℕ) → In (grant q t c) s'.grants → In (grant q t c) s.grants ⊎ Backed q t c)
      → ((t : ℕ) (l : List (LogEntry C))
          → N t
          → logs' t ≡ some l
          → Elected n logs' past'.acks s'.grants t l)
      → PollInv gob n s' past' polls' logs'
  step-PollInv fresh votes more asks given leaders = record {
    voting = λ j. elim (ℕ_discrete i j) [
      | yes same ↦
          subst (λ k. Voting gob logs' s'.grants k (s'.peer k)) same
            (subst (Voting gob logs' s'.grants i) (sym self) votes)
      | no ne ↦
          subst (Voting gob logs' s'.grants j) (sym (others j ne))
            (Voting-more gob logs logs' s.grants s'.grants j (s.peer j) ev grants (old.voting j))
    ];
    polled = λ p m. elim (asks p m) [ inl was ↦ polled_still p was | inr (_, new) ↦ new.2 ];
    once = λ p q mp mq cand term. elim (asks p mp) [
      | inl wp ↦ elim (asks q mq) [
        | inl wq ↦ old.once p q wp wq cand term
        | inr (_, new) ↦
            let low = old_term p wp (cand ∙ new.0) in let up = new.1 in absurd (omega arith)
      ]
      | inr (ep, np) ↦ elim (asks q mq) [
        | inr (eq, _) ↦ ep ∙ sym eq
        | inl wq ↦
            let low = old_term q wq (sym cand ∙ np.0) in let up = np.1 in absurd (omega arith)
      ]
    ];
    safe = λ q t c g. elim (given q t c g) [ inl was ↦ Safe-still q t c more was | inr new ↦ new ];
    elected = λ t l at. elim (ev.1 t l at) [
      | inl (before_l, was) ↦ elected_still t before_l l was at
      | inr new ↦ inr (leaders t l new at)
    ];
  }
