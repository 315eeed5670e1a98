-- ===== src/Raft/Complete/Steps.antt =====
-- A step of one peer, by what it does to its log and adds to what was sent and accepted.
use sjytker_my_mit.Base.{
  ℕ, ◌≤◌, ◌≡◌, refl, sym, ap, ◌∙◌, subst, ◌⊎◌, inl, inr, some, List, arith, ℕ_discrete, ==_refl,
  ==_false, some_eq,
}
use sjytker_my_mit.Raft.State.{leader, LogEntry, Raft, AppendEntriesArgs}
use sjytker_my_mit.Raft.Persist.{Gob, PersistData}
use sjytker_my_mit.Raft.Cluster.{Cluster, In, update}
use sjytker_my_mit.Raft.Cluster.Safety.{Inv}
use sjytker_my_mit.Raft.Cluster.Matched.{Leaders, Matched}
use sjytker_my_mit.Raft.Cluster.Grow.{Evolves}
use sjytker_my_mit.Raft.Cluster.NetInv.{NetInv}
use sjytker_my_mit.Raft.Complete.{Ack, Past}
use sjytker_my_mit.Raft.Complete.Terms.{UpTo, UpTo-le, Evolves-Matched, Evolves-UpTo}
use sjytker_my_mit.Raft.Complete.Invariant.{OfLeader, disk_term, LogTerms}
use sjytker_my_mit.Raft.Complete.Logs.{Change, LogTerms-Change}
use sjytker_my_mit.Raft.Complete.Preserve.{
  Acked, Acked-Evolves, Acked-Change, OfLeader-Evolves, disk_term-current, PastInv,
}

module _ {C B : Type 0} (gob : Gob (PersistData C) B) (n : ℕ) (s s' : Cluster C B)
    (past past' : Past C) (logs logs' : Leaders C) (N : ℕ → Type 0) (ev : Evolves N logs logs')
    (i : ℕ) (rf : Raft C B) (old : PastInv gob s past logs) (before : Inv gob n s)
    (after : Inv gob n s') (net : NetInv gob n s past.sent logs)
    (net' : NetInv gob n s' past'.sent logs') (e : s'.peer ≡ update s.peer i rf)
    (change : Change gob logs (s.peer i) rf) where
  peer_self : s'.peer i ≡ rf
  peer_self = ap (λ f. f i) e ∙ rw (==_refl i) refl

  peer_else : (j : ℕ) → ¬ (i ≡ j) → s'.peer j ≡ s.peer j
  peer_else j ne = ap (λ f. f j) e ∙ rw (==_false i j ne) refl

  -- What peer `i` has after the step, and the other peers had before it.
  at_peer :
      (P : ℕ → Raft C B → Type 0) → P i rf → ((j : ℕ) → P j (s.peer j)) → (j : ℕ) → P j (s'.peer j)
  at_peer P new rest j = elim (ℕ_discrete i j) [
    | yes same ↦ subst (λ k. P k (s'.peer k)) same (subst (P i) (sym peer_self) new)
    | no ne ↦ subst (P j) (sym (peer_else j ne)) (rest j)
  ]

  new_terms : LogTerms gob rf
  new_terms =
      LogTerms-Change gob logs (s.peer i) rf old.upto
        (disk_term-current gob n i (s.peer i) (before.peers i)) (old.peers i) change

  low : disk_term gob rf.persister.raft_state ≤ rf.current_term
  low =
      subst (λ (x : Raft C B). disk_term gob x.persister.raft_state ≤ x.current_term) peer_self
        (disk_term-current gob n i (s'.peer i) (after.peers i))

  -- The log of a leader that the step makes.
  fresh_log :
      (t : ℕ) (l : List (LogEntry C))
      → (rf.state ≡ leader) × (rf.current_term ≡ t)
      → logs' t ≡ some l
      → l ≡ rf.log
  fresh_log t l (lead, cur) h =
      let led =
        subst (λ (x : Raft C B). x.state ≡ leader → logs' x.current_term ≡ some x.log) peer_self
          ((net'.peers i).leads) in
      some_eq (sym h ∙ ap logs' (sym cur) ∙ led lead)

  Acked-peer : (a : Ack C) → In a past.acks → Acked gob logs' a (s'.peer a.peer)
  Acked-peer a m = elim (ℕ_discrete i a.peer) [
    | yes same ↦
        subst (λ j. Acked gob logs' a (s'.peer j)) same
          (subst (Acked gob logs' a) (sym peer_self) (
            Acked-Change gob ev a (s.peer i) rf old.upto (net.peers i).good.2
              (disk_term-current gob n i (s.peer i) (before.peers i)) (old.peers i)
              (subst (λ j. Acked gob logs a (s.peer j)) (sym same) (old.acked a m)) change))
    | no ne ↦
        subst (Acked gob logs' a) (sym (peer_else a.peer ne))
          (Acked-Evolves gob ev a (s.peer a.peer) (old.acked a m))
  ]

  pub step-PastInv :
      ((args : AppendEntriesArgs C) → In args past'.sent → In args past.sent ⊎ OfLeader logs' args)
      → ((a : Ack C) → In a past'.acks → In a past.acks ⊎ ((a.peer ≡ i) × Acked gob logs' a rf))
      → ((t : ℕ) → N t → (rf.state ≡ leader) × (rf.current_term ≡ t))
      → PastInv gob s' past' logs'
  step-PastInv sends accepts leads = record {
    upto = Evolves-UpTo ev old.upto (λ t l fresh h.
        subst (UpTo t) (sym (fresh_log t l (leads t fresh) h))
          (UpTo-le rf.log _ t (omega (arith, low, (leads t fresh).1)) new_terms.terms));
    matched = Evolves-Matched ev old.matched (λ t l fresh h.
        subst (Matched logs') (sym (fresh_log t l (leads t fresh) h))
          (subst (λ (x : Raft C B). Matched logs' x.log) peer_self (net'.peers i).good.2));
    peers = at_peer (λ j x. LogTerms gob x) new_terms old.peers;
    asked = λ args m. elim (sends args m) [
      | inl was ↦ OfLeader-Evolves gob ev args (old.asked args was)
      | inr new ↦ new
    ];
    acked = λ a m. elim (accepts a m) [
      | inl was ↦ Acked-peer a was
      | inr (at, new) ↦
          subst (λ j. Acked gob logs' a (s'.peer j)) (sym at)
            (subst (Acked gob logs' a) (sym peer_self) new)
    ];
  }
