-- ===== src/Raft/Cluster/Lead.antt =====
-- The logs of all peers when an election ends: startElection in raft/raft.go.
use sjytker_my_mit.Base.{
  ℕ, ◌≡◌, refl, sym, ap, ◌∙◌, subst, ◌⊎◌, inl, inr, true, false, not, ◌&&◌, none, some, List, [],
  ◌∷◌, arith, Option-cases, get_elem?,
}
use sjytker_my_mit.Raft.State.{
  Role, leader, follower, candidate, Raft, RequestVoteArgs, AppendEntriesArgs,
}
use sjytker_my_mit.Raft.Persist.{Gob, PersistData}
use sjytker_my_mit.Raft.Role.{is_leader}
use sjytker_my_mit.Raft.Vote.{finish_election}
use sjytker_my_mit.Raft.Ballot.{Ballot, Follows-refl, Follows-eq, ballot}
use sjytker_my_mit.Raft.Handler.{Moves}
use sjytker_my_mit.Raft.Elect.{finish_election-wins}
use sjytker_my_mit.Raft.Cluster.{Cluster, Win, In, update, Reach}
use sjytker_my_mit.Raft.Cluster.Invariant.{grant}
use sjytker_my_mit.Raft.Cluster.Safety.{Reach-Inv, election_safety}
use sjytker_my_mit.Raft.Cluster.Matched.{Leaders, Matched, Grows}
use sjytker_my_mit.Raft.Cluster.Writes.{finish_election-SameLog}
use sjytker_my_mit.Raft.Cluster.Matching.{
  win, GoodLog, GoodLog-Grows, stored-GoodDisk, GoodDisk-Grows,
}
use sjytker_my_mit.Raft.Cluster.NetInv.{NetInv}
use sjytker_my_mit.Raft.Cluster.Grow.{Grows-NetInv, with_log, with_log-Grows, with_log_self}

module _ {C B : Type 0} (gob : Gob (PersistData C) B) (n : ℕ) where
  no_new_leader :
      (r r' : Role)
      → (is_leader r' && not (is_leader r)) ≡ false
      → (r' ≡ r) ⊎ (r ≡ candidate)
      → (r' ≡ r) ⊎ (r' ≡ follower)
  no_new_leader r r' b (inl same) = inl same
  no_new_leader r leader b (inr c) = absurd (ground arith)
  no_new_leader r follower b (inr c) = inr refl
  no_new_leader r candidate b (inr c) = inl (sym c)

  -- The end of an election moves the ballot and the role as other handlers do, but for a new leader.
  pub finish-Moves :
      (args : RequestVoteArgs) (count : ℕ) (rf rf' : Raft C B)
      → finish_election gob args count rf ≡ some rf'
      → (is_leader rf'.state && not (is_leader rf.state)) ≡ false
      → Moves gob rf rf'
  finish-Moves args count rf rf' e b =
      let v = finish_election-wins gob args count rf e in
      record {
        same_me = v.0;
        same_peers = v.1;
        forward = Follows-eq (ballot rf) (ballot rf) (ballot rf') v.2 (Follows-refl (ballot rf));
        stored = v.3;
        role =
            elim (no_new_leader rf.state rf'.state b
              (elim v.4 [ inl same ↦ inl same | inr c ↦ inr c.0 ])) [
                | inl same ↦ inl (same, ap (λ (x : Ballot). x.term) v.2)
                | inr f ↦ inr f
              ];
      }

  pub elect-After :
      (s s' : Cluster C B) (sent : List (AppendEntriesArgs C)) (logs : Leaders C) (i : ℕ)
      → (rf : Raft C B) (args : RequestVoteArgs) (count : ℕ) → Reach gob n s
      → Reach gob n s'
      → NetInv gob n s sent logs
      → finish_election gob args count (s.peer i) ≡ some rf
      → (is_leader rf.state && not (is_leader (s.peer i).state)) ≡ true
      → s'.wins ≡ win i rf.current_term ∷ s.wins
      → NetInv gob n
          (record {
            peer = update s.peer i rf;
            grants = s.grants;
            wins = win i rf.current_term ∷ s.wins;
          })
          sent
          (with_log logs rf.current_term rf.log)
        × (logs rf.current_term ≡ none)
  elect-After s s' sent logs i rf args count reach later inv e won w =
      let h = inv.peers i in
      let (log, off) = finish_election-SameLog gob (s.peer i) rf args count e in
      let v = finish_election-wins gob args count (s.peer i) e in
      let t = rf.current_term in
      let at : t ≡ (s.peer i).current_term = ap (λ (x : Ballot). x.term) v.2 in
      let cand : (s.peer i).state ≡ candidate = elim v.4 [
        | inl same ↦ absurd (ground arith)
        | inr c ↦ c.0
      ] in
      let (positive, unwon) = h.stands cand in
      let fresh : logs t ≡ none = elim (Option-cases (logs t)) [
        | inl absent ↦ absent
        | inr (l, p) ↦ elim (inv.won t l p) [
          | inl z ↦ absurd (omega arith)
          | inr (j, other) ↦
              let one =
                election_safety gob n s' (win j t) (win i t) later
                  (subst (In (win j t)) (sym w) (inr other))
                  (subst (In (win i t)) (sym w) (inl refl)) refl in
              absurd (
                unwon (
                  subst (λ x. In (win i x) s.wins) at (subst (λ k. In (win k t) s.wins) one other)))
        ]
      ] in
      let logs' = with_log logs t rf.log in
      let g : Grows logs logs' = with_log-Grows logs t [] rf.log (inl fresh) in
      let good : GoodLog logs' rf.last_snapshot_index rf.log =
        GoodLog-Grows logs logs' rf.last_snapshot_index rf.log g (
          off ∙ h.good.0,
          ap (λ y. get_elem? y 0) log ∙ h.good.1,
          subst (Matched logs) (sym log) h.good.2,
        ) in
      (
        Grows-NetInv gob n s sent logs i t rf rf.log (win i t ∷ s.wins) inv g
            (λ j ne lj tj. let has = ap logs (sym tj) ∙ (inv.peers j).leads lj in absurd cc)
            (λ x y. inr y)
            (λ j u ne x. elim x [
              | inl q ↦ absurd (ne (ap (λ (y : Win). y.winner) q))
              | inr old ↦ old
            ])
            (λ j u x. elim x [
              | inl q ↦
                  subst (λ (y : Win). In (grant y.winner y.term y.winner) s.grants) q
                    (subst (λ k. In (grant i k i) s.grants) (sym at)
                      (((Reach-Inv gob n s reach).peers i).standing cand))
              | inr old ↦ inv.voted j u old
            ])
            (inl refl)
            (record {
              good = good;
              disk =
                  stored-GoodDisk gob logs' (s.peer i) rf v.3
                    (GoodDisk-Grows gob logs logs' (s.peer i).persister.raft_state g h.disk) good;
              leads = λ _. with_log_self logs t rf.log;
              stands = λ c. absurd (ground arith);
            }),
        fresh,
      )
