-- ===== src/Raft/Cluster/NetInv.antt =====
-- The logs of all peers and the requests under way, and a step of one peer.
use sjytker_my_mit.Base.{
  ℕ, zero, suc, ◌≡◌, refl, sym, ap, ◌∙◌, subst, ◌⊎◌, inl, inr, false, some, List, [], ◌∷◌, ◌++◌,
  arith, ◌==◌, ==_iff, Bool-cases, some_eq, get_elem?, take, drop, get_elem?-lt, pos,
}
use sjytker_my_mit.Raft.State.{
  leader, LogEntry, Raft, RequestVoteArgs, AppendEntriesArgs, AppendEntriesReply,
}
use sjytker_my_mit.Raft.Persist.{Gob, PersistData}
use sjytker_my_mit.Raft.Role.{make}
use sjytker_my_mit.Raft.Vote.{start_election}
use sjytker_my_mit.Raft.Append.{append_entries}
use sjytker_my_mit.Raft.Leader.{prepare_append}
use sjytker_my_mit.Raft.Ballot.{Follows-trans, ballot}
use sjytker_my_mit.Raft.Elect.{start_election-votes}
use sjytker_my_mit.Raft.Cluster.{Cluster, Grant, Win, In, update}
use sjytker_my_mit.Raft.Cluster.Invariant.{grant}
use sjytker_my_mit.Raft.Cluster.Safety.{Inv}
use sjytker_my_mit.Raft.Cluster.Matched.{Leaders, Matched, Matched-agree, Matched-take_over}
use sjytker_my_mit.Raft.Cluster.Writes.{
  start_election-SameLog, make-blank, make-log, append_entries-writes, start_election-term,
  prepare_append-FromLog,
}
use sjytker_my_mit.Raft.Cluster.Matching.{
  win, dummy, GoodLog, FromLeader, GoodDisk, LogInv, stored-GoodDisk,
}

module _ {C B : Type 0} (gob : Gob (PersistData C) B) (n : ℕ) where
  pub record NetInv (s : Cluster C B) (sent : List (AppendEntriesArgs C)) (logs : Leaders C)
      : Type 0 where
    pub peers : (i : ℕ) → LogInv gob logs s.wins i (s.peer i)
    pub zero_term : (more : List (LogEntry C)) × (logs 0 ≡ some (dummy ∷ more))
    pub won :
        (t : ℕ) (l : List (LogEntry C))
        → logs t ≡ some l
        → (t ≡ 0) ⊎ ((i : ℕ) × In (win i t) s.wins)
    pub voted : (i t : ℕ) → In (win i t) s.wins → In (grant i t i) s.grants
    pub asked : (args : AppendEntriesArgs C) → In args sent → FromLeader logs args

  pub peers-update :
      (logs : Leaders C) (wins : List Win) (peer : ℕ → Raft C B) (i : ℕ) (rf : Raft C B)
      → ((j : ℕ) → ¬ (i ≡ j) → LogInv gob logs wins j (peer j))
      → LogInv gob logs wins i rf
      → (j : ℕ) → LogInv gob logs wins j (update peer i rf j)
  peers-update logs wins peer i rf old new j = elim (Bool-cases (i == j)) [
    | inl e ↦ rw e (subst (λ k. LogInv gob logs wins k rf) ((==_iff i j).0 e) new)
    | inr e ↦ rw e (old j (λ q. ground (arith, q)))
  ]

  -- A step of one peer that sends nothing and leaves its log good.
  pub quiet-NetInv :
      (s : Cluster C B) (sent : List (AppendEntriesArgs C)) (logs : Leaders C) (i : ℕ)
      (rf : Raft C B)
      → (gs : List Grant) → NetInv s sent logs
      → LogInv gob logs s.wins i rf
      → ((g : Grant) → In g s.grants → In g gs)
      → NetInv (record { peer = update s.peer i rf; grants = gs; wins = s.wins }) sent logs
  quiet-NetInv s sent logs i rf gs inv new more = record {
    peers = peers-update logs s.wins s.peer i rf (λ j ne. inv.peers j) new;
    zero_term = inv.zero_term;
    won = inv.won;
    voted = λ j t w. more (grant j t j) (inv.voted j t w);
    asked = inv.asked;
  }

  -- The request that a leader sends is of a good log.
  pub sends-FromLeader :
      (logs : Leaders C) (wins : List Win) (i index : ℕ) (rf rf' : Raft C B)
      → (args : AppendEntriesArgs C) → LogInv gob logs wins i rf
      → prepare_append index rf ≡ some (rf', some args)
      → FromLeader logs args
  sends-FromLeader logs wins i index rf rf' args h e =
      let (z, first, m) = h.good in
      let (at, behind) =
        prepare_append-FromLog gob rf rf' index args z (get_elem?-lt rf.log 0 first) e in
      (rf.log, (refl, first, m), at, behind)

  -- A request from a good log that a follower accepts makes its good log the same.
  pub takes-log :
      (logs : Leaders C) (rf rf' : Raft C B) (args : AppendEntriesArgs C) (r : AppendEntriesReply)
      (log : List (LogEntry C))
      → GoodLog logs rf.last_snapshot_index rf.log
      → GoodLog logs 0 log
      → ((e : LogEntry C) × (get_elem? log args.prev_log_index ≡ some e)
          × (e.term ≡ args.prev_log_term))
      → drop (suc args.prev_log_index) log ≡ args.entries
      → append_entries gob args rf ≡ some (rf', r)
      → ((rf'.log ≡ rf.log) × (r.success ≡ false)) ⊎ (rf'.log ≡ log)
  takes-log logs rf rf' args r log (z, first, m) (o, start_l, ml) (f, at, has) behind e =
      let (z', lead, w) = append_entries-writes gob rf rf' args r z e in
      elim w [
        | inl same ↦ inl same
        | inr (g, here, t, l) ↦
            let term : g.term ≡ f.term = elim t [
              | inl p ↦
                  let at0 = ap (get_elem? rf.log) (sym p) ∙ here in
                  let at1 = ap (get_elem? log) (sym p) ∙ at in
                  ap (λ x. x.term) (some_eq (sym at0 ∙ first))
                  ∙ sym (ap (λ x. x.term) (some_eq (sym at1 ∙ start_l)))
              | inr p ↦ sym p ∙ sym has
            ] in
            let k = args.prev_log_index in
            inr (
              l
              ∙ ap (λ es. take (suc k) rf.log ++ es) (sym behind)
              ∙ Matched-take_over rf.log log k
                  (Matched-agree logs rf.log log k g f m ml here at term))
      ]

  -- What a request from a good log makes of a follower's good log is good.
  pub takes-GoodLog :
      (logs : Leaders C) (rf rf' : Raft C B) (args : AppendEntriesArgs C) (r : AppendEntriesReply)
      → GoodLog logs rf.last_snapshot_index rf.log
      → FromLeader logs args
      → append_entries gob args rf ≡ some (rf', r)
      → GoodLog logs rf'.last_snapshot_index rf'.log × (rf'.state ≡ leader → rf'.log ≡ rf.log)
  takes-GoodLog logs rf rf' args r (z, first, m) (log, (o, start_l, ml), at, behind) e =
      let (z', lead, w) = append_entries-writes gob rf rf' args r z e in
      (
        elim (takes-log logs rf rf' args r log (z, first, m) (o, start_l, ml) at behind e) [
          | inl (same, no_success) ↦
              (z', ap (λ l. get_elem? l 0) same ∙ first, subst (Matched logs) (sym same) m)
          | inr same ↦
              (z', ap (λ x. get_elem? x 0) same ∙ start_l, subst (Matched logs) (sym same) ml)
        ],
        lead,
      )

  -- A candidate has a term in which it has won nothing yet.
  pub stands-LogInv :
      (s : Cluster C B) (logs : Leaders C) (i : ℕ) (rf : Raft C B) (args : RequestVoteArgs)
      → Inv gob n s
      → ((i t : ℕ) → In (win i t) s.wins → In (grant i t i) s.grants)
      → LogInv gob logs s.wins i (s.peer i)
      → start_election gob (s.peer i) ≡ some (rf, some args)
      → LogInv gob logs s.wins i rf
  stands-LogInv s logs i rf args inv voted h e =
      let (log, offset) = start_election-SameLog gob (s.peer i) rf (some args) e in
      let v = start_election-votes gob (s.peer i) args e in
      let term = start_election-term gob (s.peer i) rf args e in
      let good : GoodLog logs rf.last_snapshot_index rf.log = (
        offset ∙ h.good.0,
        ap (λ l. get_elem? l 0) log ∙ h.good.1,
        subst (Matched logs) (sym log) h.good.2,
      ) in
      record {
        good = good;
        disk = stored-GoodDisk gob logs (s.peer i) rf (inr v.7) h.disk good;
        leads = λ l. cc (v.3);
        stands = λ c. (
          omega arith,
          λ w.
              let p = inv.peers i in
              let before =
                Follows-trans (record { term = rf.current_term; vote = pos i }) p.disk
                  (ballot (s.peer i)) (p.kept rf.current_term i (voted i rf.current_term w))
                  p.follows in
              ground arith,
        );
      }

  pub blank-Matched :
      (logs : Leaders C) (more : List (LogEntry C))
      → logs 0 ≡ some (dummy ∷ more)
      → Matched logs (dummy ∷ [])
  blank-Matched logs more z zero e h =
      (dummy ∷ more, subst (λ x. logs x.term ≡ some (dummy ∷ more)) (some_eq h) z, refl)
  blank-Matched logs more z (suc k) e h = absurd cc

  -- A restart finds a good log.
  pub restarts-LogInv :
      (logs : Leaders C) (wins : List Win) (i : ℕ) (rf rf' : Raft C B)
      → ((more : List (LogEntry C)) × (logs 0 ≡ some (dummy ∷ more)))
      → LogInv gob logs wins i rf
      → make gob n i rf.persister ≡ some rf'
      → LogInv gob logs wins i rf'
  restarts-LogInv logs wins i rf rf' (more, z) h e = elim h.disk [
    | inl empty ↦
        let (st, ps, off, log) = make-blank gob n i rf.persister empty e in
        record {
          good = (
            off,
            ap (λ l. get_elem? l 0) log,
            subst (Matched logs) (sym log) (blank-Matched logs more z),
          );
          disk = subst (λ p. GoodDisk gob logs p.raft_state) (sym ps) h.disk;
          leads = λ l. cc;
          stands = λ c. cc;
        }
    | inr (d, enc, g) ↦
        let (st, ps, off, log) = make-log gob n i rf.persister d enc e in
        record {
          good = (off ∙ g.0, ap (λ l. get_elem? l 0) log ∙ g.1, subst (Matched logs) (sym log) g.2);
          disk = subst (λ p. GoodDisk gob logs p.raft_state) (sym ps) h.disk;
          leads = λ l. cc;
          stands = λ c. cc;
        }
  ]
