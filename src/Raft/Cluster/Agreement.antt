-- ===== src/Raft/Cluster/Agreement.antt =====
-- Log matching: the logs of a cluster without snapshots agree up to every entry of the same term.
use sjytker_my_mit.Base.{
  ℕ, suc, ◌≡◌, refl, sym, ap, ◌∙◌, subst, inl, inr, Bool, true, false, not, ◌&&◌, none, some, List,
  [], ◌∷◌, arith, ◌==◌, if◌then◌else◌, Bool-cases, get_elem?, take,
}
use sjytker_my_mit.Raft.State.{LogEntry, Persister, Raft, AppendEntriesArgs}
use sjytker_my_mit.Raft.Persist.{Gob, PersistData, make_persister}
use sjytker_my_mit.Raft.Role.{is_leader}
use sjytker_my_mit.Raft.Handler.{
  Handles, Handles-Moves, request_vote-Moves, append, snapshot, command, sending, append_answer,
  snapshot_answer, compaction, delivery, election_of_leader, killing, waking,
}
use sjytker_my_mit.Raft.Elect.{send_request-Moves}
use sjytker_my_mit.Raft.Cluster.{
  Cluster, Grant, In, update, with_grant, Step, vote, handle, stand, ask, elect, restart, IsInitial,
  Reach,
}
use sjytker_my_mit.Raft.Cluster.Invariant.{grant}
use sjytker_my_mit.Raft.Cluster.Safety.{Reach-Inv}
use sjytker_my_mit.Raft.Cluster.Matched.{Leaders, Matched, Matched-agree}
use sjytker_my_mit.Raft.Cluster.Writes.{
  SameLog, request_vote-SameLog, start_election-SameLog, finish_election-SameLog,
  prepare_append-SameLog, handle_append_reply-SameLog, handle_install_reply-SameLog,
  applied-SameLog, kill-SameLog, wake-SameLog, make-blank, send_request-SameLog,
}
use sjytker_my_mit.Raft.Cluster.Net.{
  Delivers, Permits, ReachNet, begin_net, next_net, ReachNet-Reach,
}
use sjytker_my_mit.Raft.Cluster.Matching.{win, dummy, FromLeader, LogInv-Moves, LogInv-SameLog}
use sjytker_my_mit.Raft.Cluster.NetInv.{
  NetInv, quiet-NetInv, sends-FromLeader, takes-GoodLog, stands-LogInv, blank-Matched,
  restarts-LogInv,
}
use sjytker_my_mit.Raft.Cluster.Grow.{
  Evolves, Evolves-refl, Evolves-leader, After, command-After, with_log,
}
use sjytker_my_mit.Raft.Cluster.Lead.{finish-Moves, elect-After}

module _ {C B : Type 0} (gob : Gob (PersistData C) B) (n : ℕ) where
  -- The term that a step makes a new leader for, if it does.
  abbrev pub NewTerm : {s s' : Cluster C B} → Step gob n s s' → ℕ → Type 0
  NewTerm {s} (elect i args replies before after rf count lt b voted given h e) t =
      ((is_leader rf.state && not (is_leader (s.peer i).state)) ≡ true) × (rf.current_term ≡ t)
  NewTerm (vote i args rf r h e) t = ⊥
  NewTerm (handle i rf h e) t = ⊥
  NewTerm (stand i args rf h e) t = ⊥
  NewTerm (ask i args replies rf count h e) t = ⊥
  NewTerm (restart i rf h e) t = ⊥

  In-with_grant :
      (b : Bool) (g : Grant) (gs : List Grant) (x : Grant) → In x gs → In x (with_grant b g gs)
  In-with_grant true g gs x h = inr h
  In-with_grant false g gs x h = h

  -- A handler other than an election's.
  handle-After :
      (s : Cluster C B) (sent sent' : List (AppendEntriesArgs C)) (logs : Leaders C) (i : ℕ)
      → (rf : Raft C B) (h : Handles gob (s.peer i) rf) → Reach gob n s
      → NetInv gob n s sent logs
      → Delivers gob n h sent sent'
      → (N : ℕ → Type 0) → After gob n N logs (record s { peer = update s.peer i rf }) sent'
  handle-After s sent sent' logs i rf h reach inv d N = go h d
    where
      quiet :
          SameLog (s.peer i) rf
          → sent' ≡ sent
          → After gob n N logs (record s { peer = update s.peer i rf }) sent'
      quiet same e = (
        logs,
        subst (λ x. NetInv gob n (record s { peer = update s.peer i rf }) x logs) (sym e)
            (quiet-NetInv gob n s sent logs i rf s.grants inv
              (LogInv-SameLog gob logs s.wins i (s.peer i) rf (inv.peers i) (Handles-Moves gob h)
                same)
              (λ g x. x)),
        Evolves-refl N logs,
      )

      go :
          (k : Handles gob (s.peer i) rf)
          → Delivers gob n k sent sent'
          → After gob n N logs (record s { peer = update s.peer i rf }) sent'
      go (append args r e) (asked, same) =
          let (good, lead) =
            takes-GoodLog gob n logs (s.peer i) rf args r (inv.peers i).good (inv.asked args asked)
              e in
          (
            logs,
            subst (λ x. NetInv gob n (record s { peer = update s.peer i rf }) x logs) (sym same)
                (quiet-NetInv gob n s sent logs i rf s.grants inv
                  (LogInv-Moves gob logs s.wins i (s.peer i) rf (inv.peers i) (Handles-Moves gob h)
                    good lead)
                  (λ g x. x)),
            Evolves-refl N logs,
          )
      go (sending index (some args) e) same =
          let q =
            quiet-NetInv gob n s sent logs i rf s.grants inv
              (LogInv-SameLog gob logs s.wins i (s.peer i) rf (inv.peers i) (Handles-Moves gob h)
                (prepare_append-SameLog gob (s.peer i) rf index (some args) e))
              (λ g x. x) in
          (
            logs,
            subst (λ x. NetInv gob n (record s { peer = update s.peer i rf }) x logs) (sym same)
                (record {
                  peers = q.peers;
                  zero_term = q.zero_term;
                  won = q.won;
                  voted = q.voted;
                  asked = λ a m. elim m [
                    | inl eq ↦ subst (FromLeader logs) eq (
                        sends-FromLeader gob n logs s.wins i index (s.peer i) rf args (inv.peers i)
                          e)
                    | inr old ↦ q.asked a old
                  ];
                }),
            Evolves-refl N logs,
          )
      go (sending index none e) same =
          quiet (prepare_append-SameLog gob (s.peer i) rf index none e) same
      go (command c answer e) same =
          let (logs', after, ev) =
            command-After gob n s sent logs i rf c answer reach inv e (Handles-Moves gob h) N in
          (
            logs',
            subst (λ x. NetInv gob n (record s { peer = update s.peer i rf }) x logs') (sym same)
                after,
            ev,
          )
      go (append_answer index args r _ e) same =
          quiet (handle_append_reply-SameLog gob (s.peer i) rf index args r _ e) same
      go (snapshot_answer index r e) same =
          quiet (handle_install_reply-SameLog gob (s.peer i) rf index r e) same
      go (delivery msg e) same = quiet (applied-SameLog gob (s.peer i) rf msg e) same
      go (election_of_leader e) same = quiet (start_election-SameLog gob (s.peer i) rf none e) same
      go (killing e) same = quiet (kill-SameLog gob (s.peer i) rf e) same
      go (waking e) same = quiet (wake-SameLog gob (s.peer i) rf e) same
      go (snapshot args r e) bad = absurd bad
      go (compaction index bytes e) bad = absurd bad

  settle :
      (N : ℕ → Type 0) (s s' t : Cluster C B) (sent sent' : List (AppendEntriesArgs C))
      (logs logs' : Leaders C)
      → s' ≡ t
      → sent' ≡ sent
      → NetInv gob n t sent logs'
      → Evolves N logs logs'
      → After gob n N logs s' sent'
  settle N s s' t sent sent' logs logs' e same h ev = (
    logs',
    subst (λ x. NetInv gob n x sent' logs') (sym e)
        (subst (λ x. NetInv gob n t x logs') (sym same) h),
    ev,
  )

  pub Step-After :
      (s s' : Cluster C B) (sent sent' : List (AppendEntriesArgs C)) (logs : Leaders C)
      → Reach gob n s
      → Reach gob n s'
      → NetInv gob n s sent logs
      → (st : Step gob n s s') → Permits gob n st sent sent'
      → After gob n (NewTerm st) logs s' sent'
  Step-After s s' sent sent' logs reach later inv (vote i args rf r h e) same =
      settle _ s s' _ sent sent' logs logs e same
        (quiet-NetInv gob n s sent logs i rf _ inv
          (LogInv-SameLog gob logs s.wins i (s.peer i) rf (inv.peers i)
            (request_vote-Moves gob args r h) (request_vote-SameLog gob (s.peer i) rf args r h))
          (In-with_grant r.vote_granted (grant i args.term args.candidate_id) s.grants))
        (Evolves-refl _ logs)
  Step-After s s' sent sent' logs reach later inv (handle i rf h e) d =
      let (logs', after, ev) = handle-After s sent sent' logs i rf h reach inv d (λ t. ⊥) in
      (logs', subst (λ x. NetInv gob n x sent' logs') (sym e) after, ev)
  Step-After s s' sent sent' logs reach later inv (stand i args rf h e) same =
      settle _ s s' _ sent sent' logs logs e same
        (quiet-NetInv gob n s sent logs i rf _ inv
          (stands-LogInv gob n s logs i rf args (Reach-Inv gob n s reach) inv.voted (inv.peers i) h)
          (λ g x. inr x))
        (Evolves-refl _ logs)
  Step-After s s' sent sent' logs reach later inv (ask i args replies rf count h e) same =
      settle _ s s' _ sent sent' logs logs e same
        (quiet-NetInv gob n s sent logs i rf s.grants inv
          (LogInv-SameLog gob logs s.wins i (s.peer i) rf (inv.peers i)
            (send_request-Moves gob args replies count h).0
            (send_request-SameLog gob (s.peer i) rf args replies count h))
          (λ g x. x))
        (Evolves-refl _ logs)
  Step-After s s' sent sent' logs reach later inv
        (elect i args replies before after rf count lt b voted given h e) same =
      let ended : Bool → Cluster C B = λ won. record {
        peer = update s.peer i rf;
        grants = s.grants;
        wins = if won then win i rf.current_term ∷ s.wins else s.wins;
      } in
      elim (Bool-cases (is_leader rf.state && not (is_leader (s.peer i).state))) [
        | inl t ↦
            let e' : s' ≡ ended true = e ∙ ap ended t in
            let (after, absent) =
              (elect-After gob n s s' sent logs i rf args count reach later inv h t
                (ap (λ (x : Cluster C B). x.wins) e')) in
            settle _ s s' (ended true) sent sent' logs (with_log logs rf.current_term rf.log) e'
              same after (Evolves-leader _ logs rf.current_term rf.log absent (t, refl))
        | inr f ↦
            let e' : s' ≡ ended false = e ∙ ap ended f in
            settle _ s s' (ended false) sent sent' logs logs e' same
              (quiet-NetInv gob n s sent logs i rf s.grants inv
                (LogInv-SameLog gob logs s.wins i (s.peer i) rf (inv.peers i)
                  (finish-Moves gob n args count (s.peer i) rf h f)
                  (finish_election-SameLog gob (s.peer i) rf args count h))
                (λ g x. x))
              (Evolves-refl _ logs)
      ]
  Step-After s s' sent sent' logs reach later inv (restart i rf h e) same =
      settle _ s s' _ sent sent' logs logs e same
        (quiet-NetInv gob n s sent logs i rf s.grants inv
          (restarts-LogInv gob n logs s.wins i (s.peer i) rf inv.zero_term (inv.peers i) h)
          (λ g x. x))
        (Evolves-refl _ logs)

  -- The log of term 0, before any leader.
  abbrev pub first_logs : Leaders C
  first_logs t = if t == 0 then some (dummy ∷ []) else none

  pub first_logs-zero : (t : ℕ) (l : List (LogEntry C)) → first_logs t ≡ some l → t ≡ 0
  first_logs-zero t l e = ground arith

  pub begin-NetInv : (s : Cluster C B) → IsInitial gob n s → NetInv gob n s [] first_logs
  unfolding make_persister
  begin-NetInv s h = record {
    peers = λ i.
        let (st, ps, off, log) = make-blank gob n i make_persister refl (h.fresh i) in
        record {
          good = (
            off,
            ap (λ l. get_elem? l 0) log,
            subst (Matched first_logs) (sym log) (blank-Matched gob n first_logs [] refl),
          );
          disk = inl (ap (λ (p : Persister B). p.raft_state) ps);
          leads = λ l. cc;
          stands = λ c. cc;
        };
    zero_term = ([], refl);
    won = λ t l e. inl (first_logs-zero t l e);
    voted = λ i t w. absurd (subst (In (win i t)) h.no_wins w);
    asked = λ args m. absurd m;
  }

  ReachNet-After :
      (s : Cluster C B) (sent : List (AppendEntriesArgs C))
      → ReachNet gob n s sent
      → (logs : Leaders C) × NetInv gob n s sent logs
  ReachNet-After s sent (begin_net h) = (first_logs, begin-NetInv s h)
  ReachNet-After s sent (next_net {s = t} {sent = before} r st p) =
      let (logs, inv) = ReachNet-After t before r in
      let (logs', inv', ev) =
        Step-After t s before sent logs (ReachNet-Reach gob n r)
          (ReachNet-Reach gob n (next_net r st p)) inv st p in
      (logs', inv')

  -- Log matching: in every reachable state of a cluster that takes no snapshots and whose network
  -- delivers to AppendEntries only what some leader has sent, late, again or never, where two peers
  -- have entries of the same term at an index, their logs are the same up to that index, across
  -- crashes and restarts.
  pub log_matching :
      (s : Cluster C B) (sent : List (AppendEntriesArgs C)) (i j k : ℕ) (e f : LogEntry C)
      → ReachNet gob n s sent
      → get_elem? (s.peer i).log k ≡ some e
      → get_elem? (s.peer j).log k ≡ some f
      → e.term ≡ f.term
      → take (suc k) (s.peer i).log ≡ take (suc k) (s.peer j).log
  log_matching s sent i j k e f r p q same =
      let (logs, inv) = ReachNet-After s sent r in
      Matched-agree logs (s.peer i).log (s.peer j).log k e f (inv.peers i).good.2
        (inv.peers j).good.2 p q same
