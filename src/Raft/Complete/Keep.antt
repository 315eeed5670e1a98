-- ===== src/Raft/Complete/Keep.antt =====
-- What holds of all requests and accepted logs is kept by every step of the cluster.
use sjytker_my_mit.Base.{
  ℕ, ◌≤◌, ◌≡◌, refl, sym, ap, ◌∙◌, subst, ◌⊎◌, inl, inr, Bool, true, false, none, some, List, [],
  ◌++◌, arith, ==_refl, get_elem?-lt, append-nil,
}
use sjytker_my_mit.Raft.State.{leader, LogEntry, Raft, AppendEntriesArgs}
use sjytker_my_mit.Raft.Persist.{Gob, PersistData}
use sjytker_my_mit.Raft.Ballot.{Ballot}
use sjytker_my_mit.Raft.Handler.{
  Handles, Handles-Moves, request_vote-Moves, append, snapshot, command, sending, append_answer,
  snapshot_answer, compaction, delivery, election_of_leader, killing, waking, Moves,
}
use sjytker_my_mit.Raft.Elect.{send_request-Moves, start_election-votes, finish_election-wins}
use sjytker_my_mit.Raft.Leader.{prepare_append}
use sjytker_my_mit.Raft.Leader.Replicate.{prepare_append-sent}
use sjytker_my_mit.Raft.Cluster.{
  Cluster, In, update, Step, vote, handle, stand, ask, elect, restart, Reach,
}
use sjytker_my_mit.Raft.Cluster.Safety.{Reach-Inv}
use sjytker_my_mit.Raft.Cluster.Matched.{Leaders}
use sjytker_my_mit.Raft.Cluster.Writes.{
  SameLog, request_vote-SameLog, start_election-SameLog, finish_election-SameLog,
  prepare_append-SameLog, handle_append_reply-SameLog, handle_install_reply-SameLog,
  applied-SameLog, kill-SameLog, wake-SameLog, send_request-SameLog, prepare_append-FromLog,
}
use sjytker_my_mit.Raft.Cluster.NetInv.{NetInv}
use sjytker_my_mit.Raft.Cluster.Grow.{Evolves}
use sjytker_my_mit.Raft.Cluster.Agreement.{NewTerm}
use sjytker_my_mit.Raft.Complete.{Ack, Past, with_ack, Adds, Notes}
use sjytker_my_mit.Raft.Complete.Invariant.{OfLeader, disk_term}
use sjytker_my_mit.Raft.Complete.Logs.{Change, disk_term-now}
use sjytker_my_mit.Raft.Complete.Changes.{
  stays-disk, stays-Moves, stays-restart, append-Change, command-Change,
}
use sjytker_my_mit.Raft.Complete.Preserve.{
  Acked, OfLeader-Evolves, still_leads, disk_term-current, PastInv,
}
use sjytker_my_mit.Raft.Complete.Steps.{step-PastInv}

pub In-with_ack :
    {C : Type 0} (b : Bool) (a x : Ack C) (acks : List (Ack C))
    → In x (with_ack b a acks)
    → In x acks ⊎ ((b ≡ true) × (a ≡ x))
In-with_ack true a x acks (inl e) = inr (refl, e)
In-with_ack true a x acks (inr h) = inl h
In-with_ack false a x acks h = inl h

module _ {C B : Type 0} (gob : Gob (PersistData C) B) (n : ℕ) (s s' : Cluster C B)
    (past past' : Past C) (logs logs' : Leaders C) (reach : Reach gob n s) (later : Reach gob n s')
    (old : PastInv gob s past logs) (net : NetInv gob n s past.sent logs)
    (net' : NetInv gob n s' past'.sent logs') where
  low : (i : ℕ) → disk_term gob (s.peer i).persister.raft_state ≤ (s.peer i).current_term
  low i = disk_term-current gob n i (s.peer i) ((Reach-Inv gob n s reach).peers i)

  -- A step that adds nothing to the past.
  quiet :
      (N : ℕ → Type 0) (i : ℕ) (rf : Raft C B)
      → Evolves N logs logs'
      → s'.peer ≡ update s.peer i rf
      → Change gob logs (s.peer i) rf
      → past' ≡ past
      → ((t : ℕ) → N t → (rf.state ≡ leader) × (rf.current_term ≡ t))
      → PastInv gob s' past' logs'
  quiet N i rf ev e c d leads =
      step-PastInv gob n s s' past past' logs logs' N ev i rf old (Reach-Inv gob n s reach)
        (Reach-Inv gob n s' later) net net' e c
        (λ args m. inl (subst (λ (p : Past C). In args p.sent) d m))
        (λ a m. inl (subst (λ (p : Past C). In a p.acks) d m)) leads

  new_leader :
      (i : ℕ) (rf : Raft C B)
      → s'.peer ≡ update s.peer i rf
      → rf.state ≡ leader
      → logs' rf.current_term ≡ some rf.log
  new_leader i rf e =
      let at : s'.peer i ≡ rf = ap (λ f. f i) e ∙ rw (==_refl i) refl in
      subst (λ (x : Raft C B). x.state ≡ leader → logs' x.current_term ≡ some x.log) at
        (net'.peers i).leads

  -- A leader's request is of its log.
  sends :
      (i index : ℕ) (rf : Raft C B) (args : AppendEntriesArgs C)
      → prepare_append index (s.peer i) ≡ some (rf, some args)
      → OfLeader logs args
  sends i index rf args h =
      let log = (s.peer i).log in
      let (z, first, m) = (net.peers i).good in
      let nonempty = get_elem?-lt log 0 first in
      let sent = prepare_append-sent index (s.peer i) nonempty h in
      let (at, behind) = prepare_append-FromLog gob (s.peer i) rf index args z nonempty h in
      (
        log,
        [],
        ap logs sent.1 ∙ (net.peers i).leads sent.0 ∙ ap some (sym (append-nil log)),
        λ k e q. cc,
        (refl, first, m),
        at,
        behind,
      )

  -- A step that accepts a log, if it does.
  step :
      (N : ℕ → Type 0) (i : ℕ) (rf : Raft C B)
      → Evolves N logs logs'
      → s'.peer ≡ update s.peer i rf
      → Change gob logs (s.peer i) rf
      → ((t : ℕ) → N t → (rf.state ≡ leader) × (rf.current_term ≡ t))
      → ((args : AppendEntriesArgs C)
          → In args past'.sent
          → In args past.sent ⊎ OfLeader logs' args)
      → (b : Bool) (t : ℕ)
      → ((a : Ack C)
          → In a past'.acks
          → In a (with_ack b (record { peer = i; term = t; log = rf.log }) past.acks))
      → (b ≡ true
          → ((rest : List (LogEntry C)) × (logs' t ≡ some (rf.log ++ rest)))
            × (t ≤ disk_term gob rf.persister.raft_state))
      → PastInv gob s' past' logs'
  step N i rf ev e c leads asked b t acks new =
      step-PastInv gob n s s' past past' logs logs' N ev i rf old (Reach-Inv gob n s reach)
        (Reach-Inv gob n s' later) net net' e c asked
        (λ a x.
          elim (In-with_ack b (record { peer = i; term = t; log = rf.log }) a past.acks
            (acks a x)) [
              | inl was ↦ inl was
              | inr (yes_b, eq) ↦ inr (
                  let (lead, disk) = new yes_b in
                  subst (λ (y : Ack C). (y.peer ≡ i) × Acked gob logs' y rf) eq
                    (refl, (lead, disk, λ k has kept. has)))
            ])
        leads

  handles :
      (N : ℕ → Type 0) (i : ℕ) (rf : Raft C B) (h : Handles gob (s.peer i) rf)
      → Evolves N logs logs'
      → s'.peer ≡ update s.peer i rf
      → Adds gob n i h past past'
      → ((t : ℕ) → N t → (rf.state ≡ leader) × (rf.current_term ≡ t))
      → PastInv gob s' past' logs'
  handles N i rf h ev e d leads = go h d
    where
      m : Moves gob (s.peer i) rf
      m = Handles-Moves gob h

      same : SameLog (s.peer i) rf → past' ≡ past → PastInv gob s' past' logs'
      same l d =
          quiet N i rf ev e (stays-Moves gob (s.peer i) rf m l (low i) (old.peers i) logs) d leads

      go : (k : Handles gob (s.peer i) rf) → Adds gob n i k past past' → PastInv gob s' past' logs'
      go (append args r e') (asked, d) =
          let (c, acc) =
            append-Change gob (s.peer i) rf args r logs m e' (net.peers i).good
              (old.asked args asked) (low i) (old.peers i) in
          step N i rf ev e c leads (λ a x. inl (subst (λ (p : Past C). In a p.sent) d x)) r.success
            args.term (λ a x. subst (λ (p : Past C). In a p.acks) d x)
            (λ t.
              let (lead, cur, now) = acc t in
              (still_leads gob ev args.term rf.log lead, omega (arith, disk_term-now gob rf now)))
      go (command c answer e') d =
          let (change, acc) =
            command-Change gob (s.peer i) rf c answer logs m e' (low i) (old.peers i) in
          step N i rf ev e change leads (λ a x. inl (subst (λ (p : Past C). In a p.sent) d x))
            answer.2 answer.1 (λ a x. subst (λ (p : Past C). In a p.acks) d x)
            (λ t.
              let (lead, term, now) = acc t in
              (
                ([], ap logs' term ∙ new_leader i rf e lead ∙ ap some (sym (append-nil rf.log))),
                omega (arith, disk_term-now gob rf now),
              ))
      go (sending index (some args) e') d =
          step-PastInv gob n s s' past past' logs logs' N ev i rf old (Reach-Inv gob n s reach)
            (Reach-Inv gob n s' later) net net' e
            (stays-Moves gob (s.peer i) rf m
              (prepare_append-SameLog gob (s.peer i) rf index (some args) e') (low i) (old.peers i)
              logs)
            (λ a x. elim (subst (λ (p : Past C). In a p.sent) d x) [
              | inl eq ↦ inr (
                  subst (OfLeader logs') eq
                    (OfLeader-Evolves gob ev args (sends i index rf args e')))
              | inr was ↦ inl was
            ])
            (λ a x. inl (subst (λ (p : Past C). In a p.acks) d x)) leads
      go (sending index none e') d = same (prepare_append-SameLog gob (s.peer i) rf index none e') d
      go (append_answer index args r _ e') d =
          same (handle_append_reply-SameLog gob (s.peer i) rf index args r _ e') d
      go (snapshot_answer index r e') d =
          same (handle_install_reply-SameLog gob (s.peer i) rf index r e') d
      go (delivery msg e') d = same (applied-SameLog gob (s.peer i) rf msg e') d
      go (election_of_leader e') d = same (start_election-SameLog gob (s.peer i) rf none e') d
      go (killing e') d = same (kill-SameLog gob (s.peer i) rf e') d
      go (waking e') d = same (wake-SameLog gob (s.peer i) rf e') d
      go (snapshot args r e') bad = absurd bad
      go (compaction index bytes e') bad = absurd bad

  pub keeps :
      (st : Step gob n s s')
      → Notes gob n st past past'
      → Evolves (NewTerm gob n st) logs logs'
      → PastInv gob s' past' logs'
  keeps (vote i args rf r h e) d ev =
      quiet (λ t. ⊥) i rf ev (ap (λ (x : Cluster C B). x.peer) e)
        (stays-Moves gob (s.peer i) rf (request_vote-Moves gob args r h)
          (request_vote-SameLog gob (s.peer i) rf args r h) (low i) (old.peers i) logs)
        d (λ t x. absurd x)
  keeps (handle i rf h e) d ev =
      handles (λ t. ⊥) i rf h ev (ap (λ (x : Cluster C B). x.peer) e) d (λ t x. absurd x)
  keeps (stand i args rf h e) d ev =
      let v = start_election-votes gob (s.peer i) args h in
      let ahead = v.2 in
      quiet (λ t. ⊥) i rf ev (ap (λ (x : Cluster C B). x.peer) e)
        (stays-disk gob (s.peer i) rf (start_election-SameLog gob (s.peer i) rf (some args) h).0
          (omega arith) (inr v.7) (low i) (old.peers i) logs)
        d (λ t x. absurd x)
  keeps (ask i args replies rf count h e) d ev =
      quiet (λ t. ⊥) i rf ev (ap (λ (x : Cluster C B). x.peer) e)
        (stays-Moves gob (s.peer i) rf (send_request-Moves gob args replies count h).0
          (send_request-SameLog gob (s.peer i) rf args replies count h) (low i) (old.peers i) logs)
        d (λ t x. absurd x)
  keeps (elect i args replies before after rf count lt b voted given h e) d ev =
      let v = finish_election-wins gob args count (s.peer i) h in
      let same = ap (λ (x : Ballot). x.term) v.2 in
      quiet (NewTerm gob n (elect i args replies before after rf count lt b voted given h e)) i rf
        ev (ap (λ (x : Cluster C B). x.peer) e)
        (stays-disk gob (s.peer i) rf (finish_election-SameLog gob (s.peer i) rf args count h).0
          (omega arith) v.3 (low i) (old.peers i) logs)
        d (λ t (new, cur). (ground arith, cur))
  keeps (restart i rf h e) d ev =
      quiet (λ t. ⊥) i rf ev (ap (λ (x : Cluster C B). x.peer) e)
        (stays-restart gob (s.peer i) rf n i h (old.peers i) logs) d (λ t x. absurd x)
