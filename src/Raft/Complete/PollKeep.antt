-- ===== src/Raft/Complete/PollKeep.antt =====
-- Every step of the cluster keeps what holds of votes and of requests for them.
use sjytker_my_mit.Base.{
  ℕ, ◌≤◌, ◌≡◌, sym, ap, ◌∙◌, subst, inl, inr, Bool, none, some, List, ◌++◌, arith,
}
use sjytker_my_mit.Raft.State.{
  candidate, Command, Raft, RequestVoteArgs, AppendEntriesArgs, AppendEntriesReply,
}
use sjytker_my_mit.Raft.Persist.{Gob, PersistData}
use sjytker_my_mit.Raft.Role.{start}
use sjytker_my_mit.Raft.Append.{append_entries}
use sjytker_my_mit.Raft.Handler.{
  Handles, Handles-Moves, append, snapshot, command, sending, append_answer, snapshot_answer,
  compaction, delivery, election_of_leader, killing, waking, Moves,
}
use sjytker_my_mit.Raft.Cluster.{Cluster, In, update}
use sjytker_my_mit.Raft.Cluster.Safety.{Inv}
use sjytker_my_mit.Raft.Cluster.Matched.{Leaders}
use sjytker_my_mit.Raft.Cluster.Writes.{
  SameLog, start_election-SameLog, prepare_append-SameLog, handle_append_reply-SameLog,
  applied-SameLog, kill-SameLog, wake-SameLog,
}
use sjytker_my_mit.Raft.Cluster.Grow.{Evolves}
use sjytker_my_mit.Raft.Complete.{Ack, Past, Adds}
use sjytker_my_mit.Raft.Complete.Changes.{append_entries-yes, start-log}
use sjytker_my_mit.Raft.Complete.Preserve.{PastInv}
use sjytker_my_mit.Raft.Complete.Keep.{In-with_ack}
use sjytker_my_mit.Raft.Complete.Ballots.{
  append_entries-votes, start-votes, prepare_append-votes, handle_append_reply-votes, applied-votes,
  kill-votes, wake-votes, leader_waits-votes,
}
use sjytker_my_mit.Raft.Complete.Polls.{Hears, PollInv}
use sjytker_my_mit.Raft.Complete.PollMoves.{moves-PollInv}

module _ {C B : Type 0} (gob : Gob (PersistData C) B) where
  append_entries-stands :
      (rf rf' : Raft C B) (args : AppendEntriesArgs C) (r : AppendEntriesReply)
      → append_entries gob args rf ≡ some (rf', r)
      → rf'.state ≡ candidate
      → rf'.log ≡ rf.log
  unfolding append_entries
  append_entries-stands rf rf' args r h c = ground arith

  start-stands :
      (rf rf' : Raft C B) (c : Command C) (answer : ℕ × ℕ × Bool)
      → start gob c rf ≡ some (rf', answer)
      → rf'.state ≡ candidate
      → rf'.log ≡ rf.log
  unfolding start
  start-stands rf rf' c answer h q = ground arith

module _ {C B : Type 0} (gob : Gob (PersistData C) B) (n : ℕ) (s s' : Cluster C B)
    (past past' : Past C) (polls polls' : List RequestVoteArgs) (logs logs' : Leaders C) (i : ℕ)
    (rf : Raft C B) (inv : PastInv gob s past logs) (old : PollInv gob n s past polls logs)
    (before : Inv gob n s) (ev : Evolves (λ t. ⊥) logs logs') (at : s'.peer ≡ update s.peer i rf)
    (gs : s'.grants ≡ s.grants) where
  pub Handles-PollInv :
      (h : Handles gob (s.peer i) rf)
      → Adds gob n i h past past'
      → Hears gob n h polls polls'
      → PollInv gob n s' past' polls' logs'
  Handles-PollInv h d a = go h d a
    where
      m : Moves gob (s.peer i) rf
      m = Handles-Moves gob h

      quiet :
          past' ≡ past
          → polls' ≡ polls
          → SameLog (s.peer i) rf
          → (rf.vote_for ≡ (s.peer i).vote_for) × (rf.current_term ≡ (s.peer i).current_term)
          → PollInv gob n s' past' polls' logs'
      quiet d ps same (v, t) =
          moves-PollInv gob n s s' past past' polls polls' logs logs' ev i rf old before m at gs ps
            (λ a x. inl (subst (λ (p : Past C). In a p.acks) d x)) (λ _. same.0) v (inl t)

      go :
          (k : Handles gob (s.peer i) rf)
          → Adds gob n i k past past'
          → Hears gob n k polls polls'
          → PollInv gob n s' past' polls' logs'
      go (append args r e) (asked, d) ps =
          let (v, t) = append_entries-votes gob (s.peer i) rf args r e in
          moves-PollInv gob n s s' past past' polls polls' logs logs' ev i rf old before m at gs ps
            (λ a x.
              elim (In-with_ack r.success (record { peer = i; term = args.term; log = rf.log }) a
                past.acks (subst (λ (p : Past C). In a p.acks) d x)) [
                  | inl was ↦ inl was
                  | inr (ok, eq) ↦
                      let (cur, fwd, now) = append_entries-yes gob (s.peer i) rf args r e ok in
                      inr (
                        ap (λ (y : Ack C). y.peer) (sym eq),
                        subst (λ (y : Ack C). (s.peer i).current_term ≤ y.term) eq fwd,
                      )
                ])
            (append_entries-stands gob (s.peer i) rf args r e) v
            (elim t [
              | inl same ↦ inl same
              | inr new ↦
                  let o = inv.asked args asked in
                  let (rest, e', all) = ev.0 args.term (o.0 ++ o.1) o.2 in
                  inr (inl ((o.0 ++ o.1) ++ rest, ap logs' new ∙ e'))
            ])
      go (command c answer e) d ps =
          let (v, t) = start-votes gob (s.peer i) rf c answer e in
          moves-PollInv gob n s s' past past' polls polls' logs logs' ev i rf old before m at gs ps
            (λ a x.
              elim (In-with_ack answer.2 (record { peer = i; term = answer.1; log = rf.log }) a
                past.acks (subst (λ (p : Past C). In a p.acks) d x)) [
                  | inl was ↦ inl was
                  | inr (ok, eq) ↦ inr (
                    ap (λ (y : Ack C). y.peer) (sym eq),
                    elim (start-log gob (s.peer i) rf c answer e) [
                      | inl (no_ok, _) ↦ absurd (ground arith)
                      | inr (_, term, cur, _, _) ↦
                          subst (λ (y : Ack C). (s.peer i).current_term ≤ y.term) eq (omega arith)
                    ],
                  )
                ])
            (start-stands gob (s.peer i) rf c answer e) v (inl t)
      go (sending index (some args) e) d ps =
          let (v, t) = prepare_append-votes gob (s.peer i) rf index (some args) e in
          moves-PollInv gob n s s' past past' polls polls' logs logs' ev i rf old before m at gs ps
            (λ a x. inl (subst (λ (p : Past C). In a p.acks) d x))
            (λ _. (prepare_append-SameLog gob (s.peer i) rf index (some args) e).0) v (inl t)
      go (sending index none e) d ps =
          quiet d ps (prepare_append-SameLog gob (s.peer i) rf index none e)
            (prepare_append-votes gob (s.peer i) rf index none e)
      go (append_answer index args r next e) d (heard, ps) =
          let (v, t) = handle_append_reply-votes gob (s.peer i) rf index args r next e in
          let same = handle_append_reply-SameLog gob (s.peer i) rf index args r next e in
          moves-PollInv gob n s s' past past' polls polls' logs logs' ev i rf old before m at gs ps
            (λ a x. inl (subst (λ (p : Past C). In a p.acks) d x)) (λ _. same.0) v
            (elim t [
              | inl q ↦ inl q
              | inr newer ↦ elim heard [
                | inl low ↦ absurd (omega arith)
                | inr lead ↦ inr (inr lead)
              ]
            ])
      go (delivery msg e) d ps =
          quiet d ps (applied-SameLog gob (s.peer i) rf msg e)
            (applied-votes gob (s.peer i) rf msg e)
      go (election_of_leader e) d ps =
          quiet d ps (start_election-SameLog gob (s.peer i) rf none e)
            (leader_waits-votes gob (s.peer i) rf e)
      go (killing e) d ps =
          quiet d ps (kill-SameLog gob (s.peer i) rf e) (kill-votes gob (s.peer i) rf e)
      go (waking e) d ps =
          quiet d ps (wake-SameLog gob (s.peer i) rf e) (wake-votes gob (s.peer i) rf e)
      go (snapshot_answer index r e) d bad = absurd bad
      go (snapshot args r e) bad ps = absurd bad
      go (compaction index bytes e) bad ps = absurd bad
