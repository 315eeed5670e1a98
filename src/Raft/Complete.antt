-- ===== src/Raft/Complete.antt =====
-- A cluster whose network delivers to AppendEntries only what leaders have sent, and that takes no snapshots; with the logs that peers have accepted from leaders.
pub mod Terms
pub mod Invariant
pub mod Logs
pub mod Changes
pub mod Preserve
pub mod Steps
pub mod Keep
pub mod Accepted
pub mod Votes
pub mod Ballots
pub mod Polls
pub mod Later
pub mod PollSteps
pub mod PollMoves
pub mod PollKeep
pub mod PollVote
pub mod PollCases
pub mod PollElect
pub mod Completeness
use sjytker_my_mit.Base.{ℕ, ◌≡◌, ap, ◌∙◌, Bool, true, false, none, some, List, [], ◌∷◌}
use sjytker_my_mit.Raft.State.{LogEntry, Raft, AppendEntriesArgs}
use sjytker_my_mit.Raft.Persist.{Gob, PersistData}
use sjytker_my_mit.Raft.Handler.{
  Handles, append, snapshot, command, sending, append_answer, snapshot_answer, compaction, delivery,
  election_of_leader, killing, waking,
}
use sjytker_my_mit.Raft.Cluster.{
  Cluster, Step, vote, handle, stand, ask, elect, restart, IsInitial, Reach, In,
}
use sjytker_my_mit.Raft.Cluster.Net.{Delivers, Permits, ReachNet, begin_net, next_net}

-- A log that a peer has accepted from the leader of a term, or has as that leader.
pub record Ack (C : Type 0) : Type 0 where
  pub peer : ℕ
  pub term : ℕ
  pub log : List (LogEntry C)

-- What was sent and accepted so far; no code reads this.
pub record Past (C : Type 0) : Type 0 where
  pub sent : List (AppendEntriesArgs C)
  pub acks : List (Ack C)

abbrev pub with_ack : {C : Type 0} → Bool → Ack C → List (Ack C) → List (Ack C)
with_ack true a acks = a ∷ acks
with_ack false a acks = acks

module _ {C B : Type 0} (gob : Gob (PersistData C) B) (n : ℕ) where
  -- What a handler of peer `i` may read of the past, and what it adds to it.
  abbrev pub Adds :
      (i : ℕ) {rf rf' : Raft C B} → Handles gob rf rf' → (past past' : Past C) → Type 0
  Adds i {rf} {rf'} (append args r h) past past' =
      In args past.sent
      × (past' ≡ record past {
        acks = with_ack r.success (record { peer = i; term = args.term; log = rf'.log }) past.acks;
      })
  Adds i (sending index (some args) h) past past' = past' ≡ record past { sent = args ∷ past.sent }
  Adds i (snapshot args r h) past past' = ⊥
  Adds i (compaction index bytes h) past past' = ⊥
  Adds i {rf} {rf'} (command c answer h) past past' = past' ≡ record past {
    acks = with_ack answer.2 (record { peer = i; term = answer.1; log = rf'.log }) past.acks;
  }
  Adds i (sending index none h) past past' = past' ≡ past
  Adds i (append_answer index args r _ h) past past' = past' ≡ past
  Adds i (snapshot_answer index r h) past past' = past' ≡ past
  Adds i (delivery msg h) past past' = past' ≡ past
  Adds i (election_of_leader h) past past' = past' ≡ past
  Adds i (killing h) past past' = past' ≡ past
  Adds i (waking h) past past' = past' ≡ past

  abbrev pub Notes : {s s' : Cluster C B} → Step gob n s s' → (past past' : Past C) → Type 0
  Notes (handle i rf h e) past past' = Adds i h past past'
  Notes (vote i args rf r h e) past past' = past' ≡ past
  Notes (stand i args rf h e) past past' = past' ≡ past
  Notes (ask i args replies rf count h e) past past' = past' ≡ past
  Notes (elect i args replies before after rf count lt b voted given h e) past past' = past' ≡ past
  Notes (restart i rf h e) past past' = past' ≡ past

  pub data ReachPast : Cluster C B → Past C → Type 0 where
    begin_past :
        {s : Cluster C B} {past : Past C}
        → IsInitial gob n s
        → past ≡ record { sent = []; acks = [] }
        → ReachPast s past
    next_past :
        {s s' : Cluster C B} {past past' : Past C}
        → ReachPast s past
        → (st : Step gob n s s') → Notes st past past'
        → ReachPast s' past'

  Adds-Delivers :
      (i : ℕ) {rf rf' : Raft C B} (h : Handles gob rf rf') (past past' : Past C)
      → Adds i h past past'
      → Delivers gob n h past.sent past'.sent
  Adds-Delivers i (append args r h) past past' (m, e) = (m, ap (λ (p : Past C). p.sent) e)
  Adds-Delivers i (sending index (some args) h) past past' e = ap (λ (p : Past C). p.sent) e
  Adds-Delivers i (snapshot args r h) past past' e = e
  Adds-Delivers i (compaction index bytes h) past past' e = e
  Adds-Delivers i (command c answer h) past past' e = ap (λ (p : Past C). p.sent) e
  Adds-Delivers i (sending index none h) past past' e = ap (λ (p : Past C). p.sent) e
  Adds-Delivers i (append_answer index args r _ h) past past' e = ap (λ (p : Past C). p.sent) e
  Adds-Delivers i (snapshot_answer index r h) past past' e = ap (λ (p : Past C). p.sent) e
  Adds-Delivers i (delivery msg h) past past' e = ap (λ (p : Past C). p.sent) e
  Adds-Delivers i (election_of_leader h) past past' e = ap (λ (p : Past C). p.sent) e
  Adds-Delivers i (killing h) past past' e = ap (λ (p : Past C). p.sent) e
  Adds-Delivers i (waking h) past past' e = ap (λ (p : Past C). p.sent) e

  pub Notes-Permits :
      {s s' : Cluster C B} (st : Step gob n s s') (past past' : Past C)
      → Notes st past past'
      → Permits gob n st past.sent past'.sent
  Notes-Permits (handle i rf h e) past past' d = Adds-Delivers i h past past' d
  Notes-Permits (vote i args rf r h e) past past' d = ap (λ (p : Past C). p.sent) d
  Notes-Permits (stand i args rf h e) past past' d = ap (λ (p : Past C). p.sent) d
  Notes-Permits (ask i args replies rf count h e) past past' d = ap (λ (p : Past C). p.sent) d
  Notes-Permits (elect i args replies before after rf count lt b voted given h e) past past' d =
      ap (λ (p : Past C). p.sent) d
  Notes-Permits (restart i rf h e) past past' d = ap (λ (p : Past C). p.sent) d
