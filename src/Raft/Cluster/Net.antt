-- ===== src/Raft/Cluster/Net.antt =====
-- A cluster whose network delivers to AppendEntries what leaders have sent, and that takes no
-- snapshots.
use sjytker_my_mit.Base.{ℕ, ◌≡◌, none, some, List, [], ◌∷◌}
use sjytker_my_mit.Raft.State.{Raft, AppendEntriesArgs}
use sjytker_my_mit.Raft.Persist.{Gob, PersistData}
use sjytker_my_mit.Raft.Handler.{
  Handles, append, snapshot, command, sending, append_answer, snapshot_answer, compaction, delivery,
  election_of_leader, killing, waking,
}
use sjytker_my_mit.Raft.Cluster.{
  Cluster, Step, vote, handle, stand, ask, elect, restart, IsInitial, Reach, begin, next, In,
}

module _ {C B : Type 0} (gob : Gob (PersistData C) B) (n : ℕ) where
  -- What a handler may do with the requests that were sent so far, and those sent after it.
  abbrev pub Delivers :
      {rf rf' : Raft C B} → Handles gob rf rf' → (sent sent' : List (AppendEntriesArgs C)) → Type 0
  Delivers (append args r h) sent sent' = In args sent × (sent' ≡ sent)
  Delivers (sending index (some args) h) sent sent' = sent' ≡ args ∷ sent
  Delivers (snapshot args r h) sent sent' = ⊥
  Delivers (compaction index bytes h) sent sent' = ⊥
  Delivers (command c answer h) sent sent' = sent' ≡ sent
  Delivers (sending index none h) sent sent' = sent' ≡ sent
  Delivers (append_answer index args r _ h) sent sent' = sent' ≡ sent
  Delivers (snapshot_answer index r h) sent sent' = sent' ≡ sent
  Delivers (delivery msg h) sent sent' = sent' ≡ sent
  Delivers (election_of_leader h) sent sent' = sent' ≡ sent
  Delivers (killing h) sent sent' = sent' ≡ sent
  Delivers (waking h) sent sent' = sent' ≡ sent

  abbrev pub Permits :
      {s s' : Cluster C B} → Step gob n s s' → (sent sent' : List (AppendEntriesArgs C)) → Type 0
  Permits (handle i rf h e) sent sent' = Delivers h sent sent'
  Permits (vote i args rf r h e) sent sent' = sent' ≡ sent
  Permits (stand i args rf h e) sent sent' = sent' ≡ sent
  Permits (ask i args replies rf count h e) sent sent' = sent' ≡ sent
  Permits (elect i args replies before after rf count lt b voted given h e) sent sent' =
      sent' ≡ sent
  Permits (restart i rf h e) sent sent' = sent' ≡ sent

  -- The states that such a cluster reaches, with the requests sent so far.
  pub data ReachNet : Cluster C B → List (AppendEntriesArgs C) → Type 0 where
    begin_net : {s : Cluster C B} → IsInitial gob n s → ReachNet s []
    next_net :
        {s s' : Cluster C B} {sent sent' : List (AppendEntriesArgs C)}
        → ReachNet s sent
        → (st : Step gob n s s') → Permits st sent sent'
        → ReachNet s' sent'

  pub ReachNet-Reach :
      {s : Cluster C B} {sent : List (AppendEntriesArgs C)} → ReachNet s sent → Reach gob n s
  ReachNet-Reach (begin_net h) = begin h
  ReachNet-Reach (next_net r st p) = next (ReachNet-Reach r) st
