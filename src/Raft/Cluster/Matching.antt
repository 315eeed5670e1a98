-- ===== src/Raft/Cluster/Matching.antt =====
-- What holds of the logs of a cluster without snapshots between two steps.
use sjytker_my_mit.Base.{
  ℕ, suc, ◌<◌, ◌≡◌, sym, ap, ◌∙◌, subst, ◌⊎◌, inl, inr, Option, none, some, List, get_elem?, drop,
}
use sjytker_my_mit.Raft.State.{leader, candidate, message, LogEntry, Raft, AppendEntriesArgs}
use sjytker_my_mit.Raft.Persist.{Gob, PersistData, persist_data}
use sjytker_my_mit.Raft.Handler.{Moves}
use sjytker_my_mit.Raft.Cluster.{Win, In}
use sjytker_my_mit.Raft.Cluster.Invariant.{role_carries}
use sjytker_my_mit.Raft.Cluster.Matched.{Leaders, Matched, Grows, Matched-Grows}
use sjytker_my_mit.Raft.Cluster.Writes.{SameLog}

abbrev pub win : ℕ → ℕ → Win
win i t = record { winner = i; term = t }

-- The entry that Make puts at index 0.
abbrev pub dummy : {C : Type 0} → LogEntry C
dummy = record { command = message ""; term = 0 }

module _ {C : Type 0} where
  -- A log that begins with the entry at index 0, with no snapshot, and agrees with the leaders'.
  abbrev pub GoodLog : Leaders C → ℕ → List (LogEntry C) → Type 0
  GoodLog logs offset log = (offset ≡ 0) × (get_elem? log 0 ≡ some dummy) × Matched logs log

  -- A request that some leader sent from such a log.
  abbrev pub FromLeader : Leaders C → AppendEntriesArgs C → Type 0
  FromLeader logs args =
      (log : List (LogEntry C)) × GoodLog logs 0 log
      × ((e : LogEntry C) × (get_elem? log args.prev_log_index ≡ some e)
          × (e.term ≡ args.prev_log_term))
      × (drop (suc args.prev_log_index) log ≡ args.entries)

  pub GoodLog-Grows :
      (logs logs' : Leaders C) (offset : ℕ) (log : List (LogEntry C))
      → Grows logs logs'
      → GoodLog logs offset log
      → GoodLog logs' offset log
  GoodLog-Grows logs logs' offset log g (a, b, m) = (a, b, Matched-Grows logs logs' log g m)

module _ {C B : Type 0} (gob : Gob (PersistData C) B) where
  abbrev pub GoodDisk : Leaders C → Option B → Type 0
  GoodDisk logs o =
      (o ≡ none) ⊎ ((d : PersistData C) × (o ≡ some (gob.encode d)) × GoodLog logs d.4 d.5)

  -- What holds of the log of peer `i`, of its disk, and of its role.
  pub record LogInv (logs : Leaders C) (wins : List Win) (i : ℕ) (rf : Raft C B) : Type 0 where
    pub good : GoodLog logs rf.last_snapshot_index rf.log
    pub disk : GoodDisk logs rf.persister.raft_state
    pub leads : rf.state ≡ leader → logs rf.current_term ≡ some rf.log
    pub stands : rf.state ≡ candidate → (0 < rf.current_term) × (¬ In (win i rf.current_term) wins)

  pub GoodDisk-Grows :
      (logs logs' : Leaders C) (o : Option B)
      → Grows logs logs'
      → GoodDisk logs o
      → GoodDisk logs' o
  GoodDisk-Grows logs logs' o g (inl e) = inl e
  GoodDisk-Grows logs logs' o g (inr (d, e, h)) = inr (d, e, GoodLog-Grows logs logs' d.4 d.5 g h)

  -- A peer that does nothing while leaders' logs grow and wins are recorded.
  pub LogInv-Grows :
      (logs logs' : Leaders C) (wins wins' : List Win) (i : ℕ) (rf : Raft C B)
      → Grows logs logs'
      → (rf.state ≡ leader → logs' rf.current_term ≡ logs rf.current_term)
      → ((t : ℕ) → In (win i t) wins' → In (win i t) wins)
      → LogInv logs wins i rf
      → LogInv logs' wins' i rf
  LogInv-Grows logs logs' wins wins' i rf g same own h = record {
    good = GoodLog-Grows logs logs' rf.last_snapshot_index rf.log g h.good;
    disk = GoodDisk-Grows logs logs' rf.persister.raft_state g h.disk;
    leads = λ l. same l ∙ h.leads l;
    stands = λ c. let (a, b) = h.stands c in (a, λ w. b (own rf.current_term w));
  }

  -- The disk after a handler that has a good log in the end.
  pub stored-GoodDisk :
      (logs : Leaders C) (rf rf' : Raft C B)
      → ((rf'.persister.raft_state ≡ rf.persister.raft_state)
          ⊎ (rf'.persister.raft_state ≡ some (gob.encode (persist_data rf'))))
      → GoodDisk logs rf.persister.raft_state
      → GoodLog logs rf'.last_snapshot_index rf'.log
      → GoodDisk logs rf'.persister.raft_state
  stored-GoodDisk logs rf rf' (inl same) d g = subst (GoodDisk logs) (sym same) d
  stored-GoodDisk logs rf rf' (inr new) d g = inr (persist_data rf', new, g)

  -- A handler that leaves a good log, and a leader's as it was.
  pub LogInv-Moves :
      (logs : Leaders C) (wins : List Win) (i : ℕ) (rf rf' : Raft C B)
      → LogInv logs wins i rf
      → Moves gob rf rf'
      → GoodLog logs rf'.last_snapshot_index rf'.log
      → (rf'.state ≡ leader → rf'.log ≡ rf.log)
      → LogInv logs wins i rf'
  LogInv-Moves logs wins i rf rf' h m g same = record {
    good = g;
    disk = stored-GoodDisk logs rf rf' m.stored h.disk g;
    leads = λ l.
        role_carries (λ t. logs t ≡ some rf.log) leader rf rf' (λ e. cc) m.role h.leads l
        ∙ ap some (sym (same l));
    stands =
        role_carries (λ t. (0 < t) × (¬ In (win i t) wins)) candidate rf rf' (λ e. cc) m.role
          h.stands;
  }

  pub LogInv-SameLog :
      (logs : Leaders C) (wins : List Win) (i : ℕ) (rf rf' : Raft C B)
      → LogInv logs wins i rf
      → Moves gob rf rf'
      → SameLog rf rf'
      → LogInv logs wins i rf'
  LogInv-SameLog logs wins i rf rf' h m (log, offset) =
      LogInv-Moves logs wins i rf rf' h m
        (
          offset ∙ h.good.0,
          ap (λ l. get_elem? l 0) log ∙ h.good.1,
          subst (Matched logs) (sym log) h.good.2,
        )
        (λ l. log)
