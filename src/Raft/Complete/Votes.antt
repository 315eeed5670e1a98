-- ===== src/Raft/Complete/Votes.antt =====
-- Where the votes come from that peers have in memory and on disk.
use sjytker_my_mit.Base.{ℕ, ◌≡◌, sym, ap, ◌∙◌, subst, ◌⊎◌, inl, inr, some, List, ◌++◌, some_eq, pos}
use sjytker_my_mit.Raft.State.{follower, LogEntry, Raft}
use sjytker_my_mit.Raft.Persist.{Gob, PersistData, persist_data}
use sjytker_my_mit.Raft.Ballot.{Ballot, ballot}
use sjytker_my_mit.Raft.Cluster.{Grant, In}
use sjytker_my_mit.Raft.Cluster.Invariant.{grant, OnDisk}
use sjytker_my_mit.Raft.Cluster.Matched.{Leaders}
use sjytker_my_mit.Raft.Cluster.Grow.{Evolves}

module _ {C B : Type 0} (gob : Gob (PersistData C) B) where
  -- A vote of a term without a leader is one that was recorded, or for the peer itself.
  abbrev pub VoteFrom : Leaders C → List Grant → ℕ → Ballot → Type 0
  VoteFrom logs grants i b =
      (c : ℕ)
      → b.vote ≡ pos c
      → ((l : List (LogEntry C)) × (logs b.term ≡ some l)) ⊎ (c ≡ i) ⊎ In (grant i b.term c) grants

  pub record Voting (logs : Leaders C) (grants : List Grant) (i : ℕ) (rf : Raft C B) : Type 0 where
    pub memory : VoteFrom logs grants i (ballot rf)
    pub disk : (b : Ballot) → OnDisk gob rf.persister.raft_state b → VoteFrom logs grants i b
    pub own : (rf.state ≡ follower) ⊎ (rf.vote_for ≡ pos i)

  VoteFrom-more :
      {N : ℕ → Type 0} (logs logs' : Leaders C) (gs gs' : List Grant) (i : ℕ) (b : Ballot)
      → Evolves N logs logs'
      → ((g : Grant) → In g gs → In g gs')
      → VoteFrom logs gs i b
      → VoteFrom logs' gs' i b
  VoteFrom-more logs logs' gs gs' i b ev more h c e = elim (h c e) [
    | inl (l, at) ↦ let (rest, at', all) = ev.0 b.term l at in inl (l ++ rest, at')
    | inr (inl same) ↦ inr (inl same)
    | inr (inr old) ↦ inr (inr (more (grant i b.term c) old))
  ]

  pub Voting-more :
      {N : ℕ → Type 0} (logs logs' : Leaders C) (gs gs' : List Grant) (i : ℕ) (rf : Raft C B)
      → Evolves N logs logs'
      → ((g : Grant) → In g gs → In g gs')
      → Voting logs gs i rf
      → Voting logs' gs' i rf
  Voting-more logs logs' gs gs' i rf ev more h = record {
    memory = VoteFrom-more logs logs' gs gs' i (ballot rf) ev more h.memory;
    disk = λ b on. VoteFrom-more logs logs' gs gs' i b ev more (h.disk b on);
    own = h.own;
  }

  OnDisk-now :
      (rf : Raft C B) (b : Ballot)
      → OnDisk gob (some (gob.encode (persist_data rf))) b
      → b ≡ ballot rf
  OnDisk-now rf b (inl (absurd_none, e)) = cc
  OnDisk-now rf b (inr (d, enc, e)) =
      let same : persist_data rf ≡ d = some_eq (
        sym (gob.decode-encode (persist_data rf))
        ∙ ap gob.decode (some_eq enc)
        ∙ gob.decode-encode d) in
      e ∙ ap (λ x. record { term = x.0; vote = x.1 }) (sym same)

  -- A step that leaves votes that come from somewhere in memory.
  pub Voting-stored :
      (logs : Leaders C) (gs : List Grant) (i : ℕ) (rf rf' : Raft C B)
      → ((rf'.persister.raft_state ≡ rf.persister.raft_state)
          ⊎ (rf'.persister.raft_state ≡ some (gob.encode (persist_data rf'))))
      → Voting logs gs i rf
      → VoteFrom logs gs i (ballot rf')
      → (rf'.state ≡ follower) ⊎ (rf'.vote_for ≡ pos i)
      → Voting logs gs i rf'
  Voting-stored logs gs i rf rf' stored h new own = record {
    memory = new;
    disk = λ b on. elim stored [
      | inl same ↦ h.disk b (subst (λ o. OnDisk gob o b) same on)
      | inr now ↦
          subst (VoteFrom logs gs i) (sym (OnDisk-now rf' b (subst (λ o. OnDisk gob o b) now on)))
            new
    ];
    own = own;
  }
