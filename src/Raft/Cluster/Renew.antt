-- ===== src/Raft/Cluster/Renew.antt =====
-- What holds of a peer when its election ends, when it restarts and when the cluster starts.
use sjytker_my_mit.Base.{
  ℕ, ◌/◌, ◌≤◌, ◌≡◌, refl, sym, ap, ◌∙◌, ◌⊎◌, inl, inr, not, ◌&&◌, some, List, [], ◌∷◌, arith,
  if◌then◌else◌, pos,
}
use sjytker_my_mit.Raft.State.{Role, leader, follower, candidate, Persister, Raft, RequestVoteArgs}
use sjytker_my_mit.Raft.Persist.{Gob, PersistData, make_persister, persist_data}
use sjytker_my_mit.Raft.Role.{is_leader, make}
use sjytker_my_mit.Raft.Vote.{finish_election}
use sjytker_my_mit.Raft.Ballot.{Ballot, Follows-refl, Follows-trans, Follows-eq, ballot}
use sjytker_my_mit.Raft.Elect.{finish_election-wins}
use sjytker_my_mit.Raft.Cluster.{Grant, Win, In}
use sjytker_my_mit.Raft.Cluster.Invariant.{grant, blank, OnDisk, PeerInv}

In-won :
    (r r' : Role) (w : Win) (ws : List Win)
    → r' ≡ leader
    → (r ≡ leader → In w ws)
    → In w (if is_leader r' && not (is_leader r) then w ∷ ws else ws)
In-won leader leader w ws e f = f refl
In-won follower leader w ws e f = inl refl
In-won candidate leader w ws e f = inl refl
In-won r follower w ws e f = cc
In-won r candidate w ws e f = cc

module _ {C B : Type 0} (gob : Gob (PersistData C) B) (n : ℕ) where
  -- The end of an election: the new leader's win is recorded.
  pub PeerInv-elect :
      {gs : List Grant} {ws : List Win} {i : ℕ} {rf rf' : Raft C B} (args : RequestVoteArgs) (k : ℕ)
      → PeerInv gob n gs ws i rf
      → finish_election gob args k rf ≡ some rf'
      → PeerInv gob n gs
          (if is_leader rf'.state && not (is_leader rf.state)
            then record { winner = i; term = rf'.current_term } ∷ ws
            else ws)
          i
          rf'
  PeerInv-elect {gs} {ws} {i} {rf} {rf'} args k h e = elim v.3 [
    | inl same ↦ record {
      me = v.0 ∙ h.me;
      peers = v.1 ∙ h.peers;
      disk = h.disk;
      on_disk = rw same h.on_disk;
      follows = Follows-eq h.disk (ballot rf) (ballot rf') v.2 h.follows;
      kept = h.kept;
      unique = h.unique;
      standing = standing;
      ruling = ruling;
    }
    | inr new ↦ record {
      me = v.0 ∙ h.me;
      peers = v.1 ∙ h.peers;
      disk = ballot rf';
      on_disk = inr (persist_data rf', new, refl);
      follows = Follows-refl (ballot rf');
      kept = λ t c g.
          Follows-trans (record { term = t; vote = pos c }) h.disk (ballot rf') (h.kept t c g)
            (Follows-eq h.disk (ballot rf) (ballot rf') v.2 h.follows);
      unique = h.unique;
      standing = standing;
      ruling = ruling;
    }
  ]
    where
      v :
          (rf'.me ≡ rf.me)
          × (rf'.peers ≡ rf.peers)
          × (ballot rf' ≡ ballot rf)
          × ((rf'.persister.raft_state ≡ rf.persister.raft_state)
              ⊎ (rf'.persister.raft_state ≡ some (gob.encode (persist_data rf'))))
          × ((rf'.state ≡ rf.state)
              ⊎ ((rf.state ≡ candidate) × (rf.current_term ≡ args.term) × (rf.peers / 2 ≤ k)))
      v = finish_election-wins gob args k rf e

      same_term : rf'.current_term ≡ rf.current_term
      same_term = ap (λ (b : Ballot). b.term) v.2

      standing : rf'.state ≡ candidate → In (grant i rf'.current_term i) gs
      standing q = elim v.4 [
        | inl same ↦ rw same_term (h.standing (sym same ∙ q))
        | inr won ↦ rw same_term (h.standing won.0)
      ]

      ruling :
          rf'.state ≡ leader
          → In
              (record { winner = i; term = rf'.current_term })
              (if is_leader rf'.state && not (is_leader rf.state)
                then record { winner = i; term = rf'.current_term } ∷ ws
                else ws)
      ruling q =
          In-won rf.state rf'.state (record { winner = i; term = rf'.current_term }) ws q
            (λ p. rw same_term (h.ruling p))

  -- A restart finds the ballot that the disk held.
  pub make-restores :
      (i : ℕ) (ps : Persister B) (b : Ballot) {rf : Raft C B}
      → OnDisk gob ps.raft_state b
      → make gob n i ps ≡ some rf
      → (rf.me ≡ i) × (rf.peers ≡ n) × (rf.state ≡ follower) × (rf.persister ≡ ps) × (ballot rf ≡ b)
  unfolding make
  make-restores i ps b (inl (empty, e)) h = ground arith
  make-restores i ps b (inr (d, o, e)) h = ground (arith, gob.size-encode d, gob.decode-encode d)

  pub PeerInv-restart :
      {gs : List Grant} {ws : List Win} {i : ℕ} {rf rf' : Raft C B}
      → PeerInv gob n gs ws i rf
      → make gob n i rf.persister ≡ some rf'
      → PeerInv gob n gs ws i rf'
  PeerInv-restart {i} {rf} {rf'} h e =
      let r = make-restores i rf.persister h.disk h.on_disk e in
      record {
        me = r.0;
        peers = r.1;
        disk = h.disk;
        on_disk = rw r.3 h.on_disk;
        follows = Follows-eq h.disk h.disk (ballot rf') r.4 (Follows-refl h.disk);
        kept = h.kept;
        unique = h.unique;
        standing = λ q. cc (r.2);
        ruling = λ q. cc (r.2);
      }

  pub PeerInv-begin :
      {i : ℕ} {rf : Raft C B} → make gob n i make_persister ≡ some rf → PeerInv gob n [] [] i rf
  unfolding make_persister
  PeerInv-begin {i} {rf} e =
      let r = make-restores i make_persister blank (inl (refl, refl)) e in
      record {
        me = r.0;
        peers = r.1;
        disk = blank;
        on_disk = inl (ap (λ (p : Persister B). p.raft_state) r.3, refl);
        follows = Follows-eq blank blank (ballot rf) r.4 (Follows-refl blank);
        kept = λ t c g. absurd g;
        unique = λ t c c' g g'. absurd g;
        standing = λ q. cc (r.2);
        ruling = λ q. cc (r.2);
      }
