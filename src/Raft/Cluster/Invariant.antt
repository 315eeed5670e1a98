-- ===== src/Raft/Cluster/Invariant.antt =====
-- What holds of every peer of a cluster between two steps, and that no step breaks it.
use sjytker_my_mit.Base.{
  ℕ, ◌+◌, ◌<◌, ◌≡◌, refl, sym, ap, ◌∙◌, ◌⊎◌, inl, inr, Bool, true, Option, none, some, List, ◌∷◌,
  arith, ℤ, pos, minus_one,
}
use sjytker_my_mit.Raft.State.{Role, leader, follower, candidate, Raft, RequestVoteArgs}
use sjytker_my_mit.Raft.Persist.{Gob, PersistData, persist_data}
use sjytker_my_mit.Raft.Vote.{start_election}
use sjytker_my_mit.Raft.Leader.{same_term}
use sjytker_my_mit.Raft.Ballot.{Ballot, Follows, Follows-refl, Follows-trans, ballot}
use sjytker_my_mit.Raft.Handler.{Moves}
use sjytker_my_mit.Raft.Elect.{count_true, start_election-votes}
use sjytker_my_mit.Raft.Cluster.{Grant, Win, In}

abbrev pub grant : ℕ → ℕ → ℕ → Grant
grant i t c = record { voter = i; term = t; candidate = c }

abbrev pub blank : Ballot
blank = record { term = 0; vote = minus_one }

-- The ballot that a restart finds on the disk.
abbrev pub OnDisk : {C B : Type 0} → Gob (PersistData C) B → Option B → Ballot → Type 0
OnDisk {C} gob o b =
    ((o ≡ none) × (b ≡ blank))
    ⊎ ((d : PersistData C) × (o ≡ some (gob.encode d)) × (b ≡ record { term = d.0; vote = d.1 }))

pub record PeerInv {C B : Type 0} (gob : Gob (PersistData C) B) (n : ℕ) (gs : List Grant)
    (ws : List Win) (i : ℕ) (rf : Raft C B) : Type 0 where
  pub me : rf.me ≡ i
  pub peers : rf.peers ≡ n
  pub disk : Ballot
  pub on_disk : OnDisk gob rf.persister.raft_state disk
  pub follows : Follows disk (ballot rf)
  pub kept : (t c : ℕ) → In (grant i t c) gs → Follows (record { term = t; vote = pos c }) disk
  pub unique : (t c c' : ℕ) → In (grant i t c) gs → In (grant i t c') gs → c ≡ c'
  pub standing : rf.state ≡ candidate → In (grant i rf.current_term i) gs
  pub ruling : rf.state ≡ leader → In (record { winner = i; term = rf.current_term }) ws

-- More than half of the n peers gave the winner their vote.
abbrev pub Majority : ℕ → List Grant → Win → Type 0
Majority n gs w =
    (f : ℕ → Bool) × (n < count_true n f + count_true n f)
    × ((j : ℕ) → f j ≡ true → In (grant j w.term w.winner) gs)

-- The two ways in which a handler leaves the role carry over what a role other than a follower's
-- says of the term.
pub role_carries :
    {C B : Type 0} (P : ℕ → Type 0) (r : Role) (rf rf' : Raft C B)
    → ¬ (r ≡ follower)
    → ((rf'.state ≡ rf.state) × (rf'.current_term ≡ rf.current_term)) ⊎ (rf'.state ≡ follower)
    → (rf.state ≡ r → P rf.current_term)
    → rf'.state ≡ r
    → P rf'.current_term
role_carries P r rf rf' no_follower (inl (same, same_term)) f q = rw same_term (f (sym same ∙ q))
role_carries P r rf rf' no_follower (inr e) f q = absurd (no_follower (sym q ∙ e))

record_eq :
    {t t' : ℕ} {v v' : ℤ}
    → t ≡ t'
    → v ≡ v'
    → ◌≡◌ {A = Ballot} (record { term = t; vote = v }) (record { term = t'; vote = v' })
record_eq p q i = record { term = p i; vote = q i }

-- A peer that gives a vote in its present term has given none to another candidate in that term.
unique-cons :
    (i t c : ℕ) (gs : List Grant) (b : Ballot)
    → b ≡ record { term = t; vote = pos c }
    → ((t' c' : ℕ) → In (grant i t' c') gs → Follows (record { term = t'; vote = pos c' }) b)
    → ((t' c' d' : ℕ) → In (grant i t' c') gs → In (grant i t' d') gs → c' ≡ d')
    → (t' c' d' : ℕ) → In (grant i t' c') (grant i t c ∷ gs)
    → In (grant i t' d') (grant i t c ∷ gs)
    → c' ≡ d'
unique-cons i t c gs b e old uniq t' c' d' (inl p) (inl q) = ground (arith, p, q)
unique-cons i t c gs b e old uniq t' c' d' (inl p) (inr q) = ground (arith, p, old t' d' q)
unique-cons i t c gs b e old uniq t' c' d' (inr p) (inl q) = ground (arith, q, old t' c' p)
unique-cons i t c gs b e old uniq t' c' d' (inr p) (inr q) = uniq t' c' d' p q

-- What is the same of the lists of grants and wins for peer `i`.
pub record Extends (i : ℕ) (gs gs' : List Grant) (ws ws' : List Win) : Type 0 where
  pub grants : (g : Grant) → In g gs → In g gs'
  pub own : (t c : ℕ) → In (grant i t c) gs' → In (grant i t c) gs
  pub wins : (w : Win) → In w ws → In w ws'

module _ {C B : Type 0} (gob : Gob (PersistData C) B) (n : ℕ) where
  pub PeerInv-Extends :
      {gs gs' : List Grant} {ws ws' : List Win} {i : ℕ} {rf : Raft C B}
      → Extends i gs gs' ws ws'
      → PeerInv gob n gs ws i rf
      → PeerInv gob n gs' ws' i rf
  PeerInv-Extends x h = record {
    me = h.me;
    peers = h.peers;
    disk = h.disk;
    on_disk = h.on_disk;
    follows = h.follows;
    kept = λ t c g. h.kept t c (x.own t c g);
    unique = λ t c c' g g'. h.unique t c c' (x.own t c g) (x.own t c' g');
    standing = λ e. x.grants _ (h.standing e);
    ruling = λ e. x.wins _ (h.ruling e);
  }

  -- A handler that moves the ballot only keeps the invariant of its peer.
  pub PeerInv-Moves :
      {gs : List Grant} {ws : List Win} {i : ℕ} {rf rf' : Raft C B}
      → PeerInv gob n gs ws i rf
      → Moves gob rf rf'
      → PeerInv gob n gs ws i rf'
  PeerInv-Moves {gs} {ws} {i} {rf} {rf'} h m = elim m.stored [
    | inl same ↦ record {
      me = m.same_me ∙ h.me;
      peers = m.same_peers ∙ h.peers;
      disk = h.disk;
      on_disk = rw same h.on_disk;
      follows = Follows-trans h.disk (ballot rf) (ballot rf') h.follows m.forward;
      kept = h.kept;
      unique = h.unique;
      standing = standing;
      ruling = ruling;
    }
    | inr new ↦ record {
      me = m.same_me ∙ h.me;
      peers = m.same_peers ∙ h.peers;
      disk = ballot rf';
      on_disk = inr (persist_data rf', new, refl);
      follows = Follows-refl (ballot rf');
      kept = λ t c g.
          Follows-trans (record { term = t; vote = pos c }) h.disk (ballot rf') (h.kept t c g)
            (Follows-trans h.disk (ballot rf) (ballot rf') h.follows m.forward);
      unique = h.unique;
      standing = standing;
      ruling = ruling;
    }
  ]
    where
      standing : rf'.state ≡ candidate → In (grant i rf'.current_term i) gs
      standing =
          role_carries (λ t. In (grant i t i) gs) candidate rf rf' (λ e. cc) m.role h.standing

      ruling : rf'.state ≡ leader → In (record { winner = i; term = rf'.current_term }) ws
      ruling =
          role_carries (λ t. In (record { winner = i; term = t }) ws) leader rf rf' (λ e. cc) m.role
            h.ruling

  -- A vote that the ballot now shows, on disk too, may be added to the grants.
  pub PeerInv-grant :
      {gs : List Grant} {ws : List Win} {i : ℕ} {rf : Raft C B} (t c : ℕ)
      → PeerInv gob n gs ws i rf
      → (rf.current_term ≡ t)
        × (rf.vote_for ≡ pos c)
        × (rf.persister.raft_state ≡ some (gob.encode (persist_data rf)))
      → PeerInv gob n (grant i t c ∷ gs) ws i rf
  PeerInv-grant {gs} {ws} {i} {rf} t c h (term, cast, new) = record {
    me = h.me;
    peers = h.peers;
    disk = ballot rf;
    on_disk = inr (persist_data rf, new, refl);
    follows = Follows-refl (ballot rf);
    kept = λ t' c' g. elim g [
      | inl e ↦ ground (arith, e)
      | inr old ↦
          Follows-trans (record { term = t'; vote = pos c' }) h.disk (ballot rf) (h.kept t' c' old)
            h.follows
    ];
    unique =
        unique-cons i t c gs (ballot rf) (record_eq term cast)
          (λ t' c' old.
            Follows-trans (record { term = t'; vote = pos c' }) h.disk (ballot rf)
              (h.kept t' c' old) h.follows)
          h.unique;
    standing = λ e. inr (h.standing e);
    ruling = h.ruling;
  }

  -- The candidate that `start_election` makes, with the vote that it gives itself.
  pub PeerInv-stand :
      {gs : List Grant} {ws : List Win} {i : ℕ} {rf rf' : Raft C B} (args : RequestVoteArgs)
      → PeerInv gob n gs ws i rf
      → start_election gob rf ≡ some (rf', some args)
      → PeerInv gob n (grant i args.term i ∷ gs) ws i rf'
  PeerInv-stand {gs} {ws} {i} {rf} {rf'} args h e =
      let v = start_election-votes gob rf args e in
      let ahead = Follows-trans h.disk (ballot rf) (ballot rf') h.follows v.2 in
      record {
        me = v.0 ∙ h.me;
        peers = v.1 ∙ h.peers;
        disk = ballot rf';
        on_disk = inr (persist_data rf', v.7, refl);
        follows = Follows-refl (ballot rf');
        kept = λ t c g. elim g [
          | inl same ↦ ground (arith, v, h.me)
          | inr old ↦
              Follows-trans (record { term = t; vote = pos c }) h.disk (ballot rf') (h.kept t c old)
                ahead
        ];
        unique =
            unique-cons i args.term i gs (ballot rf') (record_eq v.4 (v.5 ∙ ap pos h.me))
              (λ t c old.
                Follows-trans (record { term = t; vote = pos c }) h.disk (ballot rf')
                  (h.kept t c old) ahead)
              h.unique;
        standing = λ _. inl (ap (λ t. grant i t i) (sym v.4));
        ruling = λ q. cc (v.3);
      }
