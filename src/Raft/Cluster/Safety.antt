-- ===== src/Raft/Cluster/Safety.antt =====
-- Election safety: a cluster never has two leaders of one term, whatever the network loses, delays
-- or repeats, and whichever peers crash.
use sjytker_my_mit.Base.{
  ℕ, ◌/◌, ◌≤◌, ◌<◌, ◌≡◌, refl, sym, ap, ◌∙◌, subst, inl, inr, Bool, true, false, not, ◌&&◌, ◌||◌,
  Option, some, List, ◌∷◌, arith, ◌==◌, if◌then◌else◌, ==_iff, ==_refl, Bool-cases,
}
use sjytker_my_mit.Raft.State.{leader, candidate, Raft, RequestVoteArgs, RequestVoteReply}
use sjytker_my_mit.Raft.Persist.{Gob, PersistData}
use sjytker_my_mit.Raft.Role.{is_leader}
use sjytker_my_mit.Raft.Vote.{request_vote, send_request, finish_election}
use sjytker_my_mit.Raft.Ballot.{Ballot}
use sjytker_my_mit.Raft.Handler.{Handles-Moves, request_vote-Moves, request_vote-granted}
use sjytker_my_mit.Raft.Elect.{
  count_true, is_vote, voters, send_request-Moves, finish_election-wins, count_true-add,
  count_true-meet,
}
use sjytker_my_mit.Raft.Cluster.{
  Grant, Win, In, update, Cluster, with_grant, Step, vote, handle, stand, ask, elect, restart,
  Reach, begin, next,
}
use sjytker_my_mit.Raft.Cluster.Invariant.{
  grant, PeerInv, Extends, Majority, PeerInv-Extends, PeerInv-Moves, PeerInv-grant, PeerInv-stand,
}
use sjytker_my_mit.Raft.Cluster.Renew.{PeerInv-elect, PeerInv-restart, PeerInv-begin}

module _ {C B : Type 0} (gob : Gob (PersistData C) B) (n : ℕ) where
  pub record Inv (s : Cluster C B) : Type 0 where
    pub peers : (i : ℕ) → PeerInv gob n s.grants s.wins i (s.peer i)
    pub elected : (w : Win) → In w s.wins → Majority n s.grants w

  peers-update :
      {gs gs' : List Grant} {ws ws' : List Win} (peer : ℕ → Raft C B) (i : ℕ) {rf : Raft C B}
      → ((j : ℕ) → PeerInv gob n gs ws j (peer j))
      → ((j : ℕ) → ¬ (i ≡ j) → Extends j gs gs' ws ws')
      → PeerInv gob n gs' ws' i rf
      → (j : ℕ) → PeerInv gob n gs' ws' j (update peer i rf j)
  peers-update {gs'} {ws'} peer i {rf} old ext new j = elim (Bool-cases (i == j)) [
    | inl e ↦ rw e (subst (λ k. PeerInv gob n gs' ws' k rf) ((==_iff i j).0 e) new)
    | inr e ↦ rw e (PeerInv-Extends gob n (ext j (λ q. ground (arith, q))) (old j))
  ]

  Extends-refl : (j : ℕ) (gs : List Grant) (ws : List Win) → Extends j gs gs ws ws
  Extends-refl j gs ws = record { grants = λ g h. h; own = λ t c h. h; wins = λ w h. h }

  Extends-grant :
      (i j t c : ℕ) (gs : List Grant) (ws : List Win)
      → ¬ (i ≡ j)
      → Extends j gs (grant i t c ∷ gs) ws ws
  Extends-grant i j t c gs ws ne = record {
    grants = λ g h. inr h;
    own = λ t' c' h. elim h [ inl e ↦ absurd (ne (ap (λ (g : Grant). g.voter) e)) | inr old ↦ old ];
    wins = λ w h. h;
  }

  Extends-win :
      (j : ℕ) (b : Bool) (w : Win) (gs : List Grant) (ws : List Win)
      → Extends j gs gs ws (if b then w ∷ ws else ws)
  Extends-win j true w gs ws = record { grants = λ g h. h; own = λ t c h. h; wins = λ w' h. inr h }
  Extends-win j false w gs ws = Extends-refl j gs ws

  Majority-cons : (g : Grant) (gs : List Grant) (w : Win) → Majority n gs w → Majority n (g ∷ gs) w
  Majority-cons g gs w m = (m.0, m.1, λ j h. inr (m.2 j h))

  -- The candidate and the peers that it counts are more than half of the cluster.
  Majority-elect :
      (i : ℕ) (args : RequestVoteArgs) (replies : ℕ → Option RequestVoteReply) (gs : List Grant)
      → i < n
      → In (grant i args.term i) gs
      → ((j : ℕ) → is_vote args (replies j) ≡ true → In (grant j args.term i) gs)
      → n / 2 ≤ count_true n (voters args replies i)
      → Majority n gs (record { winner = i; term = args.term })
  Majority-elect i args replies gs lt own others half = (
    (λ j. (j == i) || voters args replies i j),
    omega (arith, count_true-add n i (voters args replies i) lt (rw (==_refl i))),
    λ j h. elim (Bool-cases (j == i)) [
      | inl e ↦ subst (λ k. In (grant k args.term i) gs) (sym ((==_iff j i).0 e)) own
      | inr e ↦ others j (ground arith)
    ],
  )

  -- The majority behind a win that this step records.
  won-Majority :
      (s : Cluster C B) (i : ℕ) (args : RequestVoteArgs) (replies : ℕ → Option RequestVoteReply)
      (before after rf : Raft C B) (count : ℕ)
      → Inv s
      → i < n
      → (before.me ≡ i) × (before.peers ≡ n)
      → send_request gob args replies before ≡ some (after, count)
      → ((j : ℕ) → is_vote args (replies j) ≡ true → In (grant j args.term i) s.grants)
      → finish_election gob args count (s.peer i) ≡ some rf
      → (is_leader rf.state && not (is_leader (s.peer i).state)) ≡ true
      → Majority n s.grants (record { winner = i; term = rf.current_term })
  won-Majority s i args replies before after rf count inv lt b sent voted done won =
      subst (λ t. Majority n s.grants (record { winner = i; term = t })) (sym at_term)
        (Majority-elect i args replies s.grants lt own voted half)
    where
      v :
          ((s.peer i).state ≡ candidate)
          × ((s.peer i).current_term ≡ args.term)
          × ((s.peer i).peers / 2 ≤ count)
          × (rf.current_term ≡ (s.peer i).current_term)
      v =
          let f = finish_election-wins gob args count (s.peer i) done in
          elim f.4 [
            | inl same ↦ ground (arith, same)
            | inr r ↦ (r.0, r.1, r.2, ap (λ (b : Ballot). b.term) f.2)
          ]

      at_term : rf.current_term ≡ args.term
      at_term = v.3 ∙ v.1

      own : In (grant i args.term i) s.grants
      own = subst (λ t. In (grant i t i) s.grants) v.1 ((inv.peers i).standing v.0)

      counted : count ≡ count_true n (voters args replies i)
      counted =
          (send_request-Moves gob args replies count sent).1
          ∙ ap (λ k. count_true k (voters args replies before.me)) b.1
          ∙ ap (λ k. count_true n (voters args replies k)) b.0

      half : n / 2 ≤ count_true n (voters args replies i)
      half = omega (arith, v, counted, (inv.peers i).peers)

  elected-if :
      (b : Bool) (w : Win) (gs : List Grant) (ws : List Win)
      → (b ≡ true → Majority n gs w)
      → ((w' : Win) → In w' ws → Majority n gs w')
      → (w' : Win) → In w' (if b then w ∷ ws else ws)
      → Majority n gs w'
  elected-if true w gs ws new old w' (inl e) = subst (Majority n gs) e (new refl)
  elected-if true w gs ws new old w' (inr h) = old w' h
  elected-if false w gs ws new old w' h = old w' h

  vote-Inv :
      (s : Cluster C B) (i : ℕ) (args : RequestVoteArgs) (rf : Raft C B) (r : RequestVoteReply)
      (b : Bool)
      → Inv s
      → request_vote gob args (s.peer i) ≡ some (rf, r)
      → r.vote_granted ≡ b
      → Inv (record {
        peer = update s.peer i rf;
        grants = with_grant b (grant i args.term args.candidate_id) s.grants;
        wins = s.wins;
      })
  vote-Inv s i args rf r true inv h g = record {
    peers =
        peers-update s.peer i inv.peers
          (λ j ne. Extends-grant i j args.term args.candidate_id s.grants s.wins ne)
          (PeerInv-grant gob n args.term args.candidate_id
            (PeerInv-Moves gob n (inv.peers i) (request_vote-Moves gob args r h))
            (request_vote-granted gob args r (s.peer i) h g));
    elected = λ w h. Majority-cons _ s.grants w (inv.elected w h);
  }
  vote-Inv s i args rf r false inv h g = record {
    peers =
        peers-update s.peer i inv.peers (λ j _. Extends-refl j s.grants s.wins)
          (PeerInv-Moves gob n (inv.peers i) (request_vote-Moves gob args r h));
    elected = inv.elected;
  }

  moves-Inv :
      (s : Cluster C B) (i : ℕ) (rf : Raft C B)
      → Inv s
      → PeerInv gob n s.grants s.wins i rf
      → Inv (record s { peer = update s.peer i rf })
  moves-Inv s i rf inv h = record {
    peers = peers-update s.peer i inv.peers (λ j _. Extends-refl j s.grants s.wins) h;
    elected = inv.elected;
  }

  Step-Inv : (s s' : Cluster C B) → Inv s → Step gob n s s' → Inv s'
  Step-Inv s s' inv (vote i args rf r h e) =
      subst Inv (sym e) (vote-Inv s i args rf r r.vote_granted inv h refl)
  Step-Inv s s' inv (handle i rf h e) =
      subst Inv (sym e)
        (moves-Inv s i rf inv (PeerInv-Moves gob n (inv.peers i) (Handles-Moves gob h)))
  Step-Inv s s' inv (stand i args rf h e) = subst Inv (sym e) (record {
    peers =
        peers-update s.peer i inv.peers (λ j ne. Extends-grant i j args.term i s.grants s.wins ne)
          (PeerInv-stand gob n args (inv.peers i) h);
    elected = λ w h. Majority-cons _ s.grants w (inv.elected w h);
  })
  Step-Inv s s' inv (ask i args replies rf count h e) = subst Inv (sym e) (
      moves-Inv s i rf inv
        (PeerInv-Moves gob n (inv.peers i) (send_request-Moves gob args replies count h).0))
  Step-Inv s s' inv (elect i args replies before after rf count lt b sent voted h e) =
      subst Inv (sym e) (record {
        peers =
            peers-update s.peer i inv.peers (λ j _. Extends-win j _ _ s.grants s.wins)
              (PeerInv-elect gob n args count (inv.peers i) h);
        elected =
            elected-if _ _ s.grants s.wins
              (won-Majority s i args replies before after rf count inv lt b sent voted h)
              inv.elected;
      })
  Step-Inv s s' inv (restart i rf h e) =
      subst Inv (sym e) (moves-Inv s i rf inv (PeerInv-restart gob n (inv.peers i) h))

  pub Reach-Inv : (s : Cluster C B) → Reach gob n s → Inv s
  Reach-Inv s (begin h) = record {
    peers = λ i. rw (h.no_grants, h.no_wins) (PeerInv-begin gob n (h.fresh i));
    elected = λ w won. absurd (subst (In w) h.no_wins won);
  }
  Reach-Inv s (next {s = t} r st) = Step-Inv t s (Reach-Inv t r) st

  -- In every reachable state of the cluster, two elections that were won in the same term were won
  -- by the same peer.
  pub election_safety :
      (s : Cluster C B) (v w : Win)
      → Reach gob n s
      → In v s.wins
      → In w s.wins
      → v.term ≡ w.term
      → v.winner ≡ w.winner
  election_safety s v w r hv hw e =
      let inv = Reach-Inv s r in
      let mv = inv.elected v hv in
      let mw = inv.elected w hw in
      let (j, lt, fj, gj) = count_true-meet n mv.0 mw.0 (omega (arith, mv.1, mw.1)) in
      (inv.peers j).unique v.term v.winner w.winner (mv.2 j fj)
        (subst (λ t. In (grant j t w.winner) s.grants) (sym e) (mw.2 j gj))

  -- In every reachable state, a peer that acts as a leader has won an election in its present term.
  pub leader_was_elected :
      (s : Cluster C B) (i : ℕ)
      → Reach gob n s
      → (s.peer i).state ≡ leader
      → In (record { winner = i; term = (s.peer i).current_term }) s.wins
  leader_was_elected s i r e = ((Reach-Inv s r).peers i).ruling e

  -- In every reachable state, two peers that act as leaders in the same term are one peer.
  pub one_leader :
      (s : Cluster C B) (i j : ℕ)
      → Reach gob n s
      → (s.peer i).state ≡ leader
      → (s.peer j).state ≡ leader
      → (s.peer i).current_term ≡ (s.peer j).current_term
      → i ≡ j
  one_leader s i j r hi hj e =
      election_safety s (record { winner = i; term = (s.peer i).current_term })
        (record { winner = j; term = (s.peer j).current_term }) r (leader_was_elected s i r hi)
        (leader_was_elected s j r hj) e

  -- In every reachable state, a peer has given its votes of one term to one candidate only, across
  -- crashes and restarts.
  pub one_vote :
      (s : Cluster C B) (i t c d : ℕ)
      → Reach gob n s
      → In (grant i t c) s.grants
      → In (grant i t d) s.grants
      → c ≡ d
  one_vote s i t c d r p q = ((Reach-Inv s r).peers i).unique t c d p q
