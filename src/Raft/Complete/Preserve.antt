-- ===== src/Raft/Complete/Preserve.antt =====
-- What a step of one peer leaves of the logs that were accepted.
use sjytker_my_mit.Base.{
  ℕ, zero, suc, ◌≤◌, ◌≡◌, ap, ◌∙◌, subst, inl, inr, some, List, [], ◌∷◌, ◌++◌, arith, append_assoc,
}
use sjytker_my_mit.Raft.State.{LogEntry, Raft, AppendEntriesArgs}
use sjytker_my_mit.Raft.Persist.{Gob, PersistData}
use sjytker_my_mit.Raft.Ballot.{Follows, ballot}
use sjytker_my_mit.Raft.Cluster.{Cluster, In}
use sjytker_my_mit.Raft.Cluster.Invariant.{PeerInv}
use sjytker_my_mit.Raft.Cluster.Matched.{Leaders, Matched}
use sjytker_my_mit.Raft.Cluster.Matching.{GoodLog-Grows}
use sjytker_my_mit.Raft.Cluster.Grow.{Evolves}
use sjytker_my_mit.Raft.Complete.{Ack, Past}
use sjytker_my_mit.Raft.Complete.Terms.{OfTerm, UpTo, Evolves-Grows}
use sjytker_my_mit.Raft.Complete.Invariant.{OfLeader, disk_term, Keeps, LogTerms}
use sjytker_my_mit.Raft.Complete.Logs.{
  Change, stays, takes, adds, disk_term-now, disk_term-encode, Kept-back, Keeps-Change,
}

pub OfTerm-append :
    {C : Type 0} (t : ℕ) (xs ys : List (LogEntry C))
    → OfTerm t xs
    → OfTerm t ys
    → OfTerm t (xs ++ ys)
OfTerm-append t [] ys p q k e h = q k e h
OfTerm-append t (x ∷ xs) ys p q zero e h = p zero e h
OfTerm-append t (x ∷ xs) ys p q (suc k) e h = OfTerm-append t xs ys (λ j. p (suc j)) q k e h

module _ {C B : Type 0} (gob : Gob (PersistData C) B) where
  -- A log that was accepted begins its leader's log, and the peer keeps it.
  abbrev pub Acked : Leaders C → Ack C → Raft C B → Type 0
  Acked logs a rf =
      ((rest : List (LogEntry C)) × (logs a.term ≡ some (a.log ++ rest)))
      × (a.term ≤ disk_term gob rf.persister.raft_state)
      × Keeps gob logs a rf

  Change-forward :
      (logs : Leaders C) (rf rf' : Raft C B)
      → disk_term gob rf.persister.raft_state ≤ rf.current_term
      → Change gob logs rf rf'
      → disk_term gob rf.persister.raft_state ≤ disk_term gob rf'.persister.raft_state
  Change-forward logs rf rf' le (stays same mono disk) = mono
  Change-forward logs rf rf' le (takes log more at all same now fwd over) =
      omega (arith, disk_term-now gob rf' now)
  Change-forward logs rf rf' le (adds x same term cur now) =
      omega (arith, disk_term-now gob rf' now)

  module _ {N : ℕ → Type 0} {logs logs' : Leaders C} (ev : Evolves N logs logs') where
    pub still_leads :
        (t : ℕ) (l : List (LogEntry C))
        → ((rest : List (LogEntry C)) × (logs t ≡ some (l ++ rest)))
        → (rest : List (LogEntry C)) × (logs' t ≡ some (l ++ rest))
    still_leads t l (rest, e) =
        let (more, e', all) = ev.0 t (l ++ rest) e in
        (rest ++ more, e' ∙ ap some (append_assoc l rest more))

    pub Acked-Evolves : (a : Ack C) (rf : Raft C B) → Acked logs a rf → Acked logs' a rf
    Acked-Evolves a rf (lead, low, keeps) = (
      still_leads a.term a.log lead,
      low,
      λ k has kept. keeps k has (Kept-back gob ev a.term _ _ k (omega arith) kept),
    )

    pub Acked-Change :
        (a : Ack C) (rf rf' : Raft C B)
        → ((t : ℕ) (l : List (LogEntry C)) → logs t ≡ some l → UpTo t l)
        → Matched logs rf.log
        → disk_term gob rf.persister.raft_state ≤ rf.current_term
        → LogTerms gob rf
        → Acked logs a rf
        → Change gob logs rf rf'
        → Acked logs' a rf'
    Acked-Change a rf rf' upto m le h ((rest, led), low, keeps) c = (
      still_leads a.term a.log (rest, led),
      omega (arith, Change-forward logs rf rf' le c),
      Keeps-Change gob ev a rf rf' rest upto m le h led low keeps c,
    )

    pub OfLeader-Evolves : (args : AppendEntriesArgs C) → OfLeader logs args → OfLeader logs' args
    OfLeader-Evolves args (log, more, led, of, good, at, behind) =
        let (extra, e, all) = ev.0 args.term (log ++ more) led in
        (
          log,
          more ++ extra,
          e ∙ ap some (append_assoc log more extra),
          OfTerm-append args.term more extra of all,
          GoodLog-Grows logs logs' 0 log (Evolves-Grows ev) good,
          at,
          behind,
        )

  pub disk_term-current :
      (n : ℕ) {gs : _} {ws : _} (i : ℕ) (rf : Raft C B)
      → PeerInv gob n gs ws i rf
      → disk_term gob rf.persister.raft_state ≤ rf.current_term
  disk_term-current n i rf h = elim h.on_disk [
    | inl (empty, b) ↦ omega (arith, ap (disk_term gob) empty)
    | inr (d, enc, b) ↦
        let f = subst (λ x. Follows x (ballot rf)) b h.follows in
        ground (arith, ap (disk_term gob) enc ∙ disk_term-encode gob d)
  ]

-- What holds of all peers, requests and accepted logs.
pub record PastInv {C B : Type 0} (gob : Gob (PersistData C) B) (s : Cluster C B) (past : Past C)
    (logs : Leaders C) : Type 0 where
  pub upto : (t : ℕ) (l : List (LogEntry C)) → logs t ≡ some l → UpTo t l
  pub matched : (t : ℕ) (l : List (LogEntry C)) → logs t ≡ some l → Matched logs l
  pub peers : (i : ℕ) → LogTerms gob (s.peer i)
  pub asked : (args : AppendEntriesArgs C) → In args past.sent → OfLeader logs args
  pub acked : (a : Ack C) → In a past.acks → Acked gob logs a (s.peer a.peer)
