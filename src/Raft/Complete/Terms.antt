-- ===== src/Raft/Complete/Terms.antt =====
-- Entries of a term at an index, in logs that are extended by entries of their leader's term.
use sjytker_my_mit.Base.{
  ℕ, suc, ◌+◌, ◌-◌, ◌≤◌, ◌≡◌, refl, sym, ap, ◌∙◌, subst, ◌≢◌, ◌⊎◌, inl, inr, some, List, ◌++◌,
  arith, dec_lt, some_eq, length, get_elem?, take, get_elem?-lt, get_elem?-append_left,
  get_elem?-append_right, get_elem?-take,
}
use sjytker_my_mit.Raft.State.{LogEntry}
use sjytker_my_mit.Raft.Cluster.Matched.{Leaders, Matched, Grows, Matched-Grows, take-append}
use sjytker_my_mit.Raft.Cluster.Grow.{Evolves}

module _ {C : Type 0} where
  -- The log has an entry of this term at this index.
  abbrev pub Has : List (LogEntry C) → ℕ → ℕ → Type 0
  Has log t k = (e : LogEntry C) × (get_elem? log k ≡ some e) × (e.term ≡ t)

  -- All entries are of this term.
  abbrev pub OfTerm : ℕ → List (LogEntry C) → Type 0
  OfTerm t log = (k : ℕ) (e : LogEntry C) → get_elem? log k ≡ some e → e.term ≡ t

  -- No entry is of a later term.
  abbrev pub UpTo : ℕ → List (LogEntry C) → Type 0
  UpTo t log = (k : ℕ) (e : LogEntry C) → get_elem? log k ≡ some e → e.term ≤ t

  pub Has-append : (log more : List (LogEntry C)) (t k : ℕ) → Has log t k → Has (log ++ more) t k
  Has-append log more t k (e, at, same) =
      (e, get_elem?-append_left log more k (get_elem?-lt log k at) ∙ at, same)

  -- An index of an extension is one of the log or of what is behind it.
  append-cases :
      (log more : List (LogEntry C)) (k : ℕ) (e : LogEntry C)
      → get_elem? (log ++ more) k ≡ some e
      → (get_elem? log k ≡ some e) ⊎ ((j : ℕ) × (get_elem? more j ≡ some e))
  append-cases log more k e h = elim (dec_lt k (length log)) [
    | yes lt ↦ inl (sym (get_elem?-append_left log more k lt) ∙ h)
    | no ge ↦
        let at : length log + (k - length log) ≡ k = omega arith in
        inr (
          k - length log,
          sym (get_elem?-append_right log more (k - length log))
              ∙ ap (get_elem? (log ++ more)) at
              ∙ h,
        )
  ]

  -- What was in an extension by entries of another term was in the log.
  pub Has-before :
      (log more : List (LogEntry C)) (t u k : ℕ)
      → OfTerm u more
      → t ≢ u
      → Has (log ++ more) t k
      → Has log t k
  Has-before log more t u k all ne (e, at, same) = elim (append-cases log more k e at) [
    | inl old ↦ (e, old, same)
    | inr (j, new) ↦ absurd (ne (sym same ∙ all j e new))
  ]

  pub UpTo-append :
      (log more : List (LogEntry C)) (t : ℕ) → UpTo t log → OfTerm t more → UpTo t (log ++ more)
  UpTo-append log more t old all k e at = elim (append-cases log more k e at) [
    | inl h ↦ old k e h
    | inr (j, h) ↦ omega (arith, all j e h)
  ]

  pub UpTo-le : (log : List (LogEntry C)) (t u : ℕ) → t ≤ u → UpTo t log → UpTo u log
  UpTo-le log t u le h k e at = omega (arith, h k e at)

  -- Logs that are the same up to an index have the same entries up to it.
  pub Has-take :
      (log other : List (LogEntry C)) (t k m : ℕ)
      → k ≤ m
      → take (suc m) log ≡ take (suc m) other
      → Has other t k
      → Has log t k
  Has-take log other t k m le same (e, at, term) = (
    e,
    sym (get_elem?-take (suc m) k log (omega arith))
        ∙ ap (λ l. get_elem? l k) same
        ∙ get_elem?-take (suc m) k other (omega arith)
        ∙ at,
    term,
  )

  module _ {N : ℕ → Type 0} {logs logs' : Leaders C} (ev : Evolves N logs logs') where
    pub Evolves-Grows : Grows logs logs'
    Evolves-Grows t l h = let (more, e, all) = ev.0 t l h in (more, e)

    -- An entry of an older term is not new in a leader's log.
    pub Evolves-back :
        (t u k : ℕ) (l l' : List (LogEntry C))
        → logs u ≡ some l
        → logs' u ≡ some l'
        → t ≢ u
        → Has l' t k
        → Has l t k
    Evolves-back t u k l l' h h' ne has =
        let (more, e, all) = ev.0 u l h in
        Has-before l more t u k all ne (subst (λ x. Has x t k) (some_eq (sym h' ∙ e)) has)

    -- Leaders' logs that agree with the leaders of their terms still do, where the new ones do.
    pub Evolves-Matched :
        ((t : ℕ) (l : List (LogEntry C)) → logs t ≡ some l → Matched logs l)
        → ((t : ℕ) (l : List (LogEntry C)) → N t → logs' t ≡ some l → Matched logs' l)
        → (t : ℕ) (l : List (LogEntry C)) → logs' t ≡ some l
        → Matched logs' l
    Evolves-Matched old new t l h = elim (ev.1 t l h) [
      | inr fresh ↦ new t l fresh h
      | inl (before, b) ↦
          let (more, e, all) = ev.0 t before b in
          let same : l ≡ before ++ more = some_eq (sym h ∙ e) in
          λ k x at.
            elim (append-cases before more k x (subst (λ y. get_elem? y k ≡ some x) same at)) [
              | inl here ↦
                  let (m, p, q) =
                    Matched-Grows logs logs' before Evolves-Grows (old t before b) k x here in
                  (
                    m,
                    p,
                    ap (take (suc k)) same
                        ∙ take-append (suc k) before more (get_elem?-lt before k here)
                        ∙ q,
                  )
              | inr (j, there) ↦ (l, ap logs' (all j x there) ∙ h, refl)
            ]
    ]

    pub Evolves-UpTo :
        ((t : ℕ) (l : List (LogEntry C)) → logs t ≡ some l → UpTo t l)
        → ((t : ℕ) (l : List (LogEntry C)) → N t → logs' t ≡ some l → UpTo t l)
        → (t : ℕ) (l : List (LogEntry C)) → logs' t ≡ some l
        → UpTo t l
    Evolves-UpTo old new t l h = elim (ev.1 t l h) [
      | inr fresh ↦ new t l fresh h
      | inl (before, b) ↦
          let (more, e, all) = ev.0 t before b in
          subst (UpTo t) (some_eq (sym e ∙ h)) (UpTo-append before more t (old t before b) all)
    ]
