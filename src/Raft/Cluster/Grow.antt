-- ===== src/Raft/Cluster/Grow.antt =====
-- The leaders' logs when one of them writes to its own: Start in raft/raft.go.
use sjytker_my_mit.Base.{
  zero, suc, arith, ℕ, ◌≡◌, refl, sym, ap, ◌∙◌, subst, ◌≢◌, ◌⊎◌, inl, inr, Bool, none, some, List,
  [], ◌∷◌, ◌++◌, ℕ_discrete, ◌==◌, if◌then◌else◌, ==_iff, ==_refl, ==_false, Bool-cases, some_eq,
  get_elem?, get_elem?-lt, get_elem?-append_left, append-nil,
}
use sjytker_my_mit.Raft.State.{leader, Command, LogEntry, Raft, AppendEntriesArgs}
use sjytker_my_mit.Raft.Persist.{Gob, PersistData}
use sjytker_my_mit.Raft.Role.{start}
use sjytker_my_mit.Raft.Handler.{Moves}
use sjytker_my_mit.Raft.Cluster.{Cluster, Win, In, update, Reach}
use sjytker_my_mit.Raft.Cluster.Invariant.{grant}
use sjytker_my_mit.Raft.Cluster.Safety.{one_leader, leader_was_elected}
use sjytker_my_mit.Raft.Cluster.Matched.{Leaders, Matched, Grows, Matched-append}
use sjytker_my_mit.Raft.Cluster.Writes.{start-writes}
use sjytker_my_mit.Raft.Cluster.Matching.{
  win, dummy, GoodLog, GoodLog-Grows, LogInv, LogInv-Grows, LogInv-SameLog, stored-GoodDisk,
  GoodDisk-Grows,
}
use sjytker_my_mit.Raft.Cluster.NetInv.{NetInv, quiet-NetInv, peers-update}

module _ {C : Type 0} where
  -- The leaders' logs after one has written to its own.
  abbrev pub with_log : Leaders C → ℕ → List (LogEntry C) → Leaders C
  with_log logs term log t = if t == term then some log else logs t

  pub with_log-Grows :
      (logs : Leaders C) (term : ℕ) (log more : List (LogEntry C))
      → (logs term ≡ none) ⊎ (logs term ≡ some log)
      → Grows logs (with_log logs term (log ++ more))
  with_log-Grows logs term log more old t l h = elim (Bool-cases (t == term)) [
    | inr f ↦ ([], rw (f, append-nil l) h)
    | inl e ↦
        let at : logs term ≡ some l = subst (λ x. logs x ≡ some l) ((==_iff t term).0 e) h in
        elim old [
          | inl absent ↦ absurd cc
          | inr has ↦ (more, rw e (ap (λ x. some (x ++ more)) (some_eq (sym has ∙ at))))
        ]
  ]

  pub with_log_self :
      (logs : Leaders C) (term : ℕ) (log : List (LogEntry C))
      → with_log logs term log term ≡ some log
  with_log_self logs term log = rw (==_refl term) refl

  pub with_log_else :
      (logs : Leaders C) (term t : ℕ) (log : List (LogEntry C))
      → t ≢ term
      → with_log logs term log t ≡ logs t
  with_log_else logs term t log ne = rw (==_false t term ne) refl

  -- The leaders' logs are only extended, each by entries of its own term, and those that are new are
  -- of the terms of `N`.
  abbrev pub Evolves : (ℕ → Type 0) → Leaders C → Leaders C → Type 0
  Evolves N logs logs' =
      ((t : ℕ) (l : List (LogEntry C))
        → logs t ≡ some l
        → (more : List (LogEntry C)) × (logs' t ≡ some (l ++ more))
          × ((k : ℕ) (e : LogEntry C) → get_elem? more k ≡ some e → e.term ≡ t))
      × ((t : ℕ) (l : List (LogEntry C))
          → logs' t ≡ some l
          → ((old : List (LogEntry C)) × (logs t ≡ some old)) ⊎ N t)

  pub Evolves-refl : (N : ℕ → Type 0) (logs : Leaders C) → Evolves N logs logs
  Evolves-refl N logs =
      (λ t l h. ([], h ∙ ap some (sym (append-nil l)), λ k e q. cc), λ t l h. inl (l, h))

  -- A leader's entry behind its log.
  pub Evolves-entry :
      (N : ℕ → Type 0) (logs : Leaders C) (log : List (LogEntry C)) (x : LogEntry C)
      → logs x.term ≡ some log
      → Evolves N logs (with_log logs x.term (log ++ x ∷ []))
  Evolves-entry N logs log x has = (
    λ t l h. elim (Bool-cases (t == x.term)) [
      | inr f ↦ ([], rw (f, append-nil l) h, λ k e q. cc)
      | inl b ↦
          let at : logs x.term ≡ some l = subst (λ y. logs y ≡ some l) ((==_iff t x.term).0 b) h in
          (
            x ∷ [],
            rw b (ap (λ y. some (y ++ x ∷ [])) (some_eq (sym has ∙ at))),
            λ k e q. only k e q ∙ sym ((==_iff t x.term).0 b),
          )
    ],
    λ t l h. elim (Bool-cases (t == x.term)) [
      | inr f ↦
          inl (l, sym (with_log_else logs x.term t (log ++ x ∷ []) (λ q. ground (arith, q))) ∙ h)
      | inl b ↦ inl (log, subst (λ y. logs y ≡ some log) (sym ((==_iff t x.term).0 b)) has)
    ],
  )
    where
      only : (k : ℕ) (e : LogEntry C) → get_elem? (x ∷ []) k ≡ some e → e.term ≡ x.term
      only zero e q = ap (λ (y : LogEntry C). y.term) (sym (some_eq q))
      only (suc k) e q = cc

  -- The log of a leader of a new term.
  pub Evolves-leader :
      (N : ℕ → Type 0) (logs : Leaders C) (term : ℕ) (log : List (LogEntry C))
      → logs term ≡ none
      → N term
      → Evolves N logs (with_log logs term log)
  Evolves-leader N logs term log absent new = (
    λ t l h. elim (Bool-cases (t == term)) [
      | inr f ↦ ([], rw (f, append-nil l) h, λ k e q. cc)
      | inl b ↦
          let at : logs term ≡ some l = subst (λ y. logs y ≡ some l) ((==_iff t term).0 b) h in
          absurd cc
    ],
    λ t l h. elim (Bool-cases (t == term)) [
      | inr f ↦ inl (l, sym (with_log_else logs term t log (λ q. ground (arith, q))) ∙ h)
      | inl b ↦ inr (subst N (sym ((==_iff t term).0 b)) new)
    ],
  )

module _ {C B : Type 0} (gob : Gob (PersistData C) B) (n : ℕ) where
  -- The invariant after a step, for leaders' logs that have evolved.
  abbrev pub After : (ℕ → Type 0) → Leaders C → Cluster C B → List (AppendEntriesArgs C) → Type 0
  After N logs s sent = (logs' : Leaders C) × NetInv gob n s sent logs' × Evolves N logs logs'

  -- The invariant after the leaders' logs grew at a term that peer `i` leads.
  pub Grows-NetInv :
      (s : Cluster C B) (sent : List (AppendEntriesArgs C)) (logs : Leaders C) (i term : ℕ)
      → (rf : Raft C B) (log : List (LogEntry C)) (ws : List Win) → NetInv gob n s sent logs
      → Grows logs (with_log logs term log)
      → ((j : ℕ) → ¬ (i ≡ j) → (s.peer j).state ≡ leader → (s.peer j).current_term ≢ term)
      → ((w : Win) → In w s.wins → In w ws)
      → ((j t : ℕ) → ¬ (i ≡ j) → In (win j t) ws → In (win j t) s.wins)
      → ((j t : ℕ) → In (win j t) ws → In (grant j t j) s.grants)
      → In (win i term) ws
      → LogInv gob (with_log logs term log) ws i rf
      → NetInv gob n
          (record { peer = update s.peer i rf; grants = s.grants; wins = ws })
          sent
          (with_log logs term log)
  Grows-NetInv s sent logs i term rf log ws inv g alone more own voted wins new = record {
    peers =
        peers-update gob n (with_log logs term log) ws s.peer i rf
          (λ j ne.
            LogInv-Grows gob logs (with_log logs term log) s.wins ws j (s.peer j) g
              (λ l. with_log_else logs term (s.peer j).current_term log (alone j ne l))
              (λ t. own j t ne) (inv.peers j))
          new;
    zero_term =
        let (rest, z) = inv.zero_term in
        let (extra, z') = g 0 (dummy ∷ rest) z in (rest ++ extra, z');
    won = λ t l h. elim (ℕ_discrete t term) [
      | yes e ↦ inr (i, subst (λ x. In (win i x) ws) (sym e) wins)
      | no d ↦ elim (inv.won t l (sym (with_log_else logs term t log d) ∙ h)) [
        | inl z ↦ inl z
        | inr (j, w) ↦ inr (j, more (win j t) w)
      ]
    ];
    voted = voted;
    asked = λ args h.
        let (l, good, at, behind) = inv.asked args h in
        (l, GoodLog-Grows logs (with_log logs term log) 0 l g good, at, behind);
  }

  pub command-After :
      (s : Cluster C B) (sent : List (AppendEntriesArgs C)) (logs : Leaders C) (i : ℕ)
      (rf : Raft C B)
      → (c : Command C) (answer : ℕ × ℕ × Bool) → Reach gob n s
      → NetInv gob n s sent logs
      → start gob c (s.peer i) ≡ some (rf, answer)
      → Moves gob (s.peer i) rf
      → (N : ℕ → Type 0) → After N logs (record s { peer = update s.peer i rf }) sent
  command-After s sent logs i rf c answer reach inv e m N =
      elim (start-writes gob (s.peer i) rf c answer e) [
        | inl same ↦ (
          logs,
          quiet-NetInv gob n s sent logs i rf s.grants inv
              (LogInv-SameLog gob logs s.wins i (s.peer i) rf (inv.peers i) m same) (λ g h. h),
          Evolves-refl N logs,
        )
        | inr (lead, lead', at, off, l) ↦
            let t = (s.peer i).current_term in
            let old = (s.peer i).log in
            let h = inv.peers i in
            let x : LogEntry C = record { command = c; term = t } in
            let logs' = with_log logs t (old ++ x ∷ []) in
            let g = with_log-Grows logs t old (x ∷ []) (inr (h.leads lead)) in
            let good : GoodLog logs' rf.last_snapshot_index rf.log = (
              off ∙ h.good.0,
              ap (λ y. get_elem? y 0) l
                  ∙ get_elem?-append_left old (x ∷ []) 0 (get_elem?-lt old 0 h.good.1)
                  ∙ h.good.1,
              subst (Matched logs') (sym l) (
                  Matched-append logs logs' old x g h.good.2
                    (with_log_self logs t (old ++ x ∷ []))),
            ) in
            (
              logs',
              Grows-NetInv s sent logs i t rf (old ++ x ∷ []) s.wins inv g
                  (λ j ne lj tj. ne (one_leader gob n s i j reach lead lj (sym tj))) (λ w h. h)
                  (λ j t ne w. w) inv.voted (leader_was_elected gob n s i reach lead)
                  (record {
                    good = good;
                    disk =
                        stored-GoodDisk gob logs' (s.peer i) rf m.stored
                          (GoodDisk-Grows gob logs logs' (s.peer i).persister.raft_state g h.disk)
                          good;
                    leads =
                        λ _. ap logs' at ∙ with_log_self logs t (old ++ x ∷ []) ∙ ap some (sym l);
                    stands = λ q. cc;
                  }),
              Evolves-entry N logs old x (h.leads lead),
            )
      ]
