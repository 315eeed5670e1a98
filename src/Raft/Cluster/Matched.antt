-- ===== src/Raft/Cluster/Matched.antt =====
-- When a log agrees with those of the leaders of its entries' terms.
use sjytker_my_mit.Base.{
  ℕ, zero, suc, ◌≤◌, ◌≡◌, refl, sym, ap, ◌∙◌, subst, Option, some, List, [], ◌∷◌, ◌++◌, arith,
  dec_lt, some_eq, length, get_elem?, take, drop, length-append, length-take, get_elem?-lt,
  get_elem?-append_left, get_elem?-append_right,
}
use sjytker_my_mit.Raft.State.{LogEntry}

pub take-append :
    {A : Type 0} (n : ℕ) (xs ys : List A) → n ≤ length xs → take n (xs ++ ys) ≡ take n xs
take-append zero xs ys h = refl
take-append (suc n) [] ys h = absurd (omega arith)
take-append (suc n) (x ∷ xs) ys h = ap (λ l. x ∷ l) (take-append n xs ys (omega arith))

take-drop : {A : Type 0} (n : ℕ) (xs : List A) → take n xs ++ drop n xs ≡ xs
take-drop zero xs = refl
take-drop (suc n) [] = refl
take-drop (suc n) (x ∷ xs) = ap (λ l. x ∷ l) (take-drop n xs)

-- The log that the leader of a term has, or had last; no code reads this.
abbrev pub Leaders : Type 0 → Type 0
Leaders C = ℕ → Option (List (LogEntry C))

module _ {C : Type 0} where
  -- Up to each entry, the log is that of the leader of the entry's term.
  abbrev pub Matched : Leaders C → List (LogEntry C) → Type 0
  Matched logs log =
      (k : ℕ) (e : LogEntry C)
      → get_elem? log k ≡ some e
      → (l : List (LogEntry C)) × (logs e.term ≡ some l) × (take (suc k) log ≡ take (suc k) l)

  -- Leaders' logs are only extended, and new terms get one.
  abbrev pub Grows : Leaders C → Leaders C → Type 0
  Grows logs logs' =
      (t : ℕ) (l : List (LogEntry C))
      → logs t ≡ some l
      → (more : List (LogEntry C)) × (logs' t ≡ some (l ++ more))

  prefix_fits :
      (k : ℕ) (log l : List (LogEntry C)) (e : LogEntry C)
      → get_elem? log k ≡ some e
      → take (suc k) log ≡ take (suc k) l
      → suc k ≤ length l
  prefix_fits k log l e h q =
      omega
        (arith, get_elem?-lt log k h, length-take (suc k) log, length-take (suc k) l, ap length q)

  pub Matched-Grows :
      (logs logs' : Leaders C) (log : List (LogEntry C))
      → Grows logs logs'
      → Matched logs log
      → Matched logs' log
  Matched-Grows logs logs' log g m k e h =
      let (l, p, q) = m k e h in
      let (more, p') = g e.term l p in
      (l ++ more, p', q ∙ sym (take-append (suc k) l more (prefix_fits k log l e h q)))

  -- Two logs with entries of the same term at an index are the same up to there.
  pub Matched-agree :
      (logs : Leaders C) (log other : List (LogEntry C)) (k : ℕ) (e f : LogEntry C)
      → Matched logs log
      → Matched logs other
      → get_elem? log k ≡ some e
      → get_elem? other k ≡ some f
      → e.term ≡ f.term
      → take (suc k) log ≡ take (suc k) other
  Matched-agree logs log other k e f m n h i same =
      let (l, p, q) = m k e h in
      let (l', p', q') = n k f i in
      q ∙ ap (take (suc k)) (some_eq (sym p ∙ ap logs same ∙ p')) ∙ sym q'

  -- What a follower has after it took over the entries behind an index where it agrees.
  pub Matched-take_over :
      (log other : List (LogEntry C)) (k : ℕ)
      → take (suc k) log ≡ take (suc k) other
      → take (suc k) log ++ drop (suc k) other ≡ other
  Matched-take_over log other k same =
      ap (λ l. l ++ drop (suc k) other) same ∙ take-drop (suc k) other

  -- A leader's log with a new entry of its term.
  pub Matched-append :
      (logs logs' : Leaders C) (log : List (LogEntry C)) (e : LogEntry C)
      → Grows logs logs'
      → Matched logs log
      → logs' e.term ≡ some (log ++ e ∷ [])
      → Matched logs' (log ++ e ∷ [])
  Matched-append logs logs' log e g m p k f h = elim (dec_lt k (length log)) [
    | yes lt ↦
        let old = sym (get_elem?-append_left log (e ∷ []) k lt) ∙ h in
        let (l, r, q) = Matched-Grows logs logs' log g m k f old in
        (l, r, take-append (suc k) log (e ∷ []) (omega arith) ∙ q)
    | no ge ↦
        let at : k ≡ length log =
          omega (arith, get_elem?-lt (log ++ e ∷ []) k h, length-append log (e ∷ [])) in
        let same : e ≡ f = some_eq (
          sym (get_elem?-append_right log (e ∷ []) 0)
          ∙ ap (get_elem? (log ++ e ∷ [])) (omega arith)
          ∙ h) in
        (log ++ e ∷ [], subst (λ x. logs' x.term ≡ some (log ++ e ∷ [])) same p, refl)
  ]
