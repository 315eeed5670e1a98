-- ===== src/ShardMaster/Asking.antt =====
-- The loops of the shard master's clerk end with the first good answer, where there is one.
use sjytker_my_mit.Base.{
  ℕ, zero, suc, ◌+◌, ◌≤◌, ◌<◌, ◌≡◌, sym, ap, ◌∙◌, inl, inr, false, Option, none, some, arith,
  ℕ_discrete, Option-cases, some_eq, ℤ,
}
use sjytker_my_mit.ShardMaster.Config.{Config, QueryArgs}
use sjytker_my_mit.ShardMaster.Clerk.{Clerk, Reply, accept, answer, or_else, pass, rounds, query}

module _ {R A : Type 0} (accepts : R → Option A) where
  -- The server gives this answer, and those before it in the round none.
  abbrev pub FirstServer : (ℕ → Option R) → ℕ → ℕ → A → Type 0
  FirstServer reply i s a =
      (answer accepts (reply s) ≡ some a)
      × ((t : ℕ) → i ≤ t → t < s → answer accepts (reply t) ≡ none)

  pass-hit :
      (reply : ℕ → Option R) (i left : ℕ) {a : A}
      → answer accepts (reply i) ≡ some a
      → pass accepts reply i (suc left) ≡ some a
  unfolding pass
  pass-hit reply i left e = ap (λ o. or_else o (pass accepts reply (i + 1) left)) e

  pass-miss :
      (reply : ℕ → Option R) (i left : ℕ)
      → answer accepts (reply i) ≡ none
      → pass accepts reply i (suc left) ≡ pass accepts reply (i + 1) left
  unfolding pass
  pass-miss reply i left e = ap (λ o. or_else o (pass accepts reply (i + 1) left)) e

  pass-ends :
      (reply : ℕ → Option R) (i left s : ℕ) {b : A}
      → i ≤ s
      → s < i + left
      → answer accepts (reply s) ≡ some b
      → (a : A) × (pass accepts reply i left ≡ some a)
  pass-ends reply i zero s lo hi h = absurd (omega arith)
  pass-ends reply i (suc left) s lo hi h = elim (Option-cases (answer accepts (reply i))) [
    | inr (a, e) ↦ (a, pass-hit reply i left e)
    | inl e ↦ elim (ℕ_discrete s i) [
      | yes p ↦ absurd (let q = ap (λ v. answer accepts (reply v)) p in cc)
      | no d ↦
          let (a, f) = pass-ends reply (i + 1) left s (omega arith) (omega arith) h in
          (a, pass-miss reply i left e ∙ f)
    ]
  ]

  pass-finds :
      (reply : ℕ → Option R) (i left : ℕ) {a : A}
      → pass accepts reply i left ≡ some a
      → (t : ℕ) × (t < i + left) × FirstServer reply i t a
  unfolding pass
  pass-finds reply i zero e = absurd cc
  pass-finds reply i (suc left) {a} e = elim (Option-cases (answer accepts (reply i))) [
    | inr (v, h) ↦
        let same = some_eq (sym (pass-hit reply i left h) ∙ e) in
        (i, omega arith, (h ∙ ap some same, λ t lo hi. absurd (omega arith)))
    | inl h ↦
        let (t, lt, (k, before)) =
          pass-finds reply (i + 1) left (sym (pass-miss reply i left h) ∙ e) in
        (
          t,
          omega arith,
          (
            k,
            λ u lo hi. elim (ℕ_discrete u i) [
              | yes p ↦ ap (λ v. answer accepts (reply v)) p ∙ h
              | no n ↦ before u (omega arith) hi
            ],
          ),
        )
  ]

  pass-none :
      (reply : ℕ → Option R) (i left s : ℕ)
      → pass accepts reply i left ≡ none
      → i ≤ s
      → s < i + left
      → answer accepts (reply s) ≡ none
  pass-none reply i left s e lo hi = elim (Option-cases (answer accepts (reply s))) [
    | inl h ↦ h
    | inr (b, h) ↦ let (a, f) = pass-ends reply i left s lo hi h in absurd cc
  ]

  -- The answer of this round and server, and none of a server before it or of a round before.
  abbrev pub First : (servers : ℕ) → (ℕ → ℕ → Option R) → (round r s : ℕ) → A → Type 0
  First servers reply round r s a =
      (answer accepts (reply r s) ≡ some a)
      × ((t : ℕ) → t < s → answer accepts (reply r t) ≡ none)
      × ((q t : ℕ) → round ≤ q → q < r → t < servers → answer accepts (reply q t) ≡ none)

  rounds-hit :
      (servers : ℕ) (reply : ℕ → ℕ → Option R) (round fuel : ℕ) {a : A}
      → pass accepts (reply round) 0 servers ≡ some a
      → rounds accepts servers reply round (suc fuel) ≡ some a
  unfolding rounds
  rounds-hit servers reply round fuel e =
      ap (λ o. or_else o (rounds accepts servers reply (round + 1) fuel)) e

  rounds-miss :
      (servers : ℕ) (reply : ℕ → ℕ → Option R) (round fuel : ℕ)
      → pass accepts (reply round) 0 servers ≡ none
      → rounds accepts servers reply round (suc fuel)
        ≡ rounds accepts servers reply (round + 1) fuel
  unfolding rounds
  rounds-miss servers reply round fuel e =
      ap (λ o. or_else o (rounds accepts servers reply (round + 1) fuel)) e

  -- The loop ends within the rounds up to one in which a server has an answer.
  pub rounds-ends :
      (servers : ℕ) (reply : ℕ → ℕ → Option R) (round fuel r s : ℕ) {b : A}
      → s < servers
      → round ≤ r
      → r < round + fuel
      → answer accepts (reply r s) ≡ some b
      → (a : A) × (q : ℕ) × (t : ℕ) × (rounds accepts servers reply round fuel ≡ some a)
        × (q ≤ r)
        × (t < servers)
        × First servers reply round q t a
  rounds-ends servers reply round zero r s lt lo hi h = absurd (omega arith)
  rounds-ends servers reply round (suc fuel) r s lt lo hi h =
      elim (Option-cases (pass accepts (reply round) 0 servers)) [
        | inr (v, e) ↦
            let (t, inside, (k, before)) = pass-finds (reply round) 0 servers e in
            (
              v,
              round,
              t,
              rounds-hit servers reply round fuel e,
              lo,
              omega arith,
              (k, λ u lt'. before u (omega arith) lt', λ x u lo' hi' inside'. absurd (omega arith)),
            )
        | inl e ↦ elim (ℕ_discrete r round) [
          | yes p ↦ absurd (
              let (a, f) = pass-ends (reply r) 0 servers s (omega arith) (omega arith) h in
              let q = ap (λ x. pass accepts (reply x) 0 servers) p in cc)
          | no d ↦
              let (a, q, t, f, le, inside, (k, before, earlier)) =
                rounds-ends servers reply (round + 1) fuel r s lt (omega arith) (omega arith) h in
              (
                a,
                q,
                t,
                rounds-miss servers reply round fuel e ∙ f,
                le,
                inside,
                (
                  k,
                  before,
                  λ x u lo' hi' inside'. elim (ℕ_discrete x round) [
                    | yes p ↦
                        ap (λ y. answer accepts (reply y u)) p
                        ∙ pass-none (reply round) 0 servers u e (omega arith) (omega arith)
                    | no n ↦ earlier x u (omega arith) hi' inside'
                  ],
                ),
              )
        ]
      ]

-- Query ends where, in some round that the clerk gets to, some server that it knows answers and does
-- not say that it is no leader. The clerk returns the configuration of the first such answer: no
-- server before it in its round gave one, and none in a round before.
pub query-ends :
    (num : ℤ) (msg_id : ℕ) (ck : Clerk)
    → (call : QueryArgs → ℕ → ℕ → Option (Reply Config)) → (fuel r s : ℕ) (config : Config)
    → s < ck.servers
    → r < fuel
    → call (record { num = num; client_id = ck.client_id; msg_id = msg_id }) r s
      ≡ some (record { wrong_leader = false; value = config })
    → (found : Config) × (q : ℕ) × (t : ℕ) × (query num msg_id ck call fuel ≡ some found)
      × (q ≤ r)
      × (t < ck.servers)
      × First accept ck.servers
          (call (record { num = num; client_id = ck.client_id; msg_id = msg_id }))
          0
          q
          t
          found
unfolding query
query-ends num msg_id ck call fuel r s config lt hi h =
    rounds-ends accept ck.servers
      (call (record { num = num; client_id = ck.client_id; msg_id = msg_id })) 0 fuel r s lt
      (omega arith) (omega arith) (ap (answer accept) h)
