-- ===== src/Raft/Leader/Commit.antt =====
-- LeaderCommit: which index a leader commits.
use sjytker_my_mit.Base.{
  ℕ, zero, suc, ◌+◌, ◌-◌, ◌/◌, ◌≤◌, ◌<◌, ◌≡◌, refl, ap, ◌⊎◌, inl, inr, some, List, [], ◌∷◌, arith,
  dec_lt, ltb, if◌then◌else◌, Bool-cases, length, get_elem?, ℤ, pos, ◌≤ℤ◌, leb_ℤ,
}
use sjytker_my_mit.Raft.State.{Raft}
use sjytker_my_mit.Raft.Log.{last_index}
use sjytker_my_mit.Raft.Leader.{reaches, commit_loop, leader_commit}

-- How many of the peers are known to have the entry with index `i`.
abbrev pub count_at_least : ℕ → List ℤ → ℕ
count_at_least i [] = 0
count_at_least i (t ∷ ts) =
    if leb_ℤ (pos i) t then suc (count_at_least i ts) else count_at_least i ts

-- The inner loop, with its early break, is a count of all the peers.
reaches-count :
    (half i : ℕ) (ts : List ℤ) (cnt : ℕ)
    → cnt ≤ half
    → reaches half i ts cnt ≡ ltb half (cnt + count_at_least i ts)
unfolding reaches
reaches-count half i [] cnt h = ground arith
reaches-count half i (t ∷ ts) cnt h =
    ground (arith, reaches-count half i ts (cnt + 1), reaches-count half i ts cnt)

-- A peer that has an entry has those before it.
count_at_least-antitone :
    (i j : ℕ) (ts : List ℤ) → i ≤ j → count_at_least j ts ≤ count_at_least i ts
count_at_least-antitone i j [] h = omega arith
count_at_least-antitone i j (t ∷ ts) h = ground (arith, count_at_least-antitone i j ts h)

-- The end of the outer loop, from index `i` and commit index `c`, with `k` rounds left: `c`, or the
-- largest index of the range that more than half of the peers have.
pub record Largest (half : ℕ) (ms : List ℤ) (k i c r : ℕ) : Type 0 where
  pub moved : (r ≡ c) ⊎ ((i ≤ r) × (r < i + k) × (half < count_at_least r ms))
  pub largest : (j : ℕ) → i ≤ j → j < i + k → half < count_at_least j ms → j ≤ r

Largest-yes :
    (half : ℕ) (ms : List ℤ) (k i c r : ℕ)
    → half < count_at_least i ms
    → Largest half ms k (i + 1) i r
    → Largest half ms (suc k) i c r
Largest-yes half ms k i c r yes_i h = record {
  moved = elim h.moved [
    | inl e ↦ inr (omega arith, omega arith, rw e yes_i)
    | inr m ↦ inr (omega arith, omega arith, m.2)
  ];
  largest = λ j lo hi m. elim (dec_lt i j) [
    | yes later ↦ h.largest j (omega arith) (omega arith) m
    | no now ↦ elim h.moved [ inl e ↦ omega arith | inr m' ↦ omega (arith, m'.0) ]
  ];
}

Largest-no :
    (half : ℕ) (ms : List ℤ) (k i c r : ℕ)
    → count_at_least i ms ≤ half
    → Largest half ms k (i + 1) c r
    → Largest half ms (suc k) i c r
Largest-no half ms k i c r no_i h = record {
  moved = elim h.moved [ inl e ↦ inl e | inr m ↦ inr (omega arith, omega arith, m.2) ];
  largest = λ j lo hi m. elim (dec_lt i j) [
    | yes later ↦ h.largest j (omega arith) (omega arith) m
    | no now ↦
        let e : j ≡ i = omega arith in absurd (omega (arith, ap (λ x. count_at_least x ms) e))
  ];
}

commit_loop-Largest :
    (half : ℕ) (ms : List ℤ) (k i c : ℕ) → Largest half ms k i c (commit_loop half ms k i c)
unfolding commit_loop
commit_loop-Largest half ms zero i c = record {
  moved = inl refl;
  largest = λ j lo hi m. absurd (omega arith);
}
commit_loop-Largest half ms (suc k) i c = elim (Bool-cases (ltb half (0 + count_at_least i ms))) [
  | inl yes_i ↦
      rw (reaches-count half i ms 0 (omega arith), yes_i)
        (Largest-yes half ms k i c _ (ground arith) (commit_loop-Largest half ms k (i + 1) i))
  | inr no_i ↦
      rw (reaches-count half i ms 0 (omega arith), no_i)
        (Largest-no half ms k i c _ (ground arith) (commit_loop-Largest half ms k (i + 1) c))
]

module _ {C B : Type 0} where
  -- A leader's new commit index is its old one, or a larger one that more than half of the peers are
  -- known to have; and no larger index up to the end of its log, whatever the term of the entry
  -- there, is known to more than half.
  pub leader_commit-largest :
      (rf : Raft C B)
      → ((((leader_commit rf).commit_index ≡ rf.commit_index)
          ⊎ ((rf.commit_index < (leader_commit rf).commit_index)
              × (rf.peers / 2 < count_at_least (leader_commit rf).commit_index rf.match_index))))
        × ((j : ℕ)
            → rf.commit_index < j
            → j ≤ rf.last_snapshot_index + length rf.log
            → rf.peers / 2 < count_at_least j rf.match_index
            → j ≤ (leader_commit rf).commit_index)
  unfolding leader_commit
  leader_commit-largest rf =
      let h =
        commit_loop-Largest (rf.peers / 2) rf.match_index
          (length rf.log + rf.last_snapshot_index - rf.commit_index) (rf.commit_index + 1)
          rf.commit_index in
      (
        elim h.moved [ inl e ↦ inl e | inr m ↦ inr (omega (arith, m), m.2) ],
        λ j lo hi m. h.largest j (omega arith) (omega arith) m,
      )

-- Nobody has an index beyond those that everybody is within.
count_at_least-zero :
    (l j : ℕ) (ms : List ℤ)
    → ((k : ℕ) (t : ℤ) → get_elem? ms k ≡ some t → t ≤ℤ pos l)
    → l < j
    → count_at_least j ms ≡ 0
count_at_least-zero l j [] h lt = refl
count_at_least-zero l j (t ∷ ts) h lt =
    ground (arith, h 0 t refl, count_at_least-zero l j ts (λ k. h (suc k)) lt)

module _ {C B : Type 0} where
  -- A leader whose matchIndex stays within its log, and whose commit index does, commits no index
  -- beyond its log.
  leader_commit-inside :
      (rf : Raft C B)
      → ((k : ℕ) (t : ℤ) → get_elem? rf.match_index k ≡ some t → t ≤ℤ pos (last_index rf))
      → rf.commit_index ≤ last_index rf
      → (leader_commit rf).commit_index ≤ last_index rf
  leader_commit-inside rf inside old = elim (leader_commit-largest rf).0 [
    | inl same ↦ omega arith
    | inr (more, known) ↦ elim (dec_lt (last_index rf) (leader_commit rf).commit_index) [
      | yes beyond ↦ absurd (
          omega (
            arith,
            count_at_least-zero (last_index rf) (leader_commit rf).commit_index rf.match_index
                inside beyond,
          ))
      | no within ↦ omega arith
    ]
  ]
