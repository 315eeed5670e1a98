-- ===== src/Raft/Append/Refuse.antt =====
-- What a refusal of AppendEntries leaves alone, and what it tells the leader.
use sjytker_my_mit.Base.{
  ℕ, zero, suc, ◌+◌, ◌-◌, ◌≤◌, ◌<◌, ◌≡◌, refl, sym, ap, ◌∙◌, inl, inr, true, false, some, List, [],
  ◌∷◌, arith, ◌==◌, ltb-false, ==_iff, Bool-cases, Option-cases, get_elem?, drop, get_elem?-drop,
  pos,
}
use sjytker_my_mit.Raft.State.{LogEntry, Raft, AppendEntriesArgs, AppendEntriesReply}
use sjytker_my_mit.Raft.Log.{get_real_log_index, log_at, entry_at}
use sjytker_my_mit.Raft.Persist.{Gob, PersistData}
use sjytker_my_mit.Raft.Role.{change_role, reset_election_timer}
use sjytker_my_mit.Raft.Append.{
  first_with_term, check_if_out_of_order, accept_entries, conflict_reply, append_body,
  append_entries,
}

-- The first position of a term in a list, which the loop of AppendEntries finds from index `i` on.
pub record First {A : Type 0} (term_of : A → ℕ) (t i k : ℕ) (xs : List A) : Type 0 where
  pub at : ℕ
  pub result : first_with_term term_of t i xs ≡ i + at
  pub upto : at ≤ k
  pub item : A
  pub here : get_elem? xs at ≡ some item
  pub has : term_of item ≡ t
  pub earlier : (j : ℕ) (e : A) → j < at → get_elem? xs j ≡ some e → ¬ (term_of e ≡ t)

First-head :
    {A : Type 0} (term_of : A → ℕ) (t i k : ℕ) (x : A) (xs : List A)
    → (term_of x == t) ≡ true
    → First term_of t i k (x ∷ xs)
unfolding first_with_term
First-head term_of t i k x xs found = record {
  at = 0;
  result = rw found (omega arith);
  upto = omega arith;
  item = x;
  here = refl;
  has = (==_iff (term_of x) t).0 found;
  earlier = λ j e lt. absurd (omega arith);
}

First-tail :
    {A : Type 0} (term_of : A → ℕ) (t i k : ℕ) (x : A) (xs : List A)
    → (term_of x == t) ≡ false
    → First term_of t (i + 1) k xs
    → First term_of t i (suc k) (x ∷ xs)
unfolding first_with_term
First-tail {A} term_of t i k x xs other f = record {
  at = suc f.at;
  result = rw other (omega (arith, f.result));
  upto = omega (arith, f.upto);
  item = f.item;
  here = f.here;
  has = f.has;
  earlier = earlier;
}
  where
    earlier : (j : ℕ) (e : A) → j < suc f.at → get_elem? (x ∷ xs) j ≡ some e → ¬ (term_of e ≡ t)
    earlier zero e lt h = ground arith
    earlier (suc j) e lt h = f.earlier j e (omega arith) h

first_with_term_lem :
    {A : Type 0} (term_of : A → ℕ) (t i k : ℕ) (xs : List A) (e : A)
    → get_elem? xs k ≡ some e
    → term_of e ≡ t
    → First term_of t i k xs
first_with_term_lem term_of t i k [] e h q = cc
first_with_term_lem term_of t i zero (x ∷ xs) e h q =
    First-head term_of t i zero x xs (ground arith)
first_with_term_lem term_of t i (suc k) (x ∷ xs) e h q = elim (Bool-cases (term_of x == t)) [
  | inl found ↦ First-head term_of t i (suc k) x xs found
  | inr other ↦
      First-tail term_of t i k x xs other (first_with_term_lem term_of t (i + 1) k xs e h q)
]

entry_at-behind :
    {C B : Type 0} (rf : Raft C B) (m : ℕ)
    → entry_at rf (rf.last_snapshot_index + 1 + m) ≡ get_elem? (drop 1 rf.log) m
unfolding entry_at
entry_at-behind rf m =
    let e : rf.last_snapshot_index + 1 + m - rf.last_snapshot_index ≡ 1 + m = omega arith in
    rw (ltb-false (rf.last_snapshot_index + 1 + m) rf.last_snapshot_index (omega arith))
      (ap (get_elem? rf.log) e ∙ sym (get_elem?-drop 1 m rf.log))

module _ {C B : Type 0} (gob : Gob (PersistData C) B) where
  -- A refused AppendEntries leaves the log, the snapshot position and the commit index alone.
  pub append_entries-refused :
      (args : AppendEntriesArgs C) (rf : Raft C B) {rf' : Raft C B} {r : AppendEntriesReply}
      → append_entries gob args rf ≡ some (rf', r)
      → r.success ≡ false
      → (rf'.log ≡ rf.log)
        × (rf'.last_snapshot_index ≡ rf.last_snapshot_index)
        × (rf'.commit_index ≡ rf.commit_index)
        × (rf'.last_applied ≡ rf.last_applied)
  unfolding append_entries
  append_entries-refused args rf h no_success = ground arith

  -- Where a refusal names a term, it is the term of the follower's entry at PrevLogIndex.
  conflict_at :
      (args : AppendEntriesArgs C) (rf : Raft C B) {rf' : Raft C B} {r : AppendEntriesReply} (t : ℕ)
      → append_entries gob args rf ≡ some (rf', r)
      → r.x_term ≡ pos t
      → (rf.last_snapshot_index < args.prev_log_index)
        × ((e : LogEntry C) × (get_elem? rf.log (args.prev_log_index - rf.last_snapshot_index)
              ≡ some e)
            × (e.term ≡ t)
            × ¬ (args.prev_log_term ≡ t)
            × (r.x_index
                ≡ pos (
                    first_with_term
                      (λ (e : LogEntry C). e.term)
                      e.term
                      (rf.last_snapshot_index + 1)
                      (drop 1 rf.log))))
  unfolding append_body get_real_log_index log_at accept_entries conflict_reply change_role
      reset_election_timer check_if_out_of_order append_entries
  conflict_at args rf t h q =
      elim (Option-cases (get_elem? rf.log (args.prev_log_index - rf.last_snapshot_index))) [
        | inl absent ↦ absurd (ground arith)
        | inr (e, p) ↦ (ground arith, (e, p, ground arith, ground arith, ground arith))
      ]

  -- Where a refusal names the term t, the follower's entry at PrevLogIndex has the term t and not
  -- the request's; XIndex is the index, above the snapshot and up to PrevLogIndex, of an entry of
  -- term t, and no entry between the snapshot and it has that term.
  pub append_entries-conflict :
      (args : AppendEntriesArgs C) (rf : Raft C B) {rf' : Raft C B} {r : AppendEntriesReply} (t : ℕ)
      → append_entries gob args rf ≡ some (rf', r)
      → r.x_term ≡ pos t
      → ¬ (args.prev_log_term ≡ t)
        × ((e : LogEntry C) × (entry_at rf args.prev_log_index ≡ some e) × (e.term ≡ t))
        × ((x : ℕ) × (r.x_index ≡ pos x)
            × (rf.last_snapshot_index < x)
            × (x ≤ args.prev_log_index)
            × ((e : LogEntry C) × (entry_at rf x ≡ some e) × (e.term ≡ t))
            × ((j : ℕ) (e : LogEntry C)
                → rf.last_snapshot_index < j
                → j < x
                → entry_at rf j ≡ some e
                → ¬ (e.term ≡ t)))
  unfolding entry_at
  append_entries-conflict args rf t h q =
      let (above, (e, p, has, ne, at)) = conflict_at args rf t h q in
      let base = rf.last_snapshot_index in
      let k = args.prev_log_index - base - 1 in
      let e1 : 1 + k ≡ args.prev_log_index - base = omega arith in
      let f =
        first_with_term_lem (λ (e : LogEntry C). e.term) e.term (base + 1) k (drop 1 rf.log) e
          (get_elem?-drop 1 k rf.log ∙ ap (get_elem? rf.log) e1 ∙ p) refl in
      (
        ne,
        (e, rw (ltb-false args.prev_log_index base (omega arith)) p, has),
        (
          base + 1 + f.at,
          at ∙ ap pos f.result,
          omega arith,
          omega (arith, f.upto),
          (f.item, entry_at-behind rf f.at ∙ f.here, f.has ∙ has),
          λ j e' lo hi g has'.
              f.earlier (j - base - 1) e' (omega arith)
                (sym (entry_at-behind rf (j - base - 1)) ∙ ap (entry_at rf) (omega arith) ∙ g)
                (has' ∙ sym has),
        ),
      )
