-- ===== src/Raft/Complete/Later.antt =====
-- Leaders of later terms have the entries that a majority has accepted.
use sjytker_my_mit.Base.{
  ℕ, zero, suc, ◌+◌, ◌≤◌, ◌<◌, ◌≡◌, sym, ap, ◌∙◌, subst, ◌⊎◌, inl, inr, Bool, true, some, List,
  arith, dec_lt, ℕ_discrete, some_eq, get_elem?, get_elem?-take,
}
use sjytker_my_mit.Raft.State.{LogEntry, RequestVoteArgs}
use sjytker_my_mit.Raft.Elect.{count_true, count_true-meet}
use sjytker_my_mit.Raft.Cluster.{Grant, In}
use sjytker_my_mit.Raft.Cluster.Matched.{Leaders, Matched}
use sjytker_my_mit.Raft.Complete.{Ack}
use sjytker_my_mit.Raft.Complete.Terms.{Has, UpTo, Has-append, Has-take}
use sjytker_my_mit.Raft.Complete.Invariant.{Kept}
use sjytker_my_mit.Raft.Complete.Polls.{Covers, Stood, Elected}

module _ {C : Type 0} (n : ℕ) (logs : Leaders C) (acks : List (Ack C)) (gs : List Grant) (t k : ℕ)
    (lead : List (LogEntry C)) (leads : logs t ≡ some lead) (entry : Has lead t k)
    (upto : (u : ℕ) (l : List (LogEntry C)) → logs u ≡ some l → UpTo u l)
    (matched : (u : ℕ) (l : List (LogEntry C)) → logs u ≡ some l → Matched logs l)
    (elected : (u : ℕ) (l : List (LogEntry C))
      → logs u ≡ some l
      → (u ≡ 0) ⊎ Elected n logs acks gs u l)
    (f : ℕ → Bool) (half : n < count_true n f + count_true n f)
    (accepted : (q : ℕ)
      → f q ≡ true
      → (a : Ack C) × In a acks × (a.peer ≡ q) × (a.term ≡ t) × Has a.log t k) where
  -- An entry of an older term is not behind one of a newer term.
  in_order :
      (w m : ℕ) (l : List (LogEntry C)) (e : LogEntry C)
      → logs w ≡ some l
      → get_elem? l m ≡ some e
      → t < e.term
      → Has l t k
      → k ≤ m
  in_order w m l e at here lt (x, there, term) = elim (dec_lt m k) [
    | no ge ↦ omega arith
    | yes before ↦
        let (old, p, q) = matched w l at k x there in
        let in_old : get_elem? old m ≡ some e =
          sym (get_elem?-take (suc k) m old (omega arith))
          ∙ ap (λ y. get_elem? y m) (sym q)
          ∙ get_elem?-take (suc k) m l (omega arith)
          ∙ here in
        absurd (omega (arith, upto x.term old p m e in_old))
  ]

  -- A candidate that covers the entry has it.
  covered :
      (p : RequestVoteArgs) (log : List (LogEntry C)) (u : ℕ)
      → suc u ≡ p.term
      → Stood logs p log
      → Kept logs t u k
      → Covers p t k
      → Has log t k
  covered p log u su ((e, at, last, len), m, (v, sv, bound)) kept c =
      let (l, led, same) = m p.last_log_index e at in
      let in_l : get_elem? l p.last_log_index ≡ some e =
        sym (get_elem?-take (suc p.last_log_index) p.last_log_index l (omega arith))
        ∙ ap (λ y. get_elem? y p.last_log_index) (sym same)
        ∙ get_elem?-take (suc p.last_log_index) p.last_log_index log (omega arith)
        ∙ at in
      elim c [
        | inl lt ↦
            let has =
              kept e.term l (omega arith) (omega (arith, bound p.last_log_index e at)) led in
            Has-take log l t k p.last_log_index
              (in_order e.term p.last_log_index l e led in_l (omega arith) has) same has
        | inr (term, le) ↦
            Has-take log l t k p.last_log_index le same
              (subst (λ y. Has y t k) (some_eq (sym leads ∙ ap logs (term ∙ sym last) ∙ led)) entry)
      ]

  later_one :
      (u : ℕ) (l : List (LogEntry C)) → t ≤ u → Kept logs t u k → logs (suc u) ≡ some l → Has l t k
  later_one u l le kept at = elim (elected (suc u) l at) [
    | inl z ↦ absurd cc
    | inr h ↦
        let (q, lt, fq, vq) = count_true-meet n f h.voters (omega (arith, half, h.half)) in
        let (a, m, peer, term, has) = accepted q fq in
        let c =
          h.covers q vq a k u m peer (sym h.at_term) (omega (arith, h.at_term))
            (subst (λ x. Has a.log x k) (sym term) has)
            (subst (λ x. Kept logs x u k) (sym term) kept) in
        subst (λ y. Has y t k) (sym h.is_log)
          (Has-append h.first h.more t k (
            covered h.poll h.first u (sym h.at_term) h.stood kept
              (subst (λ x. Covers h.poll x k) term c)))
  ]

  pub later_leaders : (u : ℕ) → Kept logs t u k
  later_leaders zero v l lt le at = absurd (omega arith)
  later_leaders (suc u) v l lt le at = elim (ℕ_discrete v (suc u)) [
    | no ne ↦ later_leaders u v l lt (omega arith) at
    | yes same ↦
        later_one u l (omega arith) (later_leaders u) (subst (λ x. logs x ≡ some l) same at)
  ]
