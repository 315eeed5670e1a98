-- ===== src/Raft/Complete/Changes.antt =====
-- What the handlers do to a peer's log, and to what it has on disk.
use sjytker_my_mit.Base.{
  ℕ, suc, ◌+◌, ◌-◌, ◌≤◌, ◌≡◌, refl, sym, ap, ◌∙◌, subst, ◌⊎◌, inl, inr, Bool, true, false, some,
  List, [], ◌∷◌, ◌++◌, arith, Bool-cases, length, get_elem?, length-drop, get_elem?-lt,
}
use sjytker_my_mit.Raft.State.{
  leader, Command, LogEntry, Persister, Raft, AppendEntriesArgs, AppendEntriesReply,
}
use sjytker_my_mit.Raft.Persist.{Gob, PersistData, persist_data}
use sjytker_my_mit.Raft.Role.{start, make}
use sjytker_my_mit.Raft.Append.{append_entries}
use sjytker_my_mit.Raft.Handler.{Moves}
use sjytker_my_mit.Raft.Cluster.Matched.{Leaders}
use sjytker_my_mit.Raft.Cluster.Matching.{GoodLog}
use sjytker_my_mit.Raft.Cluster.NetInv.{takes-log}
use sjytker_my_mit.Raft.Cluster.Writes.{SameLog, make-blank, make-log}
use sjytker_my_mit.Raft.Complete.Terms.{OfTerm}
use sjytker_my_mit.Raft.Complete.Invariant.{OfLeader, disk_term, LogTerms}
use sjytker_my_mit.Raft.Complete.Logs.{OnDiskNow, Change, stays, takes, adds, disk_term-now}

module _ {C B : Type 0} (gob : Gob (PersistData C) B) (rf rf' : Raft C B) where
  -- A follower that does not accept a request keeps its log.
  append_entries-no :
      (args : AppendEntriesArgs C) (r : AppendEntriesReply)
      → append_entries gob args rf ≡ some (rf', r)
      → r.success ≡ false
      → rf'.log ≡ rf.log
  unfolding append_entries
  append_entries-no args r h f = ground arith

  pub append_entries-yes :
      (args : AppendEntriesArgs C) (r : AppendEntriesReply)
      → append_entries gob args rf ≡ some (rf', r)
      → r.success ≡ true
      → (rf'.current_term ≡ args.term) × (rf.current_term ≤ args.term) × OnDiskNow gob rf'
  unfolding append_entries
  append_entries-yes args r h t = ground arith

  -- A request that is accepted is not behind the log where that ends in its term.
  append_entries-overtakes :
      (args : AppendEntriesArgs C) (r : AppendEntriesReply) (m : ℕ) (e : LogEntry C)
      → append_entries gob args rf ≡ some (rf', r)
      → r.success ≡ true
      → rf.last_snapshot_index ≡ 0
      → length rf.log ≡ suc m
      → get_elem? rf.log m ≡ some e
      → e.term ≡ args.term
      → m ≤ args.prev_log_index + length args.entries
  unfolding append_entries
  append_entries-overtakes args r m e h t z len last same =
      let n : length rf.log - 1 ≡ m = omega arith in ground (arith, ap (get_elem? rf.log) n)

  pub stays-disk :
      rf'.log ≡ rf.log
      → rf.current_term ≤ rf'.current_term
      → (rf'.persister.raft_state ≡ rf.persister.raft_state) ⊎ OnDiskNow gob rf'
      → disk_term gob rf.persister.raft_state ≤ rf.current_term
      → LogTerms gob rf
      → (logs : Leaders C) → Change gob logs rf rf'
  stays-disk same fwd (inl disk) le h logs =
      stays same (omega (arith, ap (disk_term gob) disk)) (elim h.on_disk [
        | inl (e, l) ↦ inl (disk ∙ e, same ∙ l)
        | inr (d, e, l) ↦ inr (d, disk ∙ e, l ∙ sym same)
      ])
  stays-disk same fwd (inr now) le h logs =
      stays same (omega (arith, disk_term-now gob rf' now)) (inr (persist_data rf', now, refl))

  pub stays-Moves :
      Moves gob rf rf'
      → SameLog rf rf'
      → disk_term gob rf.persister.raft_state ≤ rf.current_term
      → LogTerms gob rf
      → (logs : Leaders C) → Change gob logs rf rf'
  stays-Moves m same le h logs =
      let fwd = m.forward in stays-disk same.0 (omega arith) m.stored le h logs

  pub stays-restart :
      (n i : ℕ)
      → make gob n i rf.persister ≡ some rf'
      → LogTerms gob rf
      → (logs : Leaders C) → Change gob logs rf rf'
  stays-restart n i e h logs = elim h.on_disk [
    | inl (empty, l) ↦
        let (st, ps, off, log) = make-blank gob n i rf.persister empty e in
        stays (log ∙ sym l) (omega (arith, ap (λ (p : Persister B). disk_term gob p.raft_state) ps))
          (inl (ap (λ (p : Persister B). p.raft_state) ps ∙ empty, log))
    | inr (d, enc, l) ↦
        let (st, ps, off, log) = make-log gob n i rf.persister d enc e in
        stays (log ∙ l) (omega (arith, ap (λ (p : Persister B). disk_term gob p.raft_state) ps))
          (inr (d, ap (λ (p : Persister B). p.raft_state) ps ∙ enc, sym log))
  ]

  -- A request of a leader leaves the log or makes it the leader's.
  pub append-Change :
      (args : AppendEntriesArgs C) (r : AppendEntriesReply) (logs : Leaders C)
      → Moves gob rf rf'
      → append_entries gob args rf ≡ some (rf', r)
      → GoodLog logs rf.last_snapshot_index rf.log
      → OfLeader logs args
      → disk_term gob rf.persister.raft_state ≤ rf.current_term
      → LogTerms gob rf
      → Change gob logs rf rf'
        × (r.success ≡ true
            → ((rest : List (LogEntry C)) × (logs args.term ≡ some (rf'.log ++ rest)))
              × (rf'.current_term ≡ args.term)
              × OnDiskNow gob rf')
  append-Change args r logs m e good (log, more, led, of, from, at, behind) le h =
      elim (Bool-cases r.success) [
        | inr f ↦ (
          let fwd = m.forward in
              stays-disk (append_entries-no args r e f) (omega arith) m.stored le h logs,
          λ t. absurd (ground arith),
        )
        | inl t ↦
            let (cur, fwd, now) = append_entries-yes args r e t in
            elim (takes-log gob 0 logs rf rf' args r log good from at behind e) [
              | inl (_, f) ↦ absurd (ground arith)
              | inr same ↦ (
                takes log more (ap logs cur ∙ led) (subst (λ u. OfTerm u more) (sym cur) of) same
                    now (omega arith)
                    (λ k x len top term.
                      let bound =
                        append_entries-overtakes args r k x e t good.0 len top (term ∙ cur) in
                      let in_log = get_elem?-lt log args.prev_log_index at.1 in
                      let size = ap length behind in
                      omega (arith, length-drop (suc args.prev_log_index) log)),
                λ _. ((more, led ∙ ap (λ l. some (l ++ more)) (sym same)), cur, now),
              )
            ]
      ]

  pub start-log :
      (c : Command C) (answer : ℕ × ℕ × Bool)
      → start gob c rf ≡ some (rf', answer)
      → ((answer.2 ≡ false) × (rf'.log ≡ rf.log))
        ⊎ ((rf'.state ≡ leader)
            × (answer.1 ≡ rf'.current_term)
            × (rf'.current_term ≡ rf.current_term)
            × (rf'.log ≡ rf.log ++ record { command = c; term = rf.current_term } ∷ [])
            × OnDiskNow gob rf')
  unfolding start
  start-log c answer h = ground arith

  -- A command is added to the log of a leader.
  pub command-Change :
      (c : Command C) (answer : ℕ × ℕ × Bool) (logs : Leaders C)
      → Moves gob rf rf'
      → start gob c rf ≡ some (rf', answer)
      → disk_term gob rf.persister.raft_state ≤ rf.current_term
      → LogTerms gob rf
      → Change gob logs rf rf'
        × (answer.2 ≡ true
            → (rf'.state ≡ leader) × (answer.1 ≡ rf'.current_term) × OnDiskNow gob rf')
  command-Change c answer logs m e le h = elim (start-log c answer e) [
    | inl (f, same) ↦ (
      let fwd = m.forward in stays-disk same (omega arith) m.stored le h logs,
      λ t. absurd (ground arith),
    )
    | inr (lead, term, cur, same, now) ↦ (
      adds (record { command = c; term = rf.current_term }) same (sym cur) cur now,
      λ t. (lead, term, now),
    )
  ]
