-- ===== src/Raft/Apply/Order.antt =====
-- What Apply delivers.
use sjytker_my_mit.Base.{
  ℕ, zero, suc, ◌+◌, ◌-◌, ◌≤◌, ◌≡◌, refl, sym, ap, ◌∙◌, subst, true, some, List, [], ◌∷◌, arith,
  >>=-eq-some, length,
}
use sjytker_my_mit.Raft.State.{LogEntry, ApplyMsg, Raft}
use sjytker_my_mit.Raft.Log.{get_real_log_index, log_at, entry_at}
use sjytker_my_mit.Raft.Apply.{collect, pending, applied, apply_all, apply}

-- The messages of the indices from `i` on, one for each in turn, with the commands of the log.
abbrev pub InOrder : {C B : Type 0} → Raft C B → ℕ → List (ApplyMsg C) → Type 0
InOrder rf i [] = Unit
InOrder {C} rf i (msg ∷ msgs) =
    (msg.command_valid ≡ true)
    × (msg.command_index ≡ i)
    × ((e : LogEntry C) × (entry_at rf i ≡ some e) × (msg.command ≡ e.command))
    × InOrder rf (i + 1) msgs

module _ {C B : Type 0} where
  InOrder-cons :
      (rf : Raft C B) (i k : ℕ) (msgs rest : List (ApplyMsg C)) (e : LogEntry C)
      → some (record { command_valid = true; command = e.command; command_index = i } ∷ rest)
        ≡ some msgs
      → entry_at rf i ≡ some e
      → InOrder rf (i + 1) rest
      → length rest ≡ k
      → InOrder rf i msgs × (length msgs ≡ suc k)
  InOrder-cons rf i k [] rest e h p ordered count = cc
  InOrder-cons rf i k (msg ∷ msgs) rest e h p ordered count =
      let same : rest ≡ msgs = cc in
      (
        (
          ground arith,
          ground arith,
          (e, p, ground arith),
          subst (λ l. InOrder rf (i + 1) l) same ordered,
        ),
        ap suc (ap length (sym same) ∙ count),
      )

  collect-InOrder :
      (rf : Raft C B) (k i : ℕ) {msgs : List (ApplyMsg C)}
      → rf.last_snapshot_index ≤ i
      → collect rf k i ≡ some msgs
      → InOrder rf i msgs × (length msgs ≡ k)
  unfolding collect entry_at
  collect-InOrder rf zero i {msgs = []} above h = (tt, refl)
  collect-InOrder rf zero i {msgs = msg ∷ msgs} above h = cc
  collect-InOrder rf (suc k) i {msgs = msgs} above h =
      let (e, p, h1) = >>=-eq-some (log_at rf (get_real_log_index rf i)) _ h in
      let (rest, q, h2) = >>=-eq-some (collect rf k (i + 1)) _ h1 in
      let (ordered, count) = collect-InOrder rf k (i + 1) {msgs = rest} (omega arith) q in
      InOrder-cons rf i k msgs rest e h2 (ground arith) ordered count

  last_applied-apply_all :
      (start rf : Raft C B) (i : ℕ) (msgs : List (ApplyMsg C))
      → InOrder start i msgs
      → rf.last_applied + 1 ≡ i
      → (apply_all msgs rf).last_applied ≡ rf.last_applied + length msgs
  unfolding apply_all
  last_applied-apply_all start rf i [] h e = omega arith
  last_applied-apply_all start rf i (msg ∷ msgs) h e =
      let rest =
        last_applied-apply_all start (applied msg rf) (i + 1) msgs h.3 (omega (arith, h.1)) in
      omega (arith, rest, h.1)

  -- A peer that has caught up with its snapshot delivers the entries after lastApplied up to the
  -- commit index, each once, in the order of their indices and with the commands of its log, and has
  -- then applied up to the commit index that it had.
  pub apply-InOrder :
      (rf : Raft C B) {rf' : Raft C B} {msgs : List (ApplyMsg C)}
      → rf.last_snapshot_index ≤ rf.last_applied
      → apply rf ≡ some (rf', msgs)
      → InOrder rf (rf.last_applied + 1) msgs
        × (rf.last_applied + length msgs ≡ rf.commit_index)
        × (rf'.last_applied ≡ rf.commit_index)
  unfolding apply
  apply-InOrder rf {rf'} {msgs} caught_up h =
      let (ms, p, k) = >>=-eq-some (pending rf) _ h in
      let same : ms ≡ msgs = ground arith in
      let collected : collect rf (rf.commit_index - rf.last_applied) (rf.last_applied + 1)
          ≡ some msgs =
        ground arith in
      let (ordered, count) =
        collect-InOrder rf (rf.commit_index - rf.last_applied) (rf.last_applied + 1) (omega arith)
          collected in
      let enough : rf.last_applied ≤ rf.commit_index = ground arith in
      (
        ordered,
        omega arith,
        ground (arith, last_applied-apply_all rf rf (rf.last_applied + 1) msgs ordered refl),
      )
