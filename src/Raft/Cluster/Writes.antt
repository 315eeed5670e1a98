-- ===== src/Raft/Cluster/Writes.antt =====
-- Which handlers write to the log, and what.
use sjytker_my_mit.Base.{
  ℕ, zero, suc, ◌+◌, ◌-◌, ◌≤◌, ◌<◌, ◌≡◌, refl, sym, ap, ◌∙◌, ◌⊎◌, inl, inr, Bool, false, Option,
  none, some, List, [], ◌∷◌, ◌++◌, arith, ℕ_discrete, ltb-false, Bool-cases, Option-cases,
  >>=-eq-some, some_eq, length, get_elem?, take, drop, get_elem?-drop,
}
use sjytker_my_mit.Raft.State.{
  leader, follower, Command, message, LogEntry, ApplyMsg, Persister, Raft, RequestVoteArgs,
  RequestVoteReply, AppendEntriesArgs, AppendEntriesReply, InstallSnapshotReply,
}
use sjytker_my_mit.Raft.Log.{entry_at}
use sjytker_my_mit.Raft.Persist.{Gob, PersistData}
use sjytker_my_mit.Raft.Role.{kill, start, make}
use sjytker_my_mit.Raft.Vote.{
  count_reply, count_replies, request_vote, send_request, start_election, finish_election,
}
use sjytker_my_mit.Raft.Append.{append_entries}
use sjytker_my_mit.Raft.Leader.{Next, prepare_append, handle_append_reply}
use sjytker_my_mit.Raft.Snapshot.{handle_install_reply}
use sjytker_my_mit.Raft.Apply.{applied, apply_timer, receive_notify}
use sjytker_my_mit.Raft.Leader.Replicate.{prepare_append-sent}

module _ {C B : Type 0} where
  abbrev pub SameLog : Raft C B → Raft C B → Type 0
  SameLog rf rf' = (rf'.log ≡ rf.log) × (rf'.last_snapshot_index ≡ rf.last_snapshot_index)

-- Lists with the same elements at all indices.
same_elements :
    {A : Type 0} (xs ys : List A) → ((k : ℕ) → get_elem? xs k ≡ get_elem? ys k) → xs ≡ ys
same_elements [] [] h = refl
same_elements [] (y ∷ ys) h = absurd (let q = h 0 in cc)
same_elements (x ∷ xs) [] h = absurd (let q = h 0 in cc)
same_elements (x ∷ xs) (y ∷ ys) h =
    ap (λ z. z ∷ xs) (some_eq (h 0)) ∙ ap (λ l. y ∷ l) (same_elements xs ys (λ k. h (suc k)))

entry_at-whole :
    {C B : Type 0} (rf : Raft C B) (i : ℕ)
    → rf.last_snapshot_index ≡ 0
    → entry_at rf i ≡ get_elem? rf.log i
unfolding entry_at
entry_at-whole rf i z =
    rw (ltb-false i rf.last_snapshot_index (omega arith)) (ap (get_elem? rf.log) (omega arith))

module _ {C B : Type 0} (args : RequestVoteArgs) where
  count_reply-SameLog :
      (o : Option RequestVoteReply) (t t' : Raft C B × ℕ × Bool)
      → count_reply args o t ≡ some t'
      → SameLog t.0 t'.0
  unfolding count_reply
  count_reply-SameLog o t t' h = ground arith

  count_replies-SameLog :
      (replies : ℕ → Option RequestVoteReply) (me n : ℕ) (t t' : Raft C B × ℕ × Bool)
      → count_replies args replies me n t ≡ some t'
      → SameLog t.0 t'.0
  unfolding count_replies
  count_replies-SameLog replies me zero t t' h = ground arith
  count_replies-SameLog replies me (suc n) t t' h =
      let (t1, e, k) = >>=-eq-some (count_replies args replies me n t) _ h in
      let before = count_replies-SameLog replies me n t t1 e in
      ground (arith, count_reply-SameLog (replies n) t1 t')

module _ {C B : Type 0} (gob : Gob (PersistData C) B) (rf rf' : Raft C B) where
  pub request_vote-SameLog :
      (args : RequestVoteArgs) (r : RequestVoteReply)
      → request_vote gob args rf ≡ some (rf', r)
      → SameLog rf rf'
  unfolding request_vote
  request_vote-SameLog args r h = ground arith

  pub start_election-SameLog :
      (args : Option RequestVoteArgs) → start_election gob rf ≡ some (rf', args) → SameLog rf rf'
  unfolding start_election
  start_election-SameLog args h = ground arith

  pub finish_election-SameLog :
      (args : RequestVoteArgs) (count : ℕ)
      → finish_election gob args count rf ≡ some rf'
      → SameLog rf rf'
  unfolding finish_election
  finish_election-SameLog args count h = ground arith

  pub prepare_append-SameLog :
      (index : ℕ) (args : Option (AppendEntriesArgs C))
      → prepare_append index rf ≡ some (rf', args)
      → SameLog rf rf'
  unfolding prepare_append
  prepare_append-SameLog index args h = ground arith

  pub handle_append_reply-SameLog :
      (index : ℕ) (args : AppendEntriesArgs C) (r : AppendEntriesReply) (next : Next)
      → handle_append_reply gob index args r rf ≡ some (rf', next)
      → SameLog rf rf'
  unfolding handle_append_reply
  handle_append_reply-SameLog index args r next h = ground arith

  pub handle_install_reply-SameLog :
      (index : ℕ) (r : Option InstallSnapshotReply)
      → handle_install_reply index r rf ≡ some rf'
      → SameLog rf rf'
  unfolding handle_install_reply
  handle_install_reply-SameLog index r h = ground arith

  -- Start writes nothing, or the command behind the log of a leader, who stays one.
  pub start-writes :
      (c : Command C) (answer : ℕ × ℕ × Bool)
      → start gob c rf ≡ some (rf', answer)
      → SameLog rf rf'
        ⊎ ((rf.state ≡ leader)
            × (rf'.state ≡ leader)
            × (rf'.current_term ≡ rf.current_term)
            × (rf'.last_snapshot_index ≡ rf.last_snapshot_index)
            × (rf'.log ≡ rf.log ++ record { command = c; term = rf.current_term } ∷ []))
  unfolding start
  start-writes c answer h = ground arith

  append_entries-accepts :
      (args : AppendEntriesArgs C) (r : AppendEntriesReply)
      → append_entries gob args rf ≡ some (rf', r)
      → ((rf'.log ≡ rf.log) × (r.success ≡ false))
        ⊎ ((e : LogEntry C) × (get_elem? rf.log (args.prev_log_index - rf.last_snapshot_index)
              ≡ some e)
            × ((args.prev_log_index ≡ rf.last_snapshot_index) ⊎ (args.prev_log_term ≡ e.term))
            × (rf.last_snapshot_index ≤ args.prev_log_index)
            × (rf'.log
                ≡ take (args.prev_log_index - rf.last_snapshot_index + 1) rf.log ++ args.entries))
  unfolding append_entries
  append_entries-accepts args r h =
      let k = args.prev_log_index - rf.last_snapshot_index in
      elim (Bool-cases r.success) [
        | inr f ↦ inl (ground arith, f)
        | inl t ↦ elim (Option-cases (get_elem? rf.log k)) [
          | inl n ↦ absurd (ground arith)
          | inr (e, q) ↦ elim (ℕ_discrete args.prev_log_index rf.last_snapshot_index) [
            | yes same ↦ inr (e, q, inl same, omega arith, ground arith)
            | no other ↦ inr (e, q, inr (ground arith), ground arith, ground arith)
          ]
        ]
      ]

  -- AppendEntries without a snapshot writes nothing, or the entries of the request behind an entry
  -- that has its index and term, or stands at index 0. It leaves no leader with another log.
  pub append_entries-writes :
      (args : AppendEntriesArgs C) (r : AppendEntriesReply)
      → rf.last_snapshot_index ≡ 0
      → append_entries gob args rf ≡ some (rf', r)
      → (rf'.last_snapshot_index ≡ 0)
        × (rf'.state ≡ leader → rf'.log ≡ rf.log)
        × (((rf'.log ≡ rf.log) × (r.success ≡ false))
            ⊎ ((e : LogEntry C) × (get_elem? rf.log args.prev_log_index ≡ some e)
                × ((args.prev_log_index ≡ 0) ⊎ (args.prev_log_term ≡ e.term))
                × (rf'.log ≡ take (suc args.prev_log_index) rf.log ++ args.entries)))
  unfolding append_entries
  append_entries-writes args r z h =
      let n : args.prev_log_index - rf.last_snapshot_index ≡ args.prev_log_index = omega arith in
      let m : args.prev_log_index - rf.last_snapshot_index + 1 ≡ suc args.prev_log_index =
        omega arith in
      (
        ground arith,
        λ l. ground arith,
        elim (append_entries-accepts args r h) [
          | inl same ↦ inl same
          | inr (e, q, t, le, l) ↦ inr (
            e,
            ap (get_elem? rf.log) (sym n) ∙ q,
            elim t [ inl o ↦ inl (o ∙ z) | inr m ↦ inr m ],
            l ∙ ap (λ k. take k rf.log ++ args.entries) m,
          )
        ],
      )

  pub send_request-SameLog :
      (args : RequestVoteArgs) (replies : ℕ → Option RequestVoteReply) (count : ℕ)
      → send_request gob args replies rf ≡ some (rf', count)
      → SameLog rf rf'
  unfolding send_request
  send_request-SameLog args replies count h =
      let (t1, e, k) = >>=-eq-some (count_replies args replies rf.me rf.peers (rf, 0, false)) _ h in
      let c = count_replies-SameLog args replies rf.me rf.peers (rf, 0, false) t1 e in ground arith

  pub start_election-term :
      (args : RequestVoteArgs)
      → start_election gob rf ≡ some (rf', some args)
      → rf'.current_term ≡ suc rf.current_term
  unfolding start_election
  start_election-term args h = ground arith

  -- What a leader sends without a snapshot is of its own log: an entry's index and term, and all
  -- entries behind.
  pub prepare_append-FromLog :
      (index : ℕ) (args : AppendEntriesArgs C)
      → rf.last_snapshot_index ≡ 0
      → 0 < length rf.log
      → prepare_append index rf ≡ some (rf', some args)
      → ((e : LogEntry C) × (get_elem? rf.log args.prev_log_index ≡ some e)
          × (e.term ≡ args.prev_log_term))
        × (drop (suc args.prev_log_index) rf.log ≡ args.entries)
  prepare_append-FromLog index args z nonempty h =
      let (l, t, c, (e, at, has), behind) = prepare_append-sent index rf nonempty h in
      (
        (e, sym (entry_at-whole rf args.prev_log_index z) ∙ at, has),
        same_elements (drop (suc args.prev_log_index) rf.log) args.entries (λ k.
            get_elem?-drop (suc args.prev_log_index) k rf.log
            ∙ ap (get_elem? rf.log) (omega arith)
            ∙ sym (entry_at-whole rf (args.prev_log_index + 1 + k) z)
            ∙ sym (behind k)),
      )

  pub applied-SameLog : (msg : ApplyMsg C) → applied msg rf ≡ rf' → SameLog rf rf'
  unfolding applied
  applied-SameLog msg h = ground arith

  pub kill-SameLog : kill rf ≡ rf' → SameLog rf rf'
  unfolding kill
  kill-SameLog h = ground arith

  pub wake-SameLog : (apply_timer rf ≡ some rf') ⊎ (receive_notify rf ≡ some rf') → SameLog rf rf'
  unfolding apply_timer receive_notify
  wake-SameLog (inl h) = ground arith
  wake-SameLog (inr h) = ground arith

module _ {C B : Type 0} (gob : Gob (PersistData C) B) (n i : ℕ) (ps : Persister B)
    {rf : Raft C B} where
  -- A restart has the log of the disk, or a new one.
  pub make-blank :
      ps.raft_state ≡ none
      → make gob n i ps ≡ some rf
      → (rf.state ≡ follower)
        × (rf.persister ≡ ps)
        × (rf.last_snapshot_index ≡ 0)
        × (rf.log ≡ record { command = message ""; term = 0 } ∷ [])
  unfolding make
  make-blank e h = ground arith

  pub make-log :
      (d : PersistData C)
      → ps.raft_state ≡ some (gob.encode d)
      → make gob n i ps ≡ some rf
      → (rf.state ≡ follower)
        × (rf.persister ≡ ps)
        × (rf.last_snapshot_index ≡ d.4)
        × (rf.log ≡ d.5)
  unfolding make
  make-log d e h = ground (arith, gob.size-encode d, gob.decode-encode d)
