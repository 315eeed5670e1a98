-- ===== src/Raft/Total.antt =====
-- Which requests a peer with a log answers, and that no handler leaves it without a log.
use native.Mathlib.Numerals.{add-one}
use sjytker_my_mit.Base.{
  ℕ, suc, dec_lt, ◌-◌, ◌<◌, ◌≡◌, ap, ◌≢◌, ◌≤◌, ◌↔◌, inl, inr, Bool, none, some, List, [], ◌∷◌, ◌++◌,
  arith, Option-cases, length, get_elem?, take, length-append, length-take, length-drop,
  get_elem?-some, get_elem?-lt,
}
use sjytker_my_mit.Raft.State.{
  Command, LogEntry, Raft, RequestVoteArgs, AppendEntriesArgs, AppendEntriesReply,
  InstallSnapshotArgs, InstallSnapshotReply,
}
use sjytker_my_mit.Raft.Log.{last_log_term_index, last_index, last_log_term_index-some}
use sjytker_my_mit.Raft.Persist.{Gob, PersistData}
use sjytker_my_mit.Raft.Role.{kill, start}
use sjytker_my_mit.Raft.Vote.{request_vote, start_election}
use sjytker_my_mit.Raft.Append.{append_entries}
use sjytker_my_mit.Raft.Leader.{prepare_append, handle_append_reply}
use sjytker_my_mit.Raft.Snapshot.{compact, install_snapshot, handle_install_reply}
use sjytker_my_mit.Raft.Apply.{applied, apply_timer, receive_notify}
use sjytker_my_mit.Raft.Handler.{
  Handles, append, snapshot, command, sending, append_answer, snapshot_answer, compaction, delivery,
  election_of_leader, killing, waking,
}

-- The last entry of what AppendEntries leaves.
cut_last :
    {C : Type 0} (n : ℕ) (xs ys : List (LogEntry C))
    → 0 < length xs
    → (e : LogEntry C) × (get_elem? (take (suc n) xs ++ ys) (length (take (suc n) xs ++ ys) - 1)
        ≡ some e)
      × (0 < length (take (suc n) xs ++ ys))
cut_last n xs ys h =
    let l : 0 < length (take (suc n) xs ++ ys) =
      omega (arith, length-append (take (suc n) xs) ys, length-take (suc n) xs) in
    let (e, p) =
      get_elem?-some (take (suc n) xs ++ ys) (length (take (suc n) xs ++ ys) - 1) (omega arith) in
    (e, p, l)

module _ {C B : Type 0} where
  abbrev HasLog : Raft C B → Type 0
  HasLog rf = 0 < length rf.log

  last_log-some : (rf : Raft C B) → HasLog rf → (x : ℕ × ℕ) × (last_log_term_index rf ≡ some x)
  last_log-some rf h = let (e, p, q) = last_log_term_index-some rf h in ((e.term, last_index rf), q)

module _ {C B : Type 0} (gob : Gob (PersistData C) B) where
  -- At a peer with a log, RequestVote answers every request.
  request_vote-total :
      (args : RequestVoteArgs) (rf : Raft C B) → 0 < length rf.log → request_vote gob args rf ≢ none
  unfolding request_vote
  request_vote-total args rf h = ground (arith, last_log-some rf h)

  -- At a peer with a log, AppendEntries answers every request while the channel of Apply has room.
  append_entries-total :
      (args : AppendEntriesArgs C) (rf : Raft C B)
      → 0 < length rf.log
      → rf.notified < 10
      → append_entries gob args rf ≢ none
  unfolding append_entries
  append_entries-total args rf h room =
      let n = args.prev_log_index - rf.last_snapshot_index in
      ground (
        arith,
        get_elem?-some rf.log (length rf.log - 1),
        get_elem?-some rf.log n,
        cut_last 0 rf.log args.entries,
        cut_last n rf.log args.entries,
        add-one n,
      )

module _ {C B : Type 0} (gob : Gob (PersistData C) B) where
  -- Over a full channel, what would put a notice on an empty one waits, and the rest does
  -- not look at the channel.
  append_entries-full :
      (args : AppendEntriesArgs C) (rf rf' : Raft C B) (r : AppendEntriesReply)
      → 10 ≤ rf.notified
      → append_entries gob args (record rf { notified = 0 }) ≡ some (rf', r)
      → (append_entries gob args rf ≡ none) ↔ (rf'.notified ≡ 1)
  unfolding append_entries
  append_entries-full args rf rf' r full e = (λ h. ground arith, λ h. ground arith)

  -- A peer with a log answers every RequestVote. Its AppendEntries waits, with the lock,
  -- exactly where the channel of Apply has ten notices, and over an empty channel the same request
  -- would be answered and put one there; else it is answered.
  pub requests-total :
      (ask : RequestVoteArgs) (args : AppendEntriesArgs C) (rf : Raft C B)
      → 0 < length rf.log
      → (request_vote gob ask rf ≢ none)
        × ((append_entries gob args rf ≡ none) ↔ (
            (10 ≤ rf.notified)
            × ((rf' : Raft C B) × (r : AppendEntriesReply) × (append_entries gob args
                    (record rf { notified = 0 })
                  ≡ some (rf', r))
                × (rf'.notified ≡ 1))))
  requests-total ask args rf h = (
    request_vote-total gob ask rf h,
    (
      λ hangs. elim (dec_lt rf.notified 10) [
        | yes room ↦ absurd (append_entries-total gob args rf h room hangs)
        | no full ↦ elim (Option-cases (append_entries gob args (record rf { notified = 0 }))) [
          | inl bad ↦
              absurd
                (append_entries-total gob args (record rf { notified = 0 }) h (omega arith) bad)
          | inr ((rf', r), e) ↦ (
            omega arith,
            (rf', r, e, (append_entries-full args rf rf' r (omega arith) e).0 hangs),
          )
        ]
      ],
      λ (full, (rf', r, e, one)). (append_entries-full args rf rf' r full e).1 one,
    ),
  )

same_log-HasLog : {C B : Type 0} (rf rf' : Raft C B) → rf'.log ≡ rf.log → HasLog rf → HasLog rf'
same_log-HasLog rf rf' e h = omega (arith, ap length e)

module _ {C B : Type 0} (gob : Gob (PersistData C) B) (rf : Raft C B) {rf' : Raft C B} where
  append_entries-HasLog :
      (args : AppendEntriesArgs C) (r : AppendEntriesReply)
      → HasLog rf
      → append_entries gob args rf ≡ some (rf', r)
      → HasLog rf'
  unfolding append_entries
  append_entries-HasLog args r h e =
      let n = args.prev_log_index - rf.last_snapshot_index in
      ground (arith, cut_last 0 rf.log args.entries, cut_last n rf.log args.entries, add-one n)

  install_snapshot-HasLog :
      (args : InstallSnapshotArgs B) (r : InstallSnapshotReply)
      → HasLog rf
      → install_snapshot gob args rf ≡ some (rf', r)
      → HasLog rf'
  unfolding install_snapshot
  install_snapshot-HasLog args r h e =
      ground (arith, length-drop (args.last_include_index - rf.last_snapshot_index) rf.log)

  start-HasLog :
      (c : Command C) (answer : ℕ × ℕ × Bool)
      → HasLog rf
      → start gob c rf ≡ some (rf', answer)
      → HasLog rf'
  unfolding start
  start-HasLog c answer h e =
      ground (arith, length-append rf.log (record { command = c; term = rf.current_term } ∷ []))

  compact-HasLog :
      (index : ℕ) (bytes : B) → HasLog rf → compact gob index bytes rf ≡ some rf' → HasLog rf'
  unfolding compact
  compact-HasLog index bytes h e =
      let n = index - rf.last_snapshot_index in
      elim (Option-cases (get_elem? rf.log n)) [
        | inl absent ↦ ground arith
        | inr (x, p) ↦ ground (arith, length-drop n rf.log, get_elem?-lt rf.log n p)
      ]

  -- Every handler leaves a peer that has a log with one.
  pub Handles-log : 0 < length rf.log → Handles gob rf rf' → 0 < length rf'.log
  unfolding prepare_append handle_append_reply handle_install_reply applied kill start_election
      apply_timer receive_notify
  Handles-log h (append args r e) = append_entries-HasLog args r h e
  Handles-log h (snapshot args r e) = install_snapshot-HasLog args r h e
  Handles-log h (command c answer e) = start-HasLog c answer h e
  Handles-log h (sending index args e) = same_log-HasLog rf rf' (ground arith) h
  Handles-log h (append_answer index args r next e) = same_log-HasLog rf rf' (ground arith) h
  Handles-log h (snapshot_answer index none e) = same_log-HasLog rf rf' (ground arith) h
  Handles-log h (snapshot_answer index (some r) e) = same_log-HasLog rf rf' (ground arith) h
  Handles-log h (compaction index bytes e) = compact-HasLog index bytes h e
  Handles-log h (delivery msg e) = same_log-HasLog rf rf' (ground arith) h
  Handles-log h (election_of_leader e) = same_log-HasLog rf rf' (ground arith) h
  Handles-log h (killing e) = same_log-HasLog rf rf' (ground arith) h
  Handles-log h (waking (inl e)) = same_log-HasLog rf rf' (ground arith) h
  Handles-log h (waking (inr e)) = same_log-HasLog rf rf' (ground arith) h
