-- ===== src/Raft/Complete/Polls.antt =====
-- The same cluster, where RequestVote is given what candidates have sent, replies to RequestVote have
-- no term, as the handler leaves it, and no reply to AppendEntries with a newer term comes to a peer
-- that leads no more.
use sjytker_my_mit.Base.{
  ℕ, suc, ◌+◌, ◌≤◌, ◌<◌, ◌≡◌, ◌⊎◌, Bool, true, some, List, [], ◌∷◌, ◌++◌, length, get_elem?,
}
use sjytker_my_mit.Raft.State.{leader, candidate, LogEntry, Raft, RequestVoteArgs, RequestVoteReply}
use sjytker_my_mit.Raft.Persist.{Gob, PersistData}
use sjytker_my_mit.Raft.Handler.{
  Handles, append, snapshot, command, sending, append_answer, snapshot_answer, compaction, delivery,
  election_of_leader, killing, waking,
}
use sjytker_my_mit.Raft.Elect.{count_true}
use sjytker_my_mit.Raft.Cluster.{
  Cluster, Grant, In, Step, vote, handle, stand, ask, elect, restart, IsInitial,
}
use sjytker_my_mit.Raft.Cluster.Invariant.{grant}
use sjytker_my_mit.Raft.Cluster.Matched.{Leaders, Matched}
use sjytker_my_mit.Raft.Complete.{Ack, Past, Notes, ReachPast, begin_past, next_past}
use sjytker_my_mit.Raft.Complete.Terms.{Has, OfTerm, UpTo}
use sjytker_my_mit.Raft.Complete.Invariant.{Kept, disk_term}
use sjytker_my_mit.Raft.Complete.Votes.{Voting}

-- A candidate's log is not behind one that ends with an entry of this term at this index.
abbrev pub Covers : RequestVoteArgs → (t k : ℕ) → Type 0
Covers p t k = (t < p.last_log_term) ⊎ ((t ≡ p.last_log_term) × (k ≤ p.last_log_index))

module _ {C B : Type 0} (gob : Gob (PersistData C) B) (n : ℕ) where
  abbrev pub Hears :
      {rf rf' : Raft C B} → Handles gob rf rf' → (polls polls' : List RequestVoteArgs) → Type 0
  Hears {rf} (append_answer index args r _ h) polls polls' =
      ((r.term ≤ rf.current_term) ⊎ (rf.state ≡ leader)) × (polls' ≡ polls)
  Hears (snapshot_answer index r h) polls polls' = ⊥
  Hears (append args r h) polls polls' = polls' ≡ polls
  Hears (snapshot args r h) polls polls' = polls' ≡ polls
  Hears (compaction index bytes h) polls polls' = polls' ≡ polls
  Hears (command c answer h) polls polls' = polls' ≡ polls
  Hears (sending index args h) polls polls' = polls' ≡ polls
  Hears (delivery msg h) polls polls' = polls' ≡ polls
  Hears (election_of_leader h) polls polls' = polls' ≡ polls
  Hears (killing h) polls polls' = polls' ≡ polls
  Hears (waking h) polls polls' = polls' ≡ polls

  abbrev pub Asks :
      {s s' : Cluster C B} → Step gob n s s' → (polls polls' : List RequestVoteArgs) → Type 0
  Asks (vote i args rf r h e) polls polls' = In args polls × (polls' ≡ polls)
  Asks (handle i rf h e) polls polls' = Hears h polls polls'
  Asks (stand i args rf h e) polls polls' = polls' ≡ args ∷ polls
  Asks (ask i args replies rf count h e) polls polls' =
      ((j : ℕ) (r : RequestVoteReply) → replies j ≡ some r → r.term ≡ 0) × (polls' ≡ polls)
  Asks (elect i args replies before after rf count lt b voted given h e) polls polls' =
      polls' ≡ polls
  Asks (restart i rf h e) polls polls' = polls' ≡ polls

  pub data ReachPolls : Cluster C B → Past C → List RequestVoteArgs → Type 0 where
    begin_polls :
        {s : Cluster C B} {past : Past C}
        → IsInitial gob n s
        → past ≡ record { sent = []; acks = [] }
        → ReachPolls s past []
    next_polls :
        {s s' : Cluster C B} {past past' : Past C} {polls polls' : List RequestVoteArgs}
        → ReachPolls s past polls
        → (st : Step gob n s s') → Notes gob n st past past'
        → Asks st polls polls'
        → ReachPolls s' past' polls'

  pub ReachPolls-ReachPast :
      {s : Cluster C B} {past : Past C} {polls : List RequestVoteArgs}
      → ReachPolls s past polls
      → ReachPast gob n s past
  ReachPolls-ReachPast (begin_polls h e) = begin_past h e
  ReachPolls-ReachPast (next_polls r st d a) = next_past (ReachPolls-ReachPast r) st d

module _ {C : Type 0} where
  -- The log of a candidate, by what its request says of its end.
  abbrev pub IsEnd : RequestVoteArgs → List (LogEntry C) → Type 0
  IsEnd p log =
      (e : LogEntry C) × (get_elem? log p.last_log_index ≡ some e)
      × (e.term ≡ p.last_log_term)
      × (length log ≡ suc p.last_log_index)

  -- The candidate covers all that the peer has accepted in older terms and that the leaders between
  -- have.
  abbrev pub Safe : Leaders C → List (Ack C) → RequestVoteArgs → ℕ → Type 0
  Safe logs acks p q =
      (a : Ack C) (k u : ℕ)
      → In a acks
      → a.peer ≡ q
      → suc u ≡ p.term
      → a.term < p.term
      → Has a.log a.term k
      → Kept logs a.term u k
      → Covers p a.term k

  -- The log with which a candidate stood.
  abbrev pub Stood : Leaders C → RequestVoteArgs → List (LogEntry C) → Type 0
  Stood logs p log = IsEnd p log × Matched logs log × ((u : ℕ) × (suc u ≡ p.term) × UpTo u log)

  -- A leader that was elected: more than half of the peers voted for it, and it covers what they have
  -- accepted.
  pub record Elected (n : ℕ) (logs : Leaders C) (acks : List (Ack C)) (gs : List Grant) (t : ℕ)
      (l : List (LogEntry C)) : Type 0 where
    pub poll : RequestVoteArgs
    pub at_term : poll.term ≡ t
    pub voters : ℕ → Bool
    pub half : n < count_true n voters + count_true n voters
    pub winner : ℕ
    pub voted : (q : ℕ) → voters q ≡ true → In (grant q t winner) gs
    pub covers : (q : ℕ) → voters q ≡ true → Safe logs acks poll q
    pub first : List (LogEntry C)
    pub more : List (LogEntry C)
    pub is_log : l ≡ first ++ more
    pub own : OfTerm t more
    pub stood : Stood logs poll first

pub record PollInv {C B : Type 0} (gob : Gob (PersistData C) B) (n : ℕ) (s : Cluster C B)
    (past : Past C) (polls : List RequestVoteArgs) (logs : Leaders C) : Type 0 where
  pub voting : (i : ℕ) → Voting gob logs s.grants i (s.peer i)
  pub polled :
      (p : RequestVoteArgs)
      → In p polls
      → (p.term ≤ disk_term gob (s.peer p.candidate_id).persister.raft_state)
        × In (grant p.candidate_id p.term p.candidate_id) s.grants
        × ((log : List (LogEntry C)) × Stood logs p log
            × ((s.peer p.candidate_id).state ≡ candidate
                → (s.peer p.candidate_id).current_term ≡ p.term
                → (s.peer p.candidate_id).log ≡ log))
  pub once :
      (p q : RequestVoteArgs)
      → In p polls
      → In q polls
      → p.candidate_id ≡ q.candidate_id
      → p.term ≡ q.term
      → p ≡ q
  pub safe :
      (q t c : ℕ)
      → In (grant q t c) s.grants
      → ((l : List (LogEntry C)) × (logs t ≡ some l))
        ⊎ ((p : RequestVoteArgs) × In p polls
            × (p.term ≡ t)
            × (p.candidate_id ≡ c)
            × Safe logs past.acks p q)
  pub elected :
      (t : ℕ) (l : List (LogEntry C))
      → logs t ≡ some l
      → (t ≡ 0) ⊎ Elected n logs past.acks s.grants t l
