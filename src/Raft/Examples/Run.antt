-- ===== src/Raft/Examples/Run.antt =====
-- Peers, entries and an encoding to run the code on.
use sjytker_my_mit.Base.{ℕ, refl, Option, none, some, List, [], ◌∷◌, arith, false, ℤ, minus_one}
use sjytker_my_mit.Raft.State.{Role, Command, LogEntry, Raft}
use sjytker_my_mit.Raft.Persist.{Gob, PersistData}

-- The bytes of a value are the value.
abbrev pub Bytes : Type 0
Bytes = PersistData ℕ

abbrev pub gob : Gob (PersistData ℕ) Bytes
gob = record {
  encode = λ a. a;
  decode = λ a. some a;
  size = λ a. 1;
  decode-encode = λ a. refl;
  size-encode = λ a. omega arith;
}

-- What a run gives, or `d` where it panics.
abbrev pub run {ℓ} : {A : Type ℓ} → Option A → A → A
run none d = d
run (some a) d = a

abbrev pub entry : ℕ → ℕ → LogEntry ℕ
entry c t = record { command = Command.op c; term = t }

-- One of three peers, with these entries behind the first one.
abbrev pub peer :
    (me : ℕ)
    → Role
    → (term : ℕ) → List (LogEntry ℕ)
    → (commit : ℕ) → (next match : List ℤ) → Raft ℕ Bytes
peer me role term entries commit next matched = record {
  peers = 3;
  me = me;
  dead = false;
  state = role;
  current_term = term;
  vote_for = minus_one;
  log = record { command = Command.message ""; term = 0 } ∷ entries;
  commit_index = commit;
  last_applied = 0;
  next_index = next;
  match_index = matched;
  last_snapshot_index = 0;
  last_snapshot_term = 0;
  persister = record { raft_state = none; snapshot = none };
  timers = [];
  notified = 0;
}
