-- ===== src/Raft/Apply.antt =====
-- Apply (raft.go): committed entries go to the service in order.
pub mod Order
use Prim.Native.String.{String}
use text.Mathlib.Text.{◌==◌ as str_eq}
use sjytker_my_mit.Base.{
  ℕ, zero, suc, ◌+◌, ◌-◌, Bool, true, false, Option, none, some, List, [], ◌∷◌, ltb, if◌then◌else◌,
  ◌>>=◌,
}
use sjytker_my_mit.Raft.State.{Command, nothing, message, op, ApplyMsg, reset_apply, Raft}
use sjytker_my_mit.Raft.Role.{notify_apply}
use sjytker_my_mit.Raft.Log.{get_real_log_index, log_at}

abbrev pub install_message : String
install_message = "installSnapshot"

-- msg.Command == "installSnapshot"
unfoldable pub is_install : {C : Type 0} → Command C → Bool
is_install nothing = false
is_install (message s) = str_eq s install_message
is_install (op c) = false

module _ {C B : Type 0} where
  -- The loop over the indices from `i` on, with the rounds that are left.
  unfoldable pub collect : Raft C B → ℕ → ℕ → Option (List (ApplyMsg C))
  unfolding get_real_log_index log_at
  collect rf zero i = some []
  collect rf (suc k) i = do
    entry ← log_at rf (get_real_log_index rf i)
    rest ← collect rf k (i + 1)
    some (record { command_valid = true; command = entry.command; command_index = i } ∷ rest)

  -- The messages of one round of Apply; the slice that it makes has no negative capacity.
  unfoldable pub pending : Raft C B → Option (List (ApplyMsg C))
  unfolding collect
  pending rf =
      if ltb rf.last_applied rf.last_snapshot_index
      then some (
          record {
            command_valid = false;
            command = message install_message;
            command_index = rf.last_snapshot_index;
          }
          ∷ [])
      else if ltb rf.commit_index rf.last_applied
      then none
      else collect rf (rf.commit_index - rf.last_applied) (rf.last_applied + 1)

  -- What follows the delivery of one message.
  unfoldable pub applied : ApplyMsg C → Raft C B → Raft C B
  unfolding is_install
  applied msg rf = record rf {
    last_applied = msg.command_index;
    commit_index = if is_install msg.command then msg.command_index else rf.commit_index;
  }

  unfoldable pub apply_all : List (ApplyMsg C) → Raft C B → Raft C B
  unfolding applied
  apply_all [] rf = rf
  apply_all (msg ∷ msgs) rf = apply_all msgs (applied msg rf)

  -- The goroutine that applies, where the apply timer fires: it sends on the channel that it alone
  -- reads, and waits for ever where the channel is full.
  unfoldable pub apply_timer : Raft C B → Option (Raft C B)
  unfolding notify_apply
  apply_timer rf = notify_apply rf

  -- Apply where no other handler runs between its locks: the messages, and the state after them.
  unfoldable pub apply : Raft C B → Option (Raft C B × List (ApplyMsg C))
  unfolding pending apply_all
  apply rf = do
    msgs ← pending rf
    let rf' = apply_all msgs rf
    some (record rf' { timers = reset_apply ∷ rf'.timers }, msgs)

  -- The same goroutine, where it receives from the channel, before Apply.
  unfoldable pub receive_notify : Raft C B → Option (Raft C B)
  receive_notify rf =
      if ltb 0 rf.notified then some (record rf { notified = rf.notified - 1 }) else none
