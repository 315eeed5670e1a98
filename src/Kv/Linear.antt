-- ===== src/Kv/Linear.antt =====
-- The order of the log is one in which the store of models/kv.go accepts what the servers answer.
use Prim.Native.String.{String, ◌++◌ as ◌++S◌}
use sjytker_my_mit.Base.{
  ℕ, Bool, not, ◌&&◌, ◌||◌, some, List, [], ◌∷◌, Option, ◌==◌, same_text, if◌then◌else◌,
}
use sjytker_my_mit.Models.{KvInput, KvOutput}
use sjytker_my_mit.Kv.{Op, read, KvServer, check_applied, execute}
use sjytker_my_mit.Kv.Once.{changes, is_retry}

-- The number that models/kv.go has for a method.
abbrev pub number : String → ℕ
number method = if same_text method "Get" then 0 else if same_text method "Put" then 1 else 2

abbrev pub known : Op → Bool
known op = same_text op.method "Get" || changes op

-- The message id of each client's last change, after one more operation.
abbrev pub last_ids : Op → (ℕ → Option ℕ) → ℕ → Option ℕ
last_ids op last c = if changes op && op.client_id == c then some op.msg_id else last c

module _ {B : Type 0} where
  -- What the clients see of the operations of a log: each with the value that the server reads where
  -- it answers, without the retries of changes, which belong to an operation that is there already.
  -- A retry has the message id of its client's last change; `last` gives that id at the start.
  unfoldable pub history : (ℕ → Option ℕ) → List Op → KvServer B → List (KvInput × KvOutput)
  unfolding execute
  history last [] kv = []
  history last (op ∷ ops) kv =
      let kv' = execute op kv in
      let rest = history (last_ids op last) ops kv' in
      if known op && not (changes op && is_retry (last op.client_id) op.msg_id)
      then (
        record { op = number op.method; key = op.key; value = op.value },
        record { value = read kv'.store op.key },
      )
        ∷ rest
      else rest

  abbrev seen : Op → KvServer B → KvInput × KvOutput
  seen op kv = (
    record { op = number op.method; key = op.key; value = op.value },
    record { value = read (execute op kv).store op.key },
  )

  abbrev recorded : Op → KvServer B → Bool
  recorded op kv = known op && not (changes op && check_applied op.msg_id op.client_id kv)
