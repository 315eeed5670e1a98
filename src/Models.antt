-- ===== src/Models.antt =====
-- The specification of a key-value store that the repository checks histories against
-- (models/kv.go): one key, and whether an output is right for an input.
use Prim.Native.String.{String, ◌++◌ as ◌++S◌}
use sjytker_my_mit.Base.{
  ℕ, Bool, true, Option, none, some, List, [], ◌∷◌, same_text, ◌==◌, if◌then◌else◌,
}

-- `op` is 0 for get, 1 for put and 2 for append.
pub record KvInput : Type 0 where
  pub op : ℕ
  pub key : String
  pub value : String

pub record KvOutput : Type 0 where
  pub value : String

-- Partition gives the operations of one key in their order.
unfoldable pub partition_of : String → List (KvInput × KvOutput) → List (KvInput × KvOutput)
partition_of key [] = []
partition_of key (o ∷ history) =
    let rest = partition_of key history in if same_text o.0.key key then o ∷ rest else rest

-- Init
unfoldable pub init : String
init = ""

-- Step
unfoldable pub step : String → KvInput → KvOutput → Bool × String
step state inp out =
    if inp.op == 0
    then (same_text out.value state, state)
    else if inp.op == 1
    then (true, inp.value)
    else (true, state ++S inp.value)

-- A sequence of operations one after the other: the last state, or `none` where a step is refused.
unfoldable pub steps : String → List (KvInput × KvOutput) → Option String
unfolding step
steps state [] = some state
steps state ((inp, out) ∷ history) =
    let (ok, next) = step state inp out in
    let rest = steps next history in if ok then rest else none
