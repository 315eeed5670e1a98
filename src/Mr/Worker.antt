-- ===== src/Mr/Worker.antt =====
-- The worker of the MapReduce library (mr/worker.go): what it does with a task, and how it goes on.
-- The application's functions, the hash of hash/fnv and sort.Sort are parameters.
pub mod Order
pub mod Buckets
pub mod Groups
pub mod Values
pub mod Job
pub mod Sorting
mod Examples
use Prim.Native.String.{String}
use sjytker_my_mit.Base.{
  true, false, ℕ, zero, suc, ◌+◌, ◌-◌, ◌*◌, ◌/◌, ◌%◌, ◌≤◌, ◌<◌, ◌≡◌, refl, sym, ap, ◌∙◌, subst, ◌≢◌,
  ◌↔◌, ◌⊎◌, inl, inr, Bool, true, false, not, ◌&&◌, ◌||◌, Option, none, some, List, [], ◌∷◌, ◌++◌,
  map, arith, dec_lt, ℕ_discrete, ltb, leb, same_text, same_text_iff, ◌==◌, if◌then◌else◌, ltb→lt,
  lt→ltb, leb→le, le→leb, ltb-false, leb-false, ==_iff, ==_refl, ==_false, tests, Bool-cases,
  Option-cases, ◌>>=◌, >>=-eq-some, length, get_elem?, set, take, drop, replicate, length-append,
  length-take, length-drop, length-replicate, length-set, get_elem?-some, get_elem?-none,
  get_elem?-lt, get_elem?-drop, get_elem?-take, get_elem?-append_left, get_elem?-append_right,
  get_elem?-set_self, get_elem?-set_ne, find, put, delete, find-put, find-put_self, find-put_ne,
  find-delete_self, find-delete_ne, find-delete, ℤ, pos, negsuc, pos_part, neg_part, sub_ℕ, ◌≤ℤ◌,
  leb_ℤ, eqb_ℤ, minus_one, eqb_ℤ→eq, eqb_ℤ-refl, +ℤ_parts, -ℤ_parts, eq_of_parts, int_laws, ◌+ℤ◌,
  ◌-ℤ◌,
}
use sjytker_my_mit.Mr.Master.{
  map as map_phase, reduce as reduce_phase, ReplyState, got, barrier, finished, Task, TaskReply,
}

pub record KeyValue : Type 0 where
  pub key : String
  pub value : String

-- The files: the inputs by name, the files `mr-i-r` of map tasks, and the files `mr-out-r` with the key
-- and the output of each line. A JSON file is the list of the values that were encoded into it.
pub record Disk : Type 0 where
  pub inputs : String → Option String
  pub inters : ℤ → ℤ → Option (List KeyValue)
  pub outs : ℤ → Option (List (String × String))

-- os.Create of `mr-i-r`, and the values encoded into it.
unfoldable pub create_inter : ℤ → ℤ → List KeyValue → Disk → Disk
create_inter imap ireduce par disk = record disk {
  inters = λ i r. if eqb_ℤ i imap && eqb_ℤ r ireduce then some par else disk.inters i r;
}

unfoldable pub create_out : ℤ → List (String × String) → Disk → Disk
create_out ireduce lines disk = record disk {
  outs = λ r. if eqb_ℤ r ireduce then some lines else disk.outs r;
}

-- The loop that saves the partitions, from number `i` on.
unfoldable pub save_partitions : ℤ → ℕ → List (List KeyValue) → Disk → Disk
unfolding create_inter
save_partitions imap i [] disk = disk
save_partitions imap i (par ∷ pars) disk =
    save_partitions imap (i + 1) pars (create_inter imap (pos i) par disk)

-- The files that a reduce task reads, of `left` map tasks from number `i` on; one that is missing
-- ends the process.
unfoldable pub read_inters : ℤ → ℕ → ℕ → Disk → Option (List KeyValue)
read_inters ireduce i zero disk = some []
read_inters ireduce i (suc left) disk = do
  kvs ← disk.inters (pos i) ireduce
  rest ← read_inters ireduce (i + 1) left disk
  some (kvs ++ rest)

-- The loop over j: the values of the pairs at the front that have this key, and the pairs behind.
unfoldable pub run_of : String → List KeyValue → List String × List KeyValue
run_of key [] = ([], [])
run_of key (kv ∷ kvs) =
    let (values, rest) = run_of key kvs in
    if same_text kv.key key then (kv.value ∷ values, rest) else ([], kv ∷ kvs)

-- The loop over i: the calls of Reduce, each with a key and its values. Each round drops a pair, so
-- the number of pairs is fuel enough.
unfoldable pub groups_of : ℕ → List KeyValue → List (String × List String)
unfolding run_of
groups_of zero kvs = []
groups_of (suc fuel) [] = []
groups_of (suc fuel) (kv ∷ kvs) =
    let (values, rest) = run_of kv.key kvs in (kv.key, kv.value ∷ values) ∷ groups_of fuel rest

-- h.Sum32() & 0x7fffffff, for the sum that the hash of a text has.
unfoldable pub ihash : (String → ℕ) → String → ℕ
ihash sum32 key = sum32 key % 2_147_483_648

module _ (sum32 : String → ℕ) where
  -- The loop over the pairs that Map gave. A modulus of 0 panics.
  unfoldable pub partition :
      ℕ → List KeyValue → List (List KeyValue) → Option (List (List KeyValue))
  unfolding ihash
  partition n_reduce [] partitions = some partitions
  partition n_reduce (kv ∷ kvs) partitions = if n_reduce == 0 then none else do
    let bucket = ihash sum32 kv.key % n_reduce
    par ← get_elem? partitions bucket
    partition n_reduce kvs (set partitions bucket (par ++ kv ∷ []))

  -- doMapTask; `none` is log.Fatal.
  unfoldable pub do_map_task : (String → String → List KeyValue) → Task → Disk → Option Disk
  unfolding partition save_partitions
  do_map_task mapf task disk = do
    content ← disk.inputs task.file_name
    let inter = mapf task.file_name content
    partitions ← partition task.n_reduce inter (replicate task.n_reduce [])
    some (save_partitions task.imap 0 partitions disk)

-- doReduceTask; `none` is log.Fatal.
unfoldable pub do_reduce_task :
    (List KeyValue → List KeyValue) → (String → List String → String) → Task → Disk → Option Disk
unfolding read_inters groups_of create_out
do_reduce_task sort reducef task disk = do
  intermediate ← read_inters task.ireduce 0 task.n_map disk
  let sorted = sort intermediate
  some (
      create_out task.ireduce
        (map (λ (key, values). (key, reducef key values)) (groups_of (length sorted) sorted)) disk)

-- How a round of `run` ends, after the work: the worker stops, sleeps, or reports its task.
pub data Turn : Type 0 where
  stops sleeps : Turn
  reports : Task → Turn

-- A round of `run`, from the reply to its request on. A GOT without a task panics, at `task.Phase`.
unfoldable pub turn :
    (sum32 : String → ℕ)
    → (mapf : String → String → List KeyValue) → (sort : List KeyValue → List KeyValue)
    → (reducef : String → List String → String) → TaskReply
    → Disk
    → Option (Disk × Turn)
unfolding do_map_task do_reduce_task
turn sum32 mapf sort reducef reply disk = elim reply.task_reply_state [
  | finished ↦ some (disk, stops)
  | barrier ↦ some (disk, sleeps)
  | got ↦ do
    task ← reply.task
    elim task.phase [
      | map_phase ↦ do disk' ← do_map_task sum32 mapf task disk; some (disk', reports task)
      | reduce_phase ↦ do disk' ← do_reduce_task sort reducef task disk; some (disk', reports task)
      | _ ↦ some (disk, sleeps)
    ]
]

-- run, for the replies that its requests get, until the worker stops or there are no more: the files,
-- the tasks that were reported, and whether it stopped.
unfoldable pub run :
    (sum32 : String → ℕ)
    → (mapf : String → String → List KeyValue) → (sort : List KeyValue → List KeyValue)
    → (reducef : String → List String → String) → List TaskReply
    → Disk
    → Option (Disk × List Task × Bool)
unfolding turn
run sum32 mapf sort reducef [] disk = some (disk, [], false)
run sum32 mapf sort reducef (reply ∷ replies) disk = do
  (disk', end) ← turn sum32 mapf sort reducef reply disk
  elim end [
    | stops ↦ some (disk', [], true)
    | sleeps ↦ run sum32 mapf sort reducef replies disk'
    | reports task ↦ do
      (last, tasks, stopped) ← run sum32 mapf sort reducef replies disk'
      some (last, task ∷ tasks, stopped)
  ]
