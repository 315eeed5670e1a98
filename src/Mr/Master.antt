-- ===== src/Mr/Master.antt =====
-- The master of the MapReduce library (mr/master.go, common.go, state.go, rpc.go): it hands tasks to
-- workers, watches for those that take too long, and moves from the map to the reduce stage.
pub mod Schedule
pub mod Phases
pub mod Total
mod Examples
use Prim.Native.String.{String}
use sjytker_my_mit.Base.{
  ℕ, zero, suc, ◌+◌, ◌-◌, ◌*◌, ◌/◌, ◌%◌, ◌≤◌, ◌<◌, ◌≡◌, refl, sym, ap, ◌∙◌, subst, ◌≢◌, ◌↔◌, ◌⊎◌,
  inl, inr, Bool, true, false, not, ◌&&◌, ◌||◌, Option, none, some, List, [], ◌∷◌, ◌++◌, arith,
  dec_lt, ℕ_discrete, ltb, leb, ◌==◌, if◌then◌else◌, ltb→lt, lt→ltb, leb→le, le→leb, ltb-false,
  leb-false, ==_iff, ==_refl, ==_false, tests, Bool-cases, Option-cases, ◌>>=◌, >>=-eq-some, length,
  get_elem?, set, take, drop, replicate, length-append, length-take, length-drop, length-replicate,
  length-set, get_elem?-some, get_elem?-none, get_elem?-lt, get_elem?-drop, get_elem?-take,
  get_elem?-append_left, get_elem?-append_right, get_elem?-set_self, get_elem?-set_ne, find, put,
  delete, find-put, find-delete, ℤ, pos, negsuc, pos_part, neg_part, sub_ℕ, ◌≤ℤ◌, leb_ℤ, eqb_ℤ,
  minus_one, eqb_ℤ→eq, eqb_ℤ-refl, +ℤ_parts, -ℤ_parts, eq_of_parts, int_laws, ◌+ℤ◌, ◌-ℤ◌,
}

-- IDLE, IN_QUEUE, IN_PROGRESS, COMPLETED, ERR
pub data Status : Type 0 where
  idle in_queue in_progress completed err : Status

-- The texts in the field `phase`.
pub data Phase : Type 0 where
  map map_barrier reduce reduce_barrier fin : Phase

-- GOT, BARRIER, FIN
pub data ReplyState : Type 0 where
  got barrier finished : ReplyState

pub record TaskState : Type 0 where
  pub status : Status
  pub worker_id : ℤ
  pub start_time : ℕ

pub record Task : Type 0 where
  pub done : Bool
  pub phase : Phase
  pub file_name : String
  pub imap : ℤ
  pub ireduce : ℤ
  pub n_map : ℕ
  pub n_reduce : ℕ

pub record Master : Type 0 where
  pub n_task : ℕ
  pub n_reduce : ℕ
  pub all_task : List TaskState
  pub files : List String
  pub seq : ℕ
  pub free_task_queue : List Task
  pub phase : Phase

pub record TaskReply : Type 0 where
  pub task_reply_state : ReplyState
  pub task : Option Task

-- strings.Contains(phase, "map")
unfoldable pub contains_map : Phase → Bool
contains_map map = true
contains_map map_barrier = true
contains_map _ = false

-- strings.Contains(phase, "reduce")
unfoldable pub contains_reduce : Phase → Bool
contains_reduce reduce = true
contains_reduce reduce_barrier = true
contains_reduce _ = false

abbrev pub idle_at : ℕ → TaskState
idle_at time = record { status = idle; worker_id = minus_one; start_time = time }

unfoldable pub new_master : List String → ℕ → ℕ → Master
new_master files n_reduce now = record {
  n_task = length files;
  n_reduce = n_reduce;
  all_task = replicate (length files) (idle_at now);
  files = files;
  seq = 0;
  free_task_queue = [];
  phase = map;
}

unfoldable pub done : Master → Bool
done m = elim m.phase [ fin ↦ true | _ ↦ false ]

-- A write to `m.allTask[i].Status`; out of range it panics.
unfoldable pub set_status : ℤ → Status → Master → Option Master
set_status (pos i) s m = do
  t ← get_elem? m.all_task i
  some (record m { all_task = set m.all_task i (record t { status = s }) })
set_status i s m = none

-- The index that a task of the running stage has in `allTask`.
unfoldable pub index_of : Phase → Task → ℤ
index_of map task = task.imap
index_of p task = task.ireduce

unfoldable pub hand_out : List Task → Master → Option (Master × TaskReply)
unfolding set_status index_of
hand_out [] m = some (m, record { task_reply_state = got; task = none })
hand_out (task ∷ rest) m = do
  m' ← set_status (index_of m.phase task) in_progress (record m { free_task_queue = rest })
  some (m', record { task_reply_state = got; task = some task })

-- ReqTask. Where no task is free the reply keeps its zero value, which reads as GOT.
unfoldable pub req_task : Master → Option (Master × TaskReply)
unfolding hand_out
req_task m = elim m.phase [
  | map_barrier ↦ some (m, record { task_reply_state = barrier; task = none })
  | reduce_barrier ↦ some (m, record { task_reply_state = barrier; task = none })
  | fin ↦ some (m, record { task_reply_state = finished; task = none })
  | _ ↦ hand_out m.free_task_queue m
]

unfoldable pub worker_register : Master → Master × ℕ
worker_register m = (record m { seq = m.seq + 1 }, m.seq)

-- ReportTask up to the start of the goroutine that runs `schedule`.
unfoldable pub report_task : Task → Master → Option Master
unfolding set_status contains_map contains_reduce
report_task task m = do
  m' ← (if contains_map task.phase then set_status task.imap completed m else some m)
  if contains_reduce task.phase then set_status task.ireduce completed m' else some m'

unfoldable pub get_task : Master → ℕ → Option Task
unfolding contains_map
get_task m i =
    if contains_map m.phase
    then (do
      file ← get_elem? m.files i
      some (record {
        done = false;
        phase = map;
        file_name = file;
        imap = pos i;
        ireduce = minus_one;
        n_map = m.n_task;
        n_reduce = m.n_reduce;
      }))
    else some (record {
      done = false;
      phase = reduce;
      file_name = "";
      imap = minus_one;
      ireduce = pos i;
      n_map = m.n_task;
      n_reduce = m.n_reduce;
    })

-- 10 seconds, in the nanoseconds of time.Time
abbrev pub time_limit : ℕ
time_limit = 10_000_000_000

unfoldable pub timed_out : ℕ → TaskState → Bool
timed_out now t = ltb (t.start_time + time_limit) now

-- What a loop of `schedule` does at one task, or at all of them: their new states, the tasks that it
-- puts into the queue, and its flags. `barrier` and `all_complete` start true and are only cleared,
-- `requeued` (the phase goes back) starts false and is only set.
pub record Sweep : Type 0 where
  pub tasks : List TaskState
  pub added : List Task
  pub barrier : Bool
  pub all_complete : Bool
  pub requeued : Bool

abbrev pub passes : TaskState → Sweep
passes t = record {
  tasks = t ∷ [];
  added = [];
  barrier = true;
  all_complete = true;
  requeued = false;
}

-- Appends the task to the queue and marks it IN_QUEUE.
unfoldable pub enqueue : Master → ℕ → TaskState → Option Sweep
unfolding get_task
enqueue m i t = do
  task ← get_task m i
  some (record (passes (record t { status = in_queue })) { added = task ∷ [] })

-- The body of the loop in phase "map".
unfoldable pub visit_map : Master → ℕ → Status → TaskState → Option Sweep
unfolding enqueue
visit_map m i idle t = do s ← enqueue m i t; some (record s { barrier = false })
visit_map m i in_queue t = some (record (passes t) { barrier = false })
visit_map m i _ t = some (passes t)

-- The body of the loop in phase "reduce".
unfoldable pub visit_reduce : Master → ℕ → ℕ → Status → TaskState → Option Sweep
unfolding enqueue timed_out
visit_reduce m now i idle t = do s ← enqueue m i t; some (record s { barrier = false })
visit_reduce m now i in_queue t = some (record (passes t) { barrier = false })
visit_reduce m now i in_progress t = if timed_out now t then enqueue m i t else some (passes t)
visit_reduce m now i _ t = some (passes t)

-- The body of the loops in phases "map_barrier" and "reduce_barrier".
unfoldable pub visit_barrier : Master → ℕ → ℕ → Status → TaskState → Option Sweep
unfolding enqueue timed_out
visit_barrier m now i completed t = some (passes t)
visit_barrier m now i in_progress t =
    if timed_out now t
    then (do s ← enqueue m i t; some (record s { all_complete = false; requeued = true }))
    else some (record (passes t) { all_complete = false })
visit_barrier m now i _ t = some (record (passes t) { all_complete = false })

-- A loop over `allTask` from index `i` on.
unfoldable pub sweep : (ℕ → Status → TaskState → Option Sweep) → ℕ → List TaskState → Option Sweep
sweep visit i [] =
    some (record { tasks = []; added = []; barrier = true; all_complete = true; requeued = false })
sweep visit i (t ∷ ts) = do
  s ← visit i t.status t
  rest ← sweep visit (i + 1) ts
  some (record {
    tasks = s.tasks ++ rest.tasks;
    added = s.added ++ rest.added;
    barrier = s.barrier && rest.barrier;
    all_complete = s.all_complete && rest.all_complete;
    requeued = s.requeued || rest.requeued;
  })

abbrev pub swept : Sweep → Phase → Master → Master
swept s p m = record m {
  all_task = s.tasks;
  free_task_queue = m.free_task_queue ++ s.added;
  phase = p;
}

unfoldable pub schedule_map : Master → Option Master
unfolding sweep visit_map
schedule_map m = do
  s ← sweep (visit_map m) 0 m.all_task
  some (swept s (if s.barrier then map_barrier else map) m)

unfoldable pub schedule_reduce : ℕ → Master → Option Master
unfolding sweep visit_reduce
schedule_reduce now m = do
  s ← sweep (visit_reduce m now) 0 m.all_task
  some (swept s (if s.barrier then reduce_barrier else reduce) m)

-- "initing reduce task"
unfoldable pub init_reduce : ℕ → Master → Master
init_reduce now m = record m {
  phase = reduce;
  free_task_queue = [];
  all_task = replicate m.n_reduce (idle_at now);
}

unfoldable pub schedule_map_barrier : ℕ → Master → Option Master
unfolding sweep visit_barrier init_reduce
schedule_map_barrier now m = do
  s ← sweep (visit_barrier m now) 0 m.all_task
  let m' = swept s (if s.requeued then map else map_barrier) m
  if s.all_complete then schedule_reduce now (init_reduce now m') else some m'

unfoldable pub schedule_reduce_barrier : ℕ → Master → Option Master
unfolding sweep visit_barrier
schedule_reduce_barrier now m = do
  s ← sweep (visit_barrier m now) 0 m.all_task
  let p : Phase = if s.requeued then reduce else reduce_barrier
  some (swept s (if s.all_complete then fin else p) m)

-- `now` is the time that the clock shows during the call.
unfoldable pub schedule : ℕ → Master → Option Master
schedule now m = elim m.phase [
  | map ↦ schedule_map m
  | map_barrier ↦ schedule_map_barrier now m
  | reduce ↦ schedule_reduce now m
  | reduce_barrier ↦ schedule_reduce_barrier now m
  | fin ↦ some m
]
