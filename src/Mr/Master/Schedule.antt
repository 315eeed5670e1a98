-- ===== src/Mr/Master/Schedule.antt =====
-- What `schedule` does to the tasks and to the phase.
use sjytker_my_mit.Base.{
  ℕ, zero, suc, ◌+◌, ◌≡◌, refl, true, false, some, List, [], ◌∷◌, arith, ◌==◌, if◌then◌else◌,
  >>=-eq-some, replicate, pos, minus_one,
}
use sjytker_my_mit.Mr.Master.{
  Status, in_queue, completed, map_barrier, reduce, reduce_barrier, TaskState, Task, Master,
  contains_map, idle_at, Sweep, visit_reduce, visit_barrier, sweep, swept, schedule_reduce,
  init_reduce, schedule_map_barrier, schedule,
}

-- Every task is COMPLETED.
abbrev pub AllCompleted : List TaskState → Type 0
AllCompleted [] = Unit
AllCompleted (t ∷ ts) = (t.status ≡ completed) × AllCompleted ts

-- The reduce tasks i .. i + k - 1 of a job with so many map and reduce tasks.
abbrev pub reduce_tasks : ℕ → ℕ → ℕ → ℕ → List Task
reduce_tasks n_map n_reduce i zero = []
reduce_tasks n_map n_reduce i (suc k) =
    record {
      done = false;
      phase = reduce;
      file_name = "";
      imap = minus_one;
      ireduce = pos i;
      n_map = n_map;
      n_reduce = n_reduce;
    }
    ∷ reduce_tasks n_map n_reduce (i + 1) k

abbrev all_done : List TaskState → Sweep
all_done ts = record {
  tasks = ts;
  added = [];
  barrier = true;
  all_complete = true;
  requeued = false;
}

abbrev pub queued_at : ℕ → TaskState
queued_at time = record { status = in_queue; worker_id = minus_one; start_time = time }

-- A sweep over completed tasks leaves them, and finds all of them complete.
sweep-completed :
    (m : Master) (now i : ℕ) (ts : List TaskState)
    → AllCompleted ts
    → sweep (visit_barrier m now) i ts
      ≡ some
          (record { tasks = ts; added = []; barrier = true; all_complete = true; requeued = false })
unfolding sweep visit_barrier
sweep-completed m now i [] h = refl
sweep-completed m now i (t ∷ ts) (c, h) = rw (c, sweep-completed m now (i + 1) ts h)

-- A sweep over k idle tasks queues all of them, in order.
sweep-idle :
    (m : Master) (now time i k : ℕ)
    → contains_map m.phase ≡ false
    → sweep (visit_reduce m now) i (replicate k (idle_at time))
      ≡ some (record {
        tasks = replicate k (queued_at time);
        added = reduce_tasks m.n_task m.n_reduce i k;
        barrier = k == 0;
        all_complete = true;
        requeued = false;
      })
unfolding sweep visit_reduce
sweep-idle m now time i zero h = refl
sweep-idle m now time i (suc k) h = rw (h, sweep-idle m now time (i + 1) k h) (ground arith)

schedule_map_barrier-completed :
    (now : ℕ) (m : Master)
    → AllCompleted m.all_task
    → schedule_map_barrier now m
      ≡ schedule_reduce now (init_reduce now (swept (all_done m.all_task) map_barrier m))
unfolding schedule_map_barrier
schedule_map_barrier-completed now m h = rw (sweep-completed m now 0 m.all_task h)

schedule_reduce-idle :
    (now : ℕ) (m : Master)
    → schedule_reduce now (init_reduce now m)
      ≡ some (record m {
        phase = if m.n_reduce == 0 then reduce_barrier else reduce;
        all_task = replicate m.n_reduce (queued_at now);
        free_task_queue = reduce_tasks m.n_task m.n_reduce 0 m.n_reduce;
      })
unfolding schedule_reduce init_reduce contains_map
schedule_reduce-idle now m = rw (sweep-idle (init_reduce now m) now now 0 m.n_reduce refl)

-- When every map task is completed, `schedule` at the map barrier starts the reduce stage: all
-- nReduce tasks are queued, each once and in order, and nothing else is. With no reduce task the
-- phase is already the reduce barrier.
pub schedule-starts_reduce :
    (now : ℕ) (m : Master)
    → m.phase ≡ map_barrier
    → AllCompleted m.all_task
    → schedule now m
      ≡ some (record m {
        phase = if m.n_reduce == 0 then reduce_barrier else reduce;
        all_task = replicate m.n_reduce (queued_at now);
        free_task_queue = reduce_tasks m.n_task m.n_reduce 0 m.n_reduce;
      })
unfolding schedule
schedule-starts_reduce now m p h = ground (
  arith,
  schedule_map_barrier-completed now m h,
  schedule_reduce-idle now (swept (all_done m.all_task) map_barrier m),
)

-- A loop body at the barrier clears its flag at every task that is not completed.
visit_barrier_complete :
    (m : Master) (now i : ℕ) (st : Status) (t : TaskState) {v : Sweep}
    → visit_barrier m now i st t ≡ some v
    → v.all_complete ≡ true
    → st ≡ completed
unfolding visit_barrier
visit_barrier_complete m now i st t e h = ground arith

-- A sweep that finds all tasks complete has seen nothing else.
pub sweep-AllCompleted :
    (m : Master) (now i : ℕ) (ts : List TaskState) {s : Sweep}
    → sweep (visit_barrier m now) i ts ≡ some s
    → s.all_complete ≡ true
    → AllCompleted ts
unfolding sweep
sweep-AllCompleted m now i [] e h = tt
sweep-AllCompleted m now i (t ∷ ts) {s} e h =
    let (v, e1, k1) = >>=-eq-some (visit_barrier m now i t.status t) _ e in
    let (rest, e2, k2) = >>=-eq-some (sweep (visit_barrier m now) (i + 1) ts) _ k1 in
    (
      visit_barrier_complete m now i t.status t {v = v} e1 (ground arith),
      sweep-AllCompleted m now (i + 1) ts {s = rest} e2 (ground arith),
    )

visit_barrier-requeued :
    (m : Master) (now i : ℕ) (st : Status) (t : TaskState) {v : Sweep}
    → visit_barrier m now i st t ≡ some v
    → v.requeued ≡ true
    → v.all_complete ≡ false
unfolding visit_barrier
visit_barrier-requeued m now i st t e h = ground arith
