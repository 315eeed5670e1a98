-- ===== src/Mr/Master/Examples.antt =====
-- Runs of the MapReduce master.
use sjytker_my_mit.Base.{
  arith, inr, ◌≢◌, ◌+◌, ◌≡◌, refl, false, none, some, List, [], ◌∷◌, ◌==◌, if◌then◌else◌, replicate,
  pos, minus_one,
}
use sjytker_my_mit.Mr.Master.{
  Status, in_queue, in_progress, completed, Phase, map, map_barrier, reduce, reduce_barrier, got,
  TaskState, Task, Master, req_task, report_task, time_limit, schedule_reduce, schedule,
}
use sjytker_my_mit.Mr.Master.Phases.{Follow, schedule-Follow}
use sjytker_my_mit.Mr.Master.Total.{schedule-total}
use sjytker_my_mit.Mr.Master.Schedule.{queued_at, reduce_tasks, schedule-starts_reduce}

abbrev task_state : Status → TaskState
task_state status = record { status = status; worker_id = minus_one; start_time = 0 }

-- Two map tasks and one reduce task.
abbrev master : Phase → List TaskState → List Task → Master
master phase tasks queue = record {
  n_task = 2;
  n_reduce = 1;
  all_task = tasks;
  files = "a" ∷ "b" ∷ [];
  seq = 0;
  free_task_queue = queue;
  phase = phase;
}

abbrev map_task : Task
map_task = record {
  done = false;
  phase = map;
  file_name = "a";
  imap = pos 0;
  ireduce = minus_one;
  n_map = 2;
  n_reduce = 1;
}

abbrev mapped : Master
mapped = master map_barrier (task_state completed ∷ task_state completed ∷ []) []

mapped_starts_reduce :
    schedule 5 mapped
    ≡ some (record mapped {
      phase = if mapped.n_reduce == 0 then reduce_barrier else reduce;
      all_task = replicate mapped.n_reduce (queued_at 5);
      free_task_queue = reduce_tasks mapped.n_task mapped.n_reduce 0 mapped.n_reduce;
    })
mapped_starts_reduce = schedule-starts_reduce 5 mapped refl (refl, (refl, tt))

-- In the map stage with nothing queued, a worker is told GOT and is given no task.
empty_handed :
    req_task (master map (task_state in_progress ∷ task_state in_progress ∷ []) [])
    ≡ some (
      master map (task_state in_progress ∷ task_state in_progress ∷ []) [],
      record { task_reply_state = got; task = none },
    )
unfolding req_task
empty_handed = refl

-- A late report of map task 0 in the reduce stage marks reduce task 0 as completed.
late_report :
    report_task map_task (master reduce (task_state in_progress ∷ []) [])
    ≡ some (master reduce (task_state completed ∷ []) [])
unfolding report_task
late_report = refl

-- A reduce task that took too long is queued again, and the phase goes to the barrier, where nobody
-- is given a task.
stuck :
    schedule (time_limit + 1) (master reduce (task_state in_progress ∷ []) [])
    ≡ some (master reduce_barrier (task_state in_queue ∷ []) (reduce_tasks 2 1 0 1))
unfolding schedule schedule_reduce
stuck = refl

schedule-Follow_example :
    Follow mapped.all_task map_barrier (if mapped.n_reduce == 0 then reduce_barrier else reduce)
schedule-Follow_example =
    schedule-Follow 5 mapped
      (record mapped {
        phase = if mapped.n_reduce == 0 then reduce_barrier else reduce;
        all_task = replicate mapped.n_reduce (queued_at 5);
        free_task_queue = reduce_tasks mapped.n_task mapped.n_reduce 0 mapped.n_reduce;
      })
      mapped_starts_reduce

schedule-total_example : schedule 5 mapped ≢ none
schedule-total_example = schedule-total 5 mapped (inr (omega arith))
