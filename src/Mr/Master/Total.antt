-- ===== src/Mr/Master/Total.antt =====
-- `schedule` does not panic: every task that it puts into the queue has its file.
use sjytker_my_mit.Base.{
  ℕ, ◌+◌, ◌≤◌, ◌<◌, ◌≡◌, refl, ◌≢◌, ◌⊎◌, inl, inr, false, Option, none, List, [], ◌∷◌, arith,
  if◌then◌else◌, Option-cases, length, get_elem?-some,
}
use sjytker_my_mit.Mr.Master.{
  Status, idle, in_queue, in_progress, completed, err, map, map_barrier, TaskState, Master,
  contains_map, Sweep, enqueue, visit_map, visit_reduce, visit_barrier, sweep, swept, schedule_map,
  schedule_reduce, init_reduce, schedule_map_barrier, schedule_reduce_barrier, schedule,
}

-- Each task of the map stage has a file.
abbrev pub HasFiles : Master → Type 0
HasFiles m = (contains_map m.phase ≡ false) ⊎ (length m.all_task ≤ length m.files)

enqueue-total :
    (m : Master) (i : ℕ) (t : TaskState) → HasFiles m → i < length m.all_task → enqueue m i t ≢ none
unfolding enqueue
enqueue-total m i t (inl r) lt = ground arith
enqueue-total m i t (inr le) lt = ground (arith, get_elem?-some m.files i (omega arith))

visit_map-total :
    (m : Master) (i : ℕ) (st : Status) (t : TaskState)
    → HasFiles m
    → i < length m.all_task
    → visit_map m i st t ≢ none
unfolding visit_map
visit_map-total m i idle t h lt = ground (arith, enqueue-total m i t h lt)
visit_map-total m i in_queue t h lt = ground arith
visit_map-total m i in_progress t h lt = ground arith
visit_map-total m i completed t h lt = ground arith
visit_map-total m i err t h lt = ground arith

visit_reduce-total :
    (m : Master) (now i : ℕ) (st : Status) (t : TaskState)
    → HasFiles m
    → i < length m.all_task
    → visit_reduce m now i st t ≢ none
unfolding visit_reduce
visit_reduce-total m now i idle t h lt = ground (arith, enqueue-total m i t h lt)
visit_reduce-total m now i in_queue t h lt = ground arith
visit_reduce-total m now i in_progress t h lt = ground (arith, enqueue-total m i t h lt)
visit_reduce-total m now i completed t h lt = ground arith
visit_reduce-total m now i err t h lt = ground arith

visit_barrier-total :
    (m : Master) (now i : ℕ) (st : Status) (t : TaskState)
    → HasFiles m
    → i < length m.all_task
    → visit_barrier m now i st t ≢ none
unfolding visit_barrier
visit_barrier-total m now i idle t h lt = ground arith
visit_barrier-total m now i in_queue t h lt = ground arith
visit_barrier-total m now i in_progress t h lt = ground (arith, enqueue-total m i t h lt)
visit_barrier-total m now i completed t h lt = ground arith
visit_barrier-total m now i err t h lt = ground arith

sweep-total :
    (visit : ℕ → Status → TaskState → Option Sweep) (n : ℕ)
    → ((i : ℕ) (st : Status) (t : TaskState) → i < n → visit i st t ≢ none)
    → (i : ℕ) (ts : List TaskState) → i + length ts ≤ n
    → sweep visit i ts ≢ none
unfolding sweep
sweep-total visit n h i [] le = ground arith
sweep-total visit n h i (t ∷ ts) le =
    ground (arith, h i t.status t (omega arith), sweep-total visit n h (i + 1) ts (omega arith))

schedule_reduce-total : (now : ℕ) (m : Master) → HasFiles m → schedule_reduce now m ≢ none
unfolding schedule_reduce
schedule_reduce-total now m h = ground (
  arith,
  sweep-total (visit_reduce m now) (length m.all_task) (λ i st t. visit_reduce-total m now i st t h)
      0 m.all_task (omega arith),
)

schedule_map-total : (m : Master) → HasFiles m → schedule_map m ≢ none
unfolding schedule_map
schedule_map-total m h = ground (
  arith,
  sweep-total (visit_map m) (length m.all_task) (λ i st t. visit_map-total m i st t h) 0 m.all_task
      (omega arith),
)

schedule_reduce_barrier-total :
    (now : ℕ) (m : Master) → HasFiles m → schedule_reduce_barrier now m ≢ none
unfolding schedule_reduce_barrier
schedule_reduce_barrier-total now m h = ground (
  arith,
  sweep-total (visit_barrier m now) (length m.all_task)
      (λ i st t. visit_barrier-total m now i st t h) 0 m.all_task (omega arith),
)

reduces : (now : ℕ) (m : Master) → contains_map (init_reduce now m).phase ≡ false
unfolding contains_map init_reduce
reduces now m = refl

schedule_map_barrier-total : (now : ℕ) (m : Master) → HasFiles m → schedule_map_barrier now m ≢ none
unfolding schedule_map_barrier
schedule_map_barrier-total now m h none_m =
    elim (Option-cases (sweep (visit_barrier m now) 0 m.all_task)) [
      | inl panics ↦
          sweep-total (visit_barrier m now) (length m.all_task)
            (λ i st t. visit_barrier-total m now i st t h) 0 m.all_task (omega arith) panics
      | inr (s, e) ↦
          let next = init_reduce now (swept s (if s.requeued then map else map_barrier) m) in
          ground (arith, schedule_reduce-total now next (inl (reduces now _)))
    ]

-- A call of `schedule` does not panic, where in the map stage each task has a file.
pub schedule-total :
    (now : ℕ) (m : Master)
    → (contains_map m.phase ≡ false) ⊎ (length m.all_task ≤ length m.files)
    → schedule now m ≢ none
unfolding schedule
schedule-total now m h = ground (
  arith,
  schedule_map-total m h,
  schedule_reduce-total now m h,
  schedule_map_barrier-total now m h,
  schedule_reduce_barrier-total now m h,
)
