-- ===== src/Mr/Master/Phases.antt =====
-- The phases that `schedule` goes through.
use sjytker_my_mit.Base.{
  ℕ, ◌≡◌, refl, ◌⊎◌, inl, inr, some, List, arith, if◌then◌else◌, Bool-cases, >>=-eq-some,
}
use sjytker_my_mit.Mr.Master.{
  Phase, map, map_barrier, reduce, reduce_barrier, fin, TaskState, Master, visit_map, visit_reduce,
  visit_barrier, sweep, swept, schedule_map, schedule_reduce, init_reduce, schedule_map_barrier,
  schedule_reduce_barrier, schedule,
}
use sjytker_my_mit.Mr.Master.Schedule.{AllCompleted, sweep-AllCompleted}

-- Where `schedule` may go from a phase: to the barrier and back within a stage, and to the next stage
-- only with all tasks completed.
abbrev pub Follow : List TaskState → Phase → Phase → Type 0
Follow tasks map q = (q ≡ map) ⊎ (q ≡ map_barrier)
Follow tasks map_barrier q =
    ((q ≡ map_barrier) ⊎ (q ≡ map)) ⊎ (AllCompleted tasks × ((q ≡ reduce) ⊎ (q ≡ reduce_barrier)))
Follow tasks reduce q = (q ≡ reduce) ⊎ (q ≡ reduce_barrier)
Follow tasks reduce_barrier q =
    ((q ≡ reduce_barrier) ⊎ (q ≡ reduce)) ⊎ (AllCompleted tasks × (q ≡ fin))
Follow tasks fin q = q ≡ fin

schedule_map-Follow :
    (m : Master) {m' : Master} → schedule_map m ≡ some m' → Follow m.all_task map m'.phase
unfolding schedule_map
schedule_map-Follow m e =
    let (s, f, k) = >>=-eq-some (sweep (visit_map m) 0 m.all_task) _ e in ground arith

schedule_reduce-Follow :
    (now : ℕ) (m : Master) {m' : Master}
    → schedule_reduce now m ≡ some m'
    → Follow m.all_task reduce m'.phase
unfolding schedule_reduce
schedule_reduce-Follow now m e =
    let (s, f, k) = >>=-eq-some (sweep (visit_reduce m now) 0 m.all_task) _ e in ground arith

schedule_reduce_barrier-Follow :
    (now : ℕ) (m : Master) {m' : Master}
    → schedule_reduce_barrier now m ≡ some m'
    → Follow m.all_task reduce_barrier m'.phase
unfolding schedule_reduce_barrier
schedule_reduce_barrier-Follow now m e =
    let (s, f, k) = >>=-eq-some (sweep (visit_barrier m now) 0 m.all_task) _ e in
    elim (Bool-cases s.all_complete) [
      | inl t ↦ inr (sweep-AllCompleted m now 0 m.all_task f t, ground arith)
      | inr n ↦ inl (ground arith)
    ]

schedule_map_barrier-Follow :
    (now : ℕ) (m : Master) {m' : Master}
    → schedule_map_barrier now m ≡ some m'
    → Follow m.all_task map_barrier m'.phase
unfolding schedule_map_barrier
schedule_map_barrier-Follow now m {m'} e =
    let (s, f, k) = >>=-eq-some (sweep (visit_barrier m now) 0 m.all_task) _ e in
    elim (Bool-cases s.all_complete) [
      | inl t ↦
          let next = init_reduce now (swept s (if s.requeued then map else map_barrier) m) in
          inr (
            sweep-AllCompleted m now 0 m.all_task f t,
            schedule_reduce-Follow now next {m' = m'} (ground arith),
          )
      | inr n ↦ inl (ground arith)
    ]

follows :
    (now : ℕ) (m : Master) (p : Phase) {m' : Master}
    → m.phase ≡ p
    → schedule now m ≡ some m'
    → Follow m.all_task p m'.phase
unfolding schedule
follows now m map {m'} h e = schedule_map-Follow m {m' = m'} (ground arith)
follows now m map_barrier {m'} h e = schedule_map_barrier-Follow now m {m' = m'} (ground arith)
follows now m reduce {m'} h e = schedule_reduce-Follow now m {m' = m'} (ground arith)
follows now m reduce_barrier {m'} h e =
    schedule_reduce_barrier-Follow now m {m' = m'} (ground arith)
follows now m fin h e = ground arith

-- A call of `schedule` that does not panic goes along the phases: it stays in a stage, at work or at
-- its barrier, and it leaves the map stage for the reduce stage, or the reduce stage for the end,
-- only from the barrier and with all tasks of the stage completed.
pub schedule-Follow :
    (now : ℕ) (m m' : Master) → schedule now m ≡ some m' → Follow m.all_task m.phase m'.phase
schedule-Follow now m m' e = follows now m m.phase {m' = m'} refl e
