-- ===== src/Mr/Worker/Examples.antt =====
-- A job that counts letters, with an insertion sort in place of sort.Sort.
use Prim.Native.String.{String, len}
use mathlib.Core.List.{Memᴰ, Permᴰ}
use sjytker_my_mit.Base.{
  ℕ, ◌%◌, ◌≡◌, refl, ◌≢◌, none, some, List, [], ◌∷◌, map, arith, ℕ_discrete, ltb, same_text, ◌==◌,
  if◌then◌else◌, length, pos,
}
use sjytker_my_mit.Mr.Master.{got}
use sjytker_my_mit.Mr.Worker.{KeyValue, Disk, run_of, groups_of, ihash, do_reduce_task, turn}
use sjytker_my_mit.Mr.Worker.Order.{less}
use sjytker_my_mit.Mr.Worker.Groups.{once}
use sjytker_my_mit.Mr.Worker.Sorting.{sort, sort-Permᴰ, sort-Sorted}
use sjytker_my_mit.Mr.Worker.Values.{outputs}
use sjytker_my_mit.Mr.Worker.Job.{reduce_task, run_maps, all_values, map_reduce}

abbrev word_count : String → String → List KeyValue
word_count name content =
    record { key = content; value = "1" }
    ∷ record { key = "end"; value = name }
    ∷ record { key = content; value = "1" }
    ∷ []

abbrev name : ℕ → String
name i = if i == 0 then "a.txt" else "b.txt"

abbrev content : ℕ → String
content i = if i == 0 then "x" else "y"

abbrev reducef : String → List String → String
reducef key values = if ltb 3 (length values) then "many" else key

abbrev disk : Disk
disk = record {
  inputs = λ f. if same_text f "a.txt" then some "x" else some "y";
  inters = λ i r. none;
  outs = λ r. none;
}

map_reduce_example :
    (mid : Disk) × (end : Disk) × (lines : List (String × String)) × (run_maps len word_count 2 2
        name content
        (1 ∷ 0 ∷ 1 ∷ [])
        disk
      ≡ some mid)
    × (do_reduce_task sort reducef (reduce_task 2 2 1) mid ≡ some end)
    × (end.outs (pos 1) ≡ some lines)
    × ((key : String)
        → ihash len key % 2 ≡ 1
        → (values : List String) × Permᴰ values (all_values len word_count 2 2 name content key 0 2)
          × (outputs key lines ≡ map (reducef key) (once values)))
    × ((key : String) → ihash len key % 2 ≢ 1 → outputs key lines ≡ [])
map_reduce_example =
    map_reduce len word_count 2 2 name content sort sort-Permᴰ sort-Sorted reducef (1 ∷ 0 ∷ 1 ∷ [])
      disk 1 (omega arith) (refl, (refl, (refl, tt)))
      (λ i lt. elim (ℕ_discrete i 0) [
        | yes p ↦ Memᴰ.tail (Memᴰ.head p)
        | no d ↦ Memᴰ.head (omega arith)
      ])

-- The pairs that Map gives for "a.txt", and the calls of Reduce over them.
counted :
    groups_of 3 (sort (word_count "a.txt" "x")) ≡ ("end", "a.txt" ∷ []) ∷ ("x", "1" ∷ "1" ∷ []) ∷ []
unfolding groups_of sort run_of less
counted = refl

-- A worker that is told GOT without a task, as ReqTask does where it has none, panics.
no_task :
    turn len word_count sort reducef (record { task_reply_state = got; task = none }) disk ≡ none
unfolding turn
no_task = refl
