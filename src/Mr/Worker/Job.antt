-- ===== src/Mr/Worker/Job.antt =====
-- A whole job: the map tasks of all files, in any order and any of them again, and then a reduce task.
use Prim.Native.String.{String}
use mathlib.Core.List.{Memᴰ, Permᴰ}
use mathlib.Core.List.Memᴰ
use sjytker_my_mit.Base.{
  ℕ, zero, suc, ◌+◌, ◌%◌, ◌≤◌, ◌<◌, ◌≡◌, refl, sym, ap, ◌∙◌, subst, ◌≢◌, ◌⊎◌, inl, inr, false,
  Option, some, List, [], ◌∷◌, ◌++◌, map, arith, ℕ_discrete, ◌>>=◌, length, pos, pos_part,
  minus_one, eqb_ℤ-refl,
}
use sjytker_my_mit.Mr.Master.{map as map_phase, reduce as reduce_phase, Task}
use sjytker_my_mit.Mr.Worker.{
  KeyValue, Disk, create_out, read_inters, groups_of, ihash, do_map_task, do_reduce_task,
}
use sjytker_my_mit.Mr.Worker.Buckets.{in_bucket, do_map_task-buckets}
use sjytker_my_mit.Mr.Worker.Groups.{values_of, once, Sorted, groups_of-calls}
use sjytker_my_mit.Mr.Worker.Values.{
  Permᴰ_nil, outputs, outputs-calls, values_of-append, values_of-Permᴰ, values_of-in_bucket,
  values_of-other_bucket,
}

-- The tasks that the master makes for `n` files and `r` reduce tasks.
abbrev pub map_task : (n r : ℕ) → (ℕ → String) → ℕ → Task
map_task n r name i = record {
  done = false;
  phase = map_phase;
  file_name = name i;
  imap = pos i;
  ireduce = minus_one;
  n_map = n;
  n_reduce = r;
}

abbrev pub reduce_task : (n r i : ℕ) → Task
reduce_task n r i = record {
  done = false;
  phase = reduce_phase;
  file_name = "";
  imap = minus_one;
  ireduce = pos i;
  n_map = n;
  n_reduce = r;
}

module _ (sum32 : String → ℕ) (mapf : String → String → List KeyValue) (n r : ℕ)
    (name content : ℕ → String) where
  -- What Map gives for a file.
  abbrev pub pairs : ℕ → List KeyValue
  pairs i = mapf (name i) (content i)

  -- The map tasks with these numbers, one after the other.
  unfoldable pub run_maps : List ℕ → Disk → Option Disk
  run_maps [] disk = some disk
  run_maps (i ∷ order) disk = do
    disk' ← do_map_task sum32 mapf (map_task n r name i) disk
    run_maps order disk'

  -- All values that Map gave for a key, for `left` files from number `i` on.
  unfoldable pub all_values : String → ℕ → ℕ → List String
  all_values key i zero = []
  all_values key i (suc left) = values_of key (pairs i) ++ all_values key (i + 1) left

  -- The files of a map task that is done.
  abbrev pub Finished : Disk → ℕ → Type 0
  Finished disk i =
      (b : ℕ) → b < r → disk.inters (pos i) (pos b) ≡ some (in_bucket sum32 r b (pairs i))

  abbrev pub Inputs : Disk → List ℕ → Type 0
  Inputs disk [] = Unit
  Inputs disk (i ∷ order) = (disk.inputs (name i) ≡ some (content i)) × Inputs disk order

  Inputs-same :
      (order : List ℕ) (disk disk' : Disk)
      → disk'.inputs ≡ disk.inputs
      → Inputs disk order
      → Inputs disk' order
  Inputs-same [] disk disk' e h = tt
  Inputs-same (i ∷ order) disk disk' e (h, hs) =
      (ap (λ f. f (name i)) e ∙ h, Inputs-same order disk disk' e hs)

  -- Map tasks that have their inputs get through, in any order and as often as they come, and each
  -- of them has its files at the end.
  pub run_maps-Finished :
      (order : List ℕ) (disk : Disk)
      → 0 < r
      → Inputs disk order
      → (disk' : Disk) × (run_maps order disk ≡ some disk')
        × ((i : ℕ) → Finished disk i ⊎ Memᴰ i order → Finished disk' i)
  unfolding run_maps
  run_maps-Finished [] disk pos_r h =
      (disk, refl, λ i s. elim s [ inl f ↦ f | inr m ↦ absurd (Memᴰ.not-nil m) ])
  run_maps-Finished (i ∷ order) disk pos_r (h, hs) =
      let (mid, e, wrote, kept, same, outs) =
        do_map_task-buckets sum32 mapf (map_task n r name i) disk (content i) h pos_r in
      let (disk', f, fin) =
        run_maps-Finished order mid pos_r (Inputs-same order disk mid same hs) in
      (
        disk',
        rw e f,
        λ j s. elim (ℕ_discrete j i) [
          | yes p ↦ fin j (inl (subst (Finished mid) (sym p) wrote))
          | no d ↦ elim s [
            | inl old ↦
                fin j (inl (λ b lt. kept (pos j) (pos b) (λ q. d (ap pos_part q)) ∙ old b lt))
            | inr m ↦ elim (Memᴰ.cases_cons m) [
              | inl p ↦ absurd (d p)
              | inr rest ↦ fin j (inr rest)
            ]
          ]
        ],
      )

  -- What a reduce task reads of the map tasks that are done: pairs with the values of its own keys.
  reads_all :
      (b i left : ℕ) (disk : Disk)
      → b < r
      → ((j : ℕ) → i ≤ j → j < i + left → Finished disk j)
      → (kvs : List KeyValue) × (read_inters (pos b) i left disk ≡ some kvs)
        × ((key : String) → ihash sum32 key % r ≡ b → values_of key kvs ≡ all_values key i left)
        × ((key : String) → ihash sum32 key % r ≢ b → values_of key kvs ≡ [])
  unfolding read_inters all_values values_of
  reads_all b i zero disk lt fin = ([], refl, λ key h. refl, λ key h. refl)
  reads_all b i (suc left) disk lt fin =
      let (kvs, e, mine, others) =
        reads_all b (i + 1) left disk lt (λ j lo hi. fin j (omega arith) (omega arith)) in
      let mapped = in_bucket sum32 r b (pairs i) in
      (
        mapped ++ kvs,
        rw (fin i (omega arith) (omega arith) b lt, e) refl,
        λ key h.
            values_of-append key mapped kvs
            ∙ rw (values_of-in_bucket sum32 r b key (pairs i) h, mine key h) refl,
        λ key h.
            values_of-append key mapped kvs
            ∙ rw (values_of-other_bucket sum32 r b key (pairs i) h, others key h) refl,
      )

  module _ (sort : List KeyValue → List KeyValue)
      (sort-Permᴰ : (kvs : List KeyValue) → Permᴰ (sort kvs) kvs)
      (sort-Sorted : (kvs : List KeyValue) → Sorted (sort kvs))
      (reducef : String → List String → String) where
    -- What a reduce task makes of the files of all map tasks: one line for each key of its bucket that
    -- Map gave a value, with what Reduce makes of all its values of all files in some order.
    abbrev pub Made : ℕ → List (String × String) → Type 0
    Made b lines =
        ((key : String)
          → ihash sum32 key % r ≡ b
          → (values : List String) × Permᴰ values (all_values key 0 n)
            × (outputs key lines ≡ map (reducef key) (once values)))
        × ((key : String) → ihash sum32 key % r ≢ b → outputs key lines ≡ [])

    pub do_reduce_task-Made :
        (disk : Disk) (b : ℕ)
        → b < r
        → ((i : ℕ) → i < n → Finished disk i)
        → (lines : List (String × String)) × (do_reduce_task sort reducef (reduce_task n r b) disk
            ≡ some (create_out (pos b) lines disk))
          × Made b lines
    unfolding do_reduce_task
    do_reduce_task-Made disk b lt fin =
        let (kvs, f, mine, others) = reads_all b 0 n disk lt (λ i lo hi. fin i (omega arith)) in
        let sorted = sort kvs in
        let groups = groups_of (length sorted) sorted in
        let lines : List (String × String) = map (λ (k, values). (k, reducef k values)) groups in
        let made : (key : String)
            → outputs key lines ≡ map (reducef key) (once (values_of key sorted)) =
          λ key.
            outputs-calls reducef key groups
            ∙ ap (map (reducef key))
                (groups_of-calls (length sorted) sorted key (omega arith) (sort-Sorted kvs)) in
        (
          lines,
          rw f refl,
          (
            λ key h. (
              values_of key sorted,
              subst (Permᴰ (values_of key sorted)) (mine key h)
                  (values_of-Permᴰ key (sort-Permᴰ kvs)),
              made key,
            ),
            λ key h.
                made key
                ∙ ap (λ l. map (reducef key) (once l))
                    (Permᴰ_nil _ (
                      subst (Permᴰ (values_of key sorted)) (others key h)
                        (values_of-Permᴰ key (sort-Permᴰ kvs)))),
          ),
        )

    -- A job with all files there: the map tasks, in any order and any of them again as long as each
    -- has been done, and then the reduce task of a bucket get through. The output has one line for
    -- each key of the bucket that Map gave a value, with what Reduce makes of all its values of all
    -- files in some order, and no line of another key. For sort.Sort it is used that it permutes the
    -- pairs and that no key is less than one before it.
    pub map_reduce :
        (order : List ℕ) (disk : Disk) (b : ℕ)
        → b < r
        → Inputs disk order
        → ((i : ℕ) → i < n → Memᴰ i order)
        → (mid : Disk) × (end : Disk) × (lines : List (String × String)) × (run_maps order disk
            ≡ some mid)
          × (do_reduce_task sort reducef (reduce_task n r b) mid ≡ some end)
          × (end.outs (pos b) ≡ some lines)
          × ((key : String)
              → ihash sum32 key % r ≡ b
              → (values : List String) × Permᴰ values (all_values key 0 n)
                × (outputs key lines ≡ map (reducef key) (once values)))
          × ((key : String) → ihash sum32 key % r ≢ b → outputs key lines ≡ [])
    unfolding create_out
    map_reduce order disk b lt inputs covers =
        let (mid, e, fin) = run_maps-Finished order disk (omega arith) inputs in
        let (lines, f, made) = do_reduce_task-Made mid b lt (λ i hi. fin i (inr (covers i hi))) in
        (
          mid,
          create_out (pos b) lines mid,
          lines,
          e,
          f,
          rw (eqb_ℤ-refl (pos b)) refl,
          made.0,
          made.1,
        )
