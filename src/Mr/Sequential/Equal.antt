-- ===== src/Mr/Sequential/Equal.antt =====
-- The library's job and the sequential program give the same output.
use Prim.Native.String.{String}
use mathlib.Core.List.{Memᴰ, Permᴰ}
use mathlib.Core.List.Memᴰ
use mathlib.Core.List.Permᴰ
use sjytker_my_mit.Base.{
  ℕ, zero, suc, ◌+◌, ◌%◌, ◌≤◌, ◌<◌, ◌≡◌, refl, sym, ap, ◌∙◌, subst, ◌⊎◌, inl, inr, Bool, Option,
  some, List, [], ◌∷◌, ◌++◌, map, arith, ℕ_discrete, ◌==◌, if◌then◌else◌, ==_iff, ==_false, ◌>>=◌,
  length, pos, eqb_ℤ-refl,
}
use sjytker_my_mit.Mr.Worker.{KeyValue, Disk, create_out, groups_of, ihash, do_reduce_task}
use sjytker_my_mit.Mr.Worker.Groups.{values_of, once, Sorted, groups_of-calls}
use sjytker_my_mit.Mr.Worker.Values.{
  Permᴰ_nil, outputs, outputs-calls, values_of-append, values_of-Permᴰ,
}
use sjytker_my_mit.Mr.Worker.Job.{
  reduce_task, run_maps, all_values, Finished, Inputs, run_maps-Finished, Made, do_reduce_task-Made,
}
use sjytker_my_mit.Mr.Sequential.{gather, sequential}

once-Permᴰ :
    (f : List String → String)
    → ((vs ws : List String) → Permᴰ vs ws → f vs ≡ f ws)
    → (vs ws : List String) → Permᴰ vs ws
    → map f (once vs) ≡ map f (once ws)
once-Permᴰ f same [] ws p = ap (λ l. map f (once l)) (sym (Permᴰ_nil ws (Permᴰ.symm p)))
once-Permᴰ f same (v ∷ vs) [] p = ap (λ l. map f (once l)) (Permᴰ_nil (v ∷ vs) p)
once-Permᴰ f same (v ∷ vs) (w ∷ ws) p = ap (λ o. o ∷ []) (same (v ∷ vs) (w ∷ ws) p)

-- Where an output is looked for that a reduce task has not, by its number.
abbrev pub in_part : Bool → List String → List String
in_part b l = if b then l else []

module _ (sum32 : String → ℕ) (mapf : String → String → List KeyValue) (n r : ℕ)
    (name content : ℕ → String) where
  -- The names of `left` files from number `i` on.
  abbrev pub files_from : ℕ → ℕ → List String
  files_from i zero = []
  files_from i (suc left) = name i ∷ files_from (i + 1) left

  gather-values :
      (i left : ℕ) (disk : Disk)
      → ((j : ℕ) → i ≤ j → j < i + left → disk.inputs (name j) ≡ some (content j))
      → (kvs : List KeyValue) × (gather mapf (files_from i left) disk ≡ some kvs)
        × ((key : String) → values_of key kvs ≡ all_values sum32 mapf n r name content key i left)
  unfolding gather all_values values_of
  gather-values i zero disk h = ([], refl, λ key. refl)
  gather-values i (suc left) disk h =
      let (kvs, e, same) =
        gather-values (i + 1) left disk (λ j lo hi. h j (omega arith) (omega arith)) in
      (
        mapf (name i) (content i) ++ kvs,
        rw (h i (omega arith) (omega arith), e) refl,
        λ key. values_of-append key (mapf (name i) (content i)) kvs ∙ rw (same key) refl,
      )

  Inputs-at :
      (order : List ℕ) (disk : Disk) (i : ℕ)
      → Inputs sum32 mapf n r name content disk order
      → Memᴰ i order
      → disk.inputs (name i) ≡ some (content i)
  Inputs-at [] disk i h m = absurd (Memᴰ.not-nil m)
  Inputs-at (j ∷ order) disk i (h, hs) m = elim (Memᴰ.cases_cons m) [
    | inl p ↦ subst (λ k. disk.inputs (name k) ≡ some (content k)) (sym p) h
    | inr rest ↦ Inputs-at order disk i hs rest
  ]

  module _ (sort : List KeyValue → List KeyValue)
      (sort-Permᴰ : (kvs : List KeyValue) → Permᴰ (sort kvs) kvs)
      (sort-Sorted : (kvs : List KeyValue) → Sorted (sort kvs))
      (reducef : String → List String → String) where
    -- The reduce tasks with these numbers, one after the other.
    unfoldable pub run_reduces : List ℕ → Disk → Option Disk
    run_reduces [] disk = some disk
    run_reduces (b ∷ order) disk = do
      disk' ← do_reduce_task sort reducef (reduce_task n r b) disk
      run_reduces order disk'

    -- A reduce task that is done.
    abbrev Reduced : Disk → ℕ → Type 0
    Reduced disk b =
        (lines : List (String × String)) × (disk.outs (pos b) ≡ some lines)
        × Made sum32 mapf n r name content sort sort-Permᴰ sort-Sorted reducef b lines

    abbrev Below : List ℕ → Type 0
    Below [] = Unit
    Below (b ∷ order) = (b < r) × Below order

    create_out-Reduced :
        (disk : Disk) (a b : ℕ) (lines : List (String × String))
        → Made sum32 mapf n r name content sort sort-Permᴰ sort-Sorted reducef a lines
        → Reduced disk b ⊎ (b ≡ a)
        → Reduced (create_out (pos a) lines disk) b
    unfolding create_out
    create_out-Reduced disk a b lines made old = elim (ℕ_discrete b a) [
      | yes p ↦ rw p (lines, rw (eqb_ℤ-refl (pos a)) refl, made)
      | no d ↦ elim old [ inl (l, e, m) ↦ (l, rw (==_false b a d) e, m) | inr p ↦ absurd (d p) ]
    ]

    run_reduces-Reduced :
        (order : List ℕ) (disk : Disk)
        → ((i : ℕ) → i < n → Finished sum32 mapf n r name content disk i)
        → Below order
        → (end : Disk) × (run_reduces order disk ≡ some end)
          × ((b : ℕ) → Reduced disk b ⊎ Memᴰ b order → Reduced end b)
    unfolding run_reduces create_out
    run_reduces-Reduced [] disk fin below =
        (disk, refl, λ b s. elim s [ inl d ↦ d | inr m ↦ absurd (Memᴰ.not-nil m) ])
    run_reduces-Reduced (a ∷ order) disk fin (lt, below) =
        let (lines, e, made) =
          do_reduce_task-Made sum32 mapf n r name content sort sort-Permᴰ sort-Sorted reducef disk a
            lt fin in
        let (end, f, all) = run_reduces-Reduced order (create_out (pos a) lines disk) fin below in
        (
          end,
          rw e f,
          λ b s. elim s [
            | inl old ↦ all b (inl (create_out-Reduced disk a b lines made (inl old)))
            | inr m ↦ elim (Memᴰ.cases_cons m) [
              | inl p ↦ all b (inl (create_out-Reduced disk a b lines made (inr p)))
              | inr rest ↦ all b (inr rest)
            ]
          ],
        )

    sequential-gather :
        (i left : ℕ) (disk : Disk) (kvs : List KeyValue)
        → 0 < left
        → gather mapf (files_from i left) disk ≡ some kvs
        → sequential sort mapf reducef (files_from i left) disk
          ≡ some (
              create_out
                (pos 0)
                (map
                  (λ (key, values). (key, reducef key values))
                  (groups_of (length (sort kvs)) (sort kvs)))
                disk)
    unfolding sequential
    sequential-gather i zero disk kvs h g = absurd (omega arith)
    sequential-gather i (suc left) disk kvs h g = rw g refl

    -- The library and the sequential program agree, for a Reduce that does not look at the order of its
    -- values: where all files are there, the map tasks in any order and any of them again, as long as
    -- each has been done, and then the reduce tasks likewise, get through, and so does the sequential
    -- program; and the outputs for a key are the same, those of the library in the file that the hash of
    -- the key names, and in no other. For sort.Sort it is used that it permutes the pairs and that
    -- no key is less than one before it.
    pub job-sequential :
        (order reduces : List ℕ) (disk : Disk)
        → ((key : String) (vs ws : List String) → Permᴰ vs ws → reducef key vs ≡ reducef key ws)
        → 0 < n
        → 0 < r
        → Inputs sum32 mapf n r name content disk order
        → ((i : ℕ) → i < n → Memᴰ i order)
        → Below reduces
        → ((b : ℕ) → b < r → Memᴰ b reduces)
        → (mid : Disk) × (end : Disk) × (seq : Disk) × (all : List (String × String)) × (run_maps
              sum32 mapf n r name content order disk
            ≡ some mid)
          × (run_reduces reduces mid ≡ some end)
          × (sequential sort mapf reducef (files_from 0 n) disk ≡ some seq)
          × (seq.outs (pos 0) ≡ some all)
          × ((b : ℕ)
              → b < r
              → (lines : List (String × String)) × (end.outs (pos b) ≡ some lines)
                × ((key : String)
                    → outputs key lines ≡ in_part (ihash sum32 key % r == b) (outputs key all)))
    unfolding create_out
    job-sequential order reduces disk same pos_n pos_r inputs covers below reaches =
        let (mid, e, fin) = run_maps-Finished sum32 mapf n r name content order disk pos_r inputs in
        let (end, f, done) =
          run_reduces-Reduced reduces mid (λ i lt. fin i (inr (covers i lt))) below in
        let (kvs, g, seen) =
          gather-values 0 n disk
            (λ j lo hi. Inputs-at order disk j inputs (covers j (omega arith))) in
        let sorted = sort kvs in
        let groups = groups_of (length sorted) sorted in
        let all : List (String × String) = map (λ (k, values). (k, reducef k values)) groups in
        let made : (key : String)
            → outputs key all ≡ map (reducef key) (once (values_of key sorted)) =
          λ key.
            outputs-calls reducef key groups
            ∙ ap (map (reducef key))
                (groups_of-calls (length sorted) sorted key (omega arith) (sort-Sorted kvs)) in
        (
          mid,
          end,
          create_out (pos 0) all disk,
          all,
          e,
          f,
          sequential-gather 0 n disk kvs pos_n g,
          refl,
          λ b lt.
              let (lines, l, (mine, others)) = done b (inr (reaches b lt)) in
              (
                lines,
                l,
                λ key. elim (ℕ_discrete (ihash sum32 key % r) b) [
                  | yes p ↦
                      let (values, perm, out) = mine key p in
                      rw ((==_iff (ihash sum32 key % r) b).1 p) (
                        out
                        ∙ once-Permᴰ (reducef key) (same key) values (values_of key sorted) (
                            Permᴰ.trans perm (
                              Permᴰ.symm (
                                subst (Permᴰ (values_of key sorted)) (seen key)
                                  (values_of-Permᴰ key (sort-Permᴰ kvs)))))
                        ∙ sym (made key))
                  | no d ↦ rw (==_false (ihash sum32 key % r) b d) (others key d)
                ],
              ),
        )
