-- ===== src/Mr/Apps/Index.antt =====
-- What the index writes.
use Prim.Native.Char.{Char}
use Prim.Native.String.{String, ◌++◌ as ◌++S◌}
use mathlib.Core.List.{Memᴰ, Permᴰ}
use mathlib.Core.List.Permᴰ
use sjytker_my_mit.Base.{
  ℕ, zero, suc, ◌+◌, ◌%◌, ◌<◌, ◌≡◌, refl, sym, ap, ◌∙◌, subst, Bool, some, List, [], ◌∷◌, ◌++◌, map,
  arith, ℕ_discrete, ◌==◌, if◌then◌else◌, ==_iff, ==_false, length, replicate, pos,
}
use sjytker_my_mit.Mr.Worker.{KeyValue, Disk, ihash, do_reduce_task}
use sjytker_my_mit.Mr.Worker.Groups.{values_of, once, Sorted}
use sjytker_my_mit.Mr.Worker.Values.{Permᴰ_nil, outputs}
use sjytker_my_mit.Mr.Worker.Job.{reduce_task, run_maps, all_values, Inputs, map_reduce}
use sjytker_my_mit.Mr.Apps.{distinct, itoa, join, indexer_map, indexer_reduce}
use sjytker_my_mit.Mr.Apps.Texts.{
  Permᴰ-length, occurrences, occurrences-Permᴰ, occurrences-distinct, InOrder, InOrder-unique,
}
use sjytker_my_mit.Mr.Apps.WordCount.{words_of}

-- The line of a word with these documents; a word that is in none has no line.
abbrev pub listed : List String → List String
listed [] = []
listed (d ∷ ds) = (itoa (length (d ∷ ds)) ++S " " ++S join (d ∷ ds) ",") ∷ []

module _ (sort_strings : List String → List String)
    (sort_strings-Permᴰ : (ss : List String) → Permᴰ (sort_strings ss) ss)
    (sort_strings-InOrder : (ss : List String) → InOrder (sort_strings ss)) where
  sort_strings_same : (vs ws : List String) → Permᴰ vs ws → sort_strings vs ≡ sort_strings ws
  sort_strings_same vs ws p =
      InOrder-unique (sort_strings vs) (sort_strings ws) (sort_strings-InOrder vs)
        (sort_strings-InOrder ws)
        (λ w. occurrences-Permᴰ w (
          Permᴰ.trans (sort_strings-Permᴰ vs) (Permᴰ.trans p (Permᴰ.symm (sort_strings-Permᴰ ws)))))

  -- Reduce of the index does not look at the order of the values.
  pub indexer_reduce-Permᴰ :
      (key : String) (vs ws : List String)
      → Permᴰ vs ws
      → indexer_reduce sort_strings key vs ≡ indexer_reduce sort_strings key ws
  unfolding indexer_reduce
  indexer_reduce-Permᴰ key vs ws p =
      ap (λ l. itoa (length l) ++S " " ++S join l ",") (sort_strings_same vs ws p)

  listed-some :
      (l : List String) (k : ℕ)
      → length l ≡ suc k
      → (itoa (length l) ++S " " ++S join l ",") ∷ [] ≡ listed l
  listed-some [] k h = absurd (omega arith)
  listed-some (d ∷ ds) k h = refl

  pub once-listed :
      (word : String) (values : List String)
      → map (indexer_reduce sort_strings word) (once values) ≡ listed (sort_strings values)
  unfolding indexer_reduce
  once-listed word [] = ap listed (sym (Permᴰ_nil _ (sort_strings-Permᴰ [])))
  once-listed word (v ∷ vs) =
      listed-some (sort_strings (v ∷ vs)) (length vs) (Permᴰ-length (sort_strings-Permᴰ (v ∷ vs)))

module _ (is_letter : Char → Bool) (order : String → List String → List String)
    (order-Permᴰ : (document : String) (ws : List String) → Permᴰ (order document ws) ws) where
  values-document :
      (word document : String) (ws : List String)
      → values_of word (map (λ w. record { key = w; value = document }) ws)
        ≡ replicate (occurrences word ws) document
  unfolding values_of
  values-document word document [] = refl
  values-document word document (w ∷ ws) = ground (arith, values-document word document ws)

  -- A document once, if it has the word.
  abbrev pub if_in : ℕ → String → List String
  if_in k document = if k == 0 then [] else document ∷ []

  values-indexer_map :
      (word document contents : String)
      → values_of word (indexer_map is_letter order document contents)
        ≡ if_in (occurrences word (words_of is_letter contents)) document
  unfolding indexer_map
  values-indexer_map word document contents =
      values-document word document (order document (distinct (words_of is_letter contents)))
      ∙ ap (λ k. replicate k document)
          (occurrences-Permᴰ word (order-Permᴰ document (distinct (words_of is_letter contents)))
            ∙ occurrences-distinct word (words_of is_letter contents))
      ∙ ground arith

  module _ (sum32 : String → ℕ) (n r : ℕ) (name content : ℕ → String) where
    -- The names of those among `left` files from number `i` on that have the word.
    abbrev pub documents : String → ℕ → ℕ → List String
    documents word i zero = []
    documents word i (suc left) =
        if_in (occurrences word (words_of is_letter (content i))) (name i)
        ++ documents word (i + 1) left

    all_values-documents :
        (word : String) (i left : ℕ)
        → all_values sum32 (indexer_map is_letter order) n r name content word i left
          ≡ documents word i left
    unfolding all_values
    all_values-documents word i zero = refl
    all_values-documents word i (suc left) =
        rw (values-indexer_map word (name i) (content i), all_values-documents word (i + 1) left)
          refl

    -- An index with all files there: the map tasks, in any order and any of them again as long as each
    -- has been done, and then the reduce task of a bucket get through, and for each word of the bucket
    -- its output has one line, with the number of the files that have the word and their names in order,
    -- or none where no file has it; it has no line of a word of another bucket. The loop over the words
    -- of a file may take them in any order. For sort.Sort and sort.Strings it is used that they permute
    -- and that nothing is less than what stands before it.
    pub index :
        (sort : List KeyValue → List KeyValue)
        → ((kvs : List KeyValue) → Permᴰ (sort kvs) kvs)
        → ((kvs : List KeyValue) → Sorted (sort kvs))
        → (sort_strings : List String → List String)
        → ((ss : List String) → Permᴰ (sort_strings ss) ss)
        → ((ss : List String) → InOrder (sort_strings ss))
        → (tasks : List ℕ) (disk : Disk) (b : ℕ) → b < r
        → Inputs sum32 (indexer_map is_letter order) n r name content disk tasks
        → ((i : ℕ) → i < n → Memᴰ i tasks)
        → (mid : Disk) × (end : Disk) × (lines : List (String × String)) × (run_maps sum32
              (indexer_map is_letter order)
              n
              r
              name
              content
              tasks
              disk
            ≡ some mid)
          × (do_reduce_task sort (indexer_reduce sort_strings) (reduce_task n r b) mid ≡ some end)
          × (end.outs (pos b) ≡ some lines)
          × ((word : String)
              → outputs word lines ≡ (
                  if ihash sum32 word % r == b
                  then listed (sort_strings (documents word 0 n))
                  else []))
    index sort sort-Permᴰ sort-Sorted sort_strings sort_strings-Permᴰ sort_strings-InOrder tasks
          disk b lt inputs covers =
        let (mid, end, lines, e, f, g, mine, others) =
          map_reduce sum32 (indexer_map is_letter order) n r name content sort sort-Permᴰ
            sort-Sorted (indexer_reduce sort_strings) tasks disk b lt inputs covers in
        (
          mid,
          end,
          lines,
          e,
          f,
          g,
          λ word. elim (ℕ_discrete (ihash sum32 word % r) b) [
            | yes p ↦
                let (values, perm, out) = mine word p in
                rw ((==_iff (ihash sum32 word % r) b).1 p) (
                  out
                  ∙ once-listed sort_strings sort_strings-Permᴰ sort_strings-InOrder word values
                  ∙ ap listed (
                      sort_strings_same sort_strings sort_strings-Permᴰ sort_strings-InOrder values
                        (documents word 0 n)
                        (subst (Permᴰ values) (all_values-documents word 0 n) perm)))
            | no d ↦ rw (==_false (ihash sum32 word % r) b d) (others word d)
          ],
        )
