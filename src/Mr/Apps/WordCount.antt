-- ===== src/Mr/Apps/WordCount.antt =====
-- What the word count writes.
use Prim.Native.Char.{Char}
use Prim.Native.String.{String}
use mathlib.Core.List.{Memᴰ, Permᴰ}
use sjytker_my_mit.Base.{
  ℕ, zero, suc, ◌+◌, ◌%◌, ◌<◌, ◌≡◌, refl, ap, ◌∙◌, Bool, not, some, List, [], ◌∷◌, map, arith,
  ℕ_discrete, ◌==◌, if◌then◌else◌, ==_iff, ==_false, length, length-append, pos,
}
use sjytker_my_mit.Mr.Worker.{KeyValue, Disk, ihash, do_reduce_task}
use sjytker_my_mit.Mr.Worker.Groups.{values_of, once, Sorted}
use sjytker_my_mit.Mr.Worker.Values.{outputs}
use sjytker_my_mit.Mr.Worker.Job.{reduce_task, run_maps, all_values, Inputs, map_reduce}
use sjytker_my_mit.Mr.Apps.Texts.{Permᴰ-length, occurrences}
use sjytker_my_mit.Mr.Apps.{fields_func, itoa, wc_map, wc_reduce}

-- Reduce of the word count does not look at the order of the values.
pub wc_reduce-Permᴰ :
    (key : String) (vs ws : List String) → Permᴰ vs ws → wc_reduce key vs ≡ wc_reduce key ws
unfolding wc_reduce
wc_reduce-Permᴰ key vs ws p = ap itoa (Permᴰ-length p)

-- The line of a word that was counted; a word that is not there has none.
abbrev pub counted : ℕ → List String
counted zero = []
counted (suc k) = itoa (suc k) ∷ []

module _ (is_letter : Char → Bool) where
  -- The words of a text: its runs of letters.
  abbrev pub words_of : String → List String
  words_of contents = fields_func (λ c. not (is_letter c)) contents

  values-ones :
      (word : String) (words : List String)
      → length (values_of word (map (λ w. record { key = w; value = "1" }) words))
        ≡ occurrences word words
  unfolding values_of
  values-ones word [] = refl
  values-ones word (w ∷ words) = ground (arith, values-ones word words)

  module _ (sum32 : String → ℕ) (n r : ℕ) (name content : ℕ → String) where
    -- How often a word is in `left` files from number `i` on.
    abbrev pub in_files : String → ℕ → ℕ → ℕ
    in_files word i zero = 0
    in_files word i (suc left) =
        occurrences word (words_of (content i)) + in_files word (i + 1) left

    all_values-in_files :
        (word : String) (i left : ℕ)
        → length (all_values sum32 (wc_map is_letter) n r name content word i left)
          ≡ in_files word i left
    unfolding all_values wc_map
    all_values-in_files word i zero = refl
    all_values-in_files word i (suc left) =
        length-append (values_of word (wc_map is_letter (name i) (content i))) _
        ∙ omega
            (arith, values-ones word (words_of (content i)), all_values-in_files word (i + 1) left)

    once-counted :
        (word : String) (values : List String)
        → map (wc_reduce word) (once values) ≡ counted (length values)
    unfolding wc_reduce
    once-counted word [] = refl
    once-counted word (v ∷ vs) = refl

    -- A word count with all files there: the map tasks, in any order and any of them again as long as
    -- each has been done, and then the reduce task of a bucket get through, and for each word of the
    -- bucket its output has one line, with the number of times that the word is in all files together, or
    -- none where it is in none; it has no line of a word of another bucket. A word is a run of letters.
    -- For sort.Sort it is used that it permutes the pairs and that no key is less than one before it.
    pub word_count :
        (sort : List KeyValue → List KeyValue)
        → ((kvs : List KeyValue) → Permᴰ (sort kvs) kvs)
        → ((kvs : List KeyValue) → Sorted (sort kvs))
        → (order : List ℕ) (disk : Disk) (b : ℕ) → b < r
        → Inputs sum32 (wc_map is_letter) n r name content disk order
        → ((i : ℕ) → i < n → Memᴰ i order)
        → (mid : Disk) × (end : Disk) × (lines : List (String × String)) × (run_maps sum32
              (wc_map is_letter)
              n
              r
              name
              content
              order
              disk
            ≡ some mid)
          × (do_reduce_task sort wc_reduce (reduce_task n r b) mid ≡ some end)
          × (end.outs (pos b) ≡ some lines)
          × ((word : String)
              → outputs word lines
                ≡ counted (if ihash sum32 word % r == b then in_files word 0 n else 0))
    word_count sort sort-Permᴰ sort-Sorted order disk b lt inputs covers =
        let (mid, end, lines, e, f, g, mine, others) =
          map_reduce sum32 (wc_map is_letter) n r name content sort sort-Permᴰ sort-Sorted wc_reduce
            order disk b lt inputs covers in
        (
          mid,
          end,
          lines,
          e,
          f,
          g,
          λ word. elim (ℕ_discrete (ihash sum32 word % r) b) [
            | yes p ↦
                let (values, perm, out) = mine word p in
                rw ((==_iff (ihash sum32 word % r) b).1 p) (
                  out
                  ∙ once-counted word values
                  ∙ ap counted (Permᴰ-length perm ∙ all_values-in_files word 0 n))
            | no d ↦ rw (==_false (ihash sum32 word % r) b d) (others word d)
          ],
        )
