-- ===== src/Mr/Apps/Examples.antt =====
-- The word count and the index of two files, and the sequential program on them.
use Prim.Native.Char.{Char, code}
use Prim.Native.String.{String, len}
use mathlib.Core.List.{Memᴰ, Permᴰ}
use mathlib.Core.List.Permᴰ
use sjytker_my_mit.Base.{
  ℕ, ◌%◌, ◌<◌, ◌≡◌, refl, ap, subst, Bool, not, ◌&&◌, none, some, List, [], ◌∷◌, map, arith,
  ℕ_discrete, leb, same_text, ◌==◌, if◌then◌else◌, pos,
}
use sjytker_my_mit.Mr.Worker.{KeyValue, Disk, ihash, do_reduce_task}
use sjytker_my_mit.Mr.Worker.Order.{less}
use sjytker_my_mit.Mr.Worker.Sorting.{sort, sort-Permᴰ, sort-Sorted}
use sjytker_my_mit.Mr.Worker.Groups.{Above, Sorted}
use sjytker_my_mit.Mr.Apps.Texts.{Over, InOrder}
use sjytker_my_mit.Mr.Worker.Values.{outputs}
use sjytker_my_mit.Mr.Worker.Job.{reduce_task, run_maps}
use sjytker_my_mit.Mr.Sequential.{sequential}
use sjytker_my_mit.Mr.Sequential.Equal.{in_part, files_from, run_reduces, job-sequential}
use sjytker_my_mit.Mr.Apps.{fields_func, itoa, wc_map, wc_reduce, indexer_map, indexer_reduce}
use sjytker_my_mit.Mr.Apps.WordCount.{wc_reduce-Permᴰ, counted, in_files, word_count}
use sjytker_my_mit.Mr.Apps.Index.{listed, documents, index}

abbrev is_letter : Char → Bool
is_letter c = leb b'A' (code c) && leb (code c) b'z'

abbrev name : ℕ → String
name i = if i == 0 then "a.txt" else "b.txt"

abbrev content : ℕ → String
content i = if i == 0 then "to be, or not to be" else "be it"

abbrev disk : Disk
disk = record {
  inputs = λ f. if same_text f "a.txt" then some (content 0) else some (content 1);
  inters = λ i r. none;
  outs = λ r. none;
}

words : fields_func (λ c. not (is_letter c)) "to be, or" ≡ "to" ∷ "be" ∷ "or" ∷ []
unfolding fields_func
words = refl

ten : itoa 1_024 ≡ "1024"
unfolding itoa
ten = refl

covers : (i : ℕ) → i < 2 → Memᴰ i (1 ∷ 0 ∷ 1 ∷ [])
covers i lt = elim (ℕ_discrete i 0) [
  | yes p ↦ Memᴰ.tail (Memᴰ.head p)
  | no d ↦ Memᴰ.head (omega arith)
]

word_count_example :
    (mid : Disk) × (end : Disk) × (lines : List (String × String)) × (run_maps len
        (wc_map is_letter)
        2
        2
        name
        content
        (1 ∷ 0 ∷ 1 ∷ [])
        disk
      ≡ some mid)
    × (do_reduce_task sort wc_reduce (reduce_task 2 2 0) mid ≡ some end)
    × (end.outs (pos 0) ≡ some lines)
    × ((word : String)
        → outputs word lines
          ≡ counted (
              if ihash len word % 2 == 0
              then in_files is_letter len 2 2 name content word 0 2
              else 0))
word_count_example =
    word_count is_letter len 2 2 name content sort sort-Permᴰ sort-Sorted (1 ∷ 0 ∷ 1 ∷ []) disk 0
      (omega arith) (refl, (refl, (refl, tt))) covers

job-sequential_example :
    (mid : Disk) × (end : Disk) × (seq : Disk) × (all : List (String × String)) × (run_maps len
        (wc_map is_letter)
        2
        2
        name
        content
        (1 ∷ 0 ∷ 1 ∷ [])
        disk
      ≡ some mid)
    × (run_reduces len
          (wc_map is_letter)
          2
          2
          name
          content
          sort
          sort-Permᴰ
          sort-Sorted
          wc_reduce
          (1 ∷ 0 ∷ 1 ∷ [])
          mid
        ≡ some end)
    × (sequential sort
          (wc_map is_letter)
          wc_reduce
          (files_from len (wc_map is_letter) 2 2 name content 0 2)
          disk
        ≡ some seq)
    × (seq.outs (pos 0) ≡ some all)
    × ((b : ℕ)
        → b < 2
        → (lines : List (String × String)) × (end.outs (pos b) ≡ some lines)
          × ((key : String)
              → outputs key lines ≡ in_part (ihash len key % 2 == b) (outputs key all)))
job-sequential_example =
    job-sequential len (wc_map is_letter) 2 2 name content sort sort-Permᴰ sort-Sorted wc_reduce
      (1 ∷ 0 ∷ 1 ∷ []) (1 ∷ 0 ∷ 1 ∷ []) disk wc_reduce-Permᴰ (omega arith) (omega arith)
      (refl, (refl, (refl, tt))) covers (omega arith, (omega arith, (omega arith, tt))) covers

-- A sort of texts, by the sort of pairs.
abbrev bare : String → KeyValue
bare s = record { key = s; value = "" }

unfoldable sort_strings : List String → List String
unfolding sort
sort_strings ss = map (λ (kv : KeyValue). kv.key) (sort (map bare ss))

map-bare : (ss : List String) → map (λ (kv : KeyValue). kv.key) (map bare ss) ≡ ss
map-bare [] = refl
map-bare (s ∷ ss) = ap (λ l. s ∷ l) (map-bare ss)

sort_strings-Permᴰ : (ss : List String) → Permᴰ (sort_strings ss) ss
unfolding sort_strings
sort_strings-Permᴰ ss =
    subst (Permᴰ (sort_strings ss)) (map-bare ss)
      (Permᴰ.map (λ (kv : KeyValue). kv.key) (sort-Permᴰ (map bare ss)))

Above-Over :
    (low : String) (kvs : List KeyValue)
    → Above low kvs
    → Over low (map (λ (kv : KeyValue). kv.key) kvs)
Above-Over low [] h = tt
Above-Over low (kv ∷ kvs) (h, hs) = (h, Above-Over low kvs hs)

Sorted-InOrder : (kvs : List KeyValue) → Sorted kvs → InOrder (map (λ (kv : KeyValue). kv.key) kvs)
Sorted-InOrder [] h = tt
Sorted-InOrder (kv ∷ kvs) (a, h) = (Above-Over kv.key kvs a, Sorted-InOrder kvs h)

sort_strings-InOrder : (ss : List String) → InOrder (sort_strings ss)
unfolding sort_strings
sort_strings-InOrder ss = Sorted-InOrder (sort (map bare ss)) (sort-Sorted (map bare ss))

index_example :
    (mid : Disk) × (end : Disk) × (lines : List (String × String)) × (run_maps len
        (indexer_map is_letter (λ d ws. ws))
        2
        2
        name
        content
        (1 ∷ 0 ∷ 1 ∷ [])
        disk
      ≡ some mid)
    × (do_reduce_task sort (indexer_reduce sort_strings) (reduce_task 2 2 0) mid ≡ some end)
    × (end.outs (pos 0) ≡ some lines)
    × ((word : String)
        → outputs word lines ≡ (
            if ihash len word % 2 == 0
            then listed (
                sort_strings (
                  documents is_letter
                    (λ d ws. ws)
                    (λ d ws. Permᴰ.refl ws)
                    len
                    2
                    2
                    name
                    content
                    word
                    0
                    2))
            else []))
index_example =
    index is_letter (λ d ws. ws) (λ d ws. Permᴰ.refl ws) len 2 2 name content sort sort-Permᴰ
      sort-Sorted sort_strings sort_strings-Permᴰ sort_strings-InOrder (1 ∷ 0 ∷ 1 ∷ []) disk 0
      (omega arith) (refl, (refl, (refl, tt))) covers

-- The line of "be", which both files have.
both : indexer_reduce sort_strings "be" ("b.txt" ∷ "a.txt" ∷ []) ≡ "2 a.txt,b.txt"
unfolding indexer_reduce sort_strings less
both = refl
