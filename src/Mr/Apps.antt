-- ===== src/Mr/Apps.antt =====
-- Applications for the MapReduce library, mrapps/wc.go and mrapps/indexer.go, and what they use of
-- Go's library. unicode.IsLetter and sort.Strings are parameters.
pub mod WordCount
pub mod Texts
pub mod Index
mod Examples
use Prim.Native.Char.{Char}
use Prim.Native.String.{String, slice, ◌++◌ as ◌++S◌}
use sjytker_my_mit.Base.{
  ℕ, zero, suc, ◌+◌, ◌-◌, ◌*◌, ◌/◌, ◌%◌, ◌≤◌, ◌<◌, ◌≡◌, refl, sym, ap, ◌∙◌, subst, ◌≢◌, ◌↔◌, ◌⊎◌,
  inl, inr, Bool, true, false, not, ◌&&◌, ◌||◌, Option, none, some, List, [], ◌∷◌, ◌++◌, map, arith,
  dec_lt, ℕ_discrete, ltb, leb, same_text, same_text_iff, ◌==◌, if◌then◌else◌, ltb→lt, lt→ltb,
  leb→le, le→leb, ltb-false, leb-false, ==_iff, ==_refl, ==_false, tests, Bool-cases, Option-cases,
  ◌>>=◌, >>=-eq-some, some_eq, length, get_elem?, set, take, drop, replicate, length-append,
  length-take, length-drop, length-replicate, length-set, get_elem?-some, get_elem?-none,
  get_elem?-lt, get_elem?-drop, get_elem?-take, get_elem?-append_left, get_elem?-append_right,
  get_elem?-replicate, append-nil, append_assoc, get_elem?-set_self, get_elem?-set_ne, find, put,
  delete, find-put, find-put_self, find-put_ne, find-delete_self, find-delete_ne, find-delete, ℤ,
  pos, negsuc, pos_part, neg_part, sub_ℕ, ◌≤ℤ◌, leb_ℤ, eqb_ℤ, minus_one, eqb_ℤ→eq, eqb_ℤ-refl,
  +ℤ_parts, -ℤ_parts, eq_of_parts, int_laws, ◌+ℤ◌, ◌-ℤ◌,
}
use sjytker_my_mit.Mr.Worker.{KeyValue}

-- A field that has ended; an empty one is none.
unfoldable pub end_field : String → List String → List String
end_field String.[] fields = fields
end_field (String.◌∷◌ c s) fields = String.◌∷◌ c s ∷ fields

-- The field that a text begins with, which may be empty, and those behind it.
unfoldable pub fields_behind : (Char → Bool) → String → String × List String
unfolding end_field
fields_behind sep String.[] = ("", [])
fields_behind sep (String.◌∷◌ c s) =
    let (field, fields) = fields_behind sep s in
    if sep c then ("", end_field field fields) else (String.◌∷◌ c field, fields)

-- strings.FieldsFunc
unfoldable pub fields_func : (Char → Bool) → String → List String
unfolding fields_behind end_field
fields_func sep s = let (field, fields) = fields_behind sep s in end_field field fields

-- The digits of a number; each round drops one, so n rounds and one more are enough.
unfoldable pub digits : ℕ → ℕ → String
digits zero n = ""
digits (suc fuel) n =
    let front = digits fuel (n / 10) in
    (if ltb n 10 then "" else front) ++S slice "0123456789" (n % 10) (n % 10 + 1)

-- strconv.Itoa of a number that is not negative.
unfoldable pub itoa : ℕ → String
unfolding digits
itoa n = digits (n + 1) n

-- Map of wc.go
unfoldable pub wc_map : (Char → Bool) → String → String → List KeyValue
unfolding fields_func
wc_map is_letter filename contents =
    map (λ w. record { key = w; value = "1" }) (fields_func (λ c. not (is_letter c)) contents)

-- Reduce of wc.go
unfoldable pub wc_reduce : String → List String → String
unfolding itoa
wc_reduce key values = itoa (length values)

-- Whether a word is a key of the map.
abbrev pub has_text : String → List String → Bool
has_text w [] = false
has_text w (v ∷ vs) = same_text v w || has_text w vs

-- m[w] = true for each word, as the list of the keys of m.
unfoldable pub distinct : List String → List String
distinct [] = []
distinct (w ∷ words) = let ws = distinct words in if has_text w ws then ws else w ∷ ws

-- Map of indexer.go, with the order in which the loop over m comes to its keys.
unfoldable pub indexer_map :
    (Char → Bool) → (String → List String → List String) → String → String → List KeyValue
unfolding fields_func distinct
indexer_map is_letter order document value =
    map (λ w. record { key = w; value = document })
      (order document (distinct (fields_func (λ c. not (is_letter c)) value)))

-- strings.Join
unfoldable pub join : List String → String → String
join [] sep = ""
join (s ∷ []) sep = s
join (s ∷ t ∷ rest) sep = s ++S sep ++S join (t ∷ rest) sep

-- Reduce of indexer.go
unfoldable pub indexer_reduce : (List String → List String) → String → List String → String
unfolding itoa join
indexer_reduce sort_strings key values =
    let sorted = sort_strings values in itoa (length sorted) ++S " " ++S join sorted ","
