-- ===== src/Mr/Sequential.antt =====
-- The sequential MapReduce that the tests compare the library with (main/mrsequential.go).
pub mod Equal
use Prim.Native.String.{String}
use sjytker_my_mit.Base.{
  ℕ, zero, suc, ◌+◌, ◌-◌, ◌*◌, ◌/◌, ◌%◌, ◌≤◌, ◌<◌, ◌≡◌, refl, sym, ap, ◌∙◌, subst, ◌≢◌, ◌↔◌, ◌⊎◌,
  inl, inr, Bool, true, false, not, ◌&&◌, ◌||◌, Option, none, some, List, [], ◌∷◌, ◌++◌, map, arith,
  dec_lt, ℕ_discrete, ltb, leb, same_text, same_text_iff, ◌==◌, if◌then◌else◌, ltb→lt, lt→ltb,
  leb→le, le→leb, ltb-false, leb-false, ==_iff, ==_refl, ==_false, tests, Bool-cases, Option-cases,
  ◌>>=◌, >>=-eq-some, some_eq, length, get_elem?, set, take, drop, replicate, length-append,
  length-take, length-drop, length-replicate, length-set, get_elem?-some, get_elem?-none,
  get_elem?-lt, get_elem?-drop, get_elem?-take, get_elem?-append_left, get_elem?-append_right,
  get_elem?-replicate, append-nil, append_assoc, get_elem?-set_self, get_elem?-set_ne, find, put,
  delete, find-put, find-put_self, find-put_ne, find-delete_self, find-delete_ne, find-delete, ℤ,
  pos, negsuc, pos_part, neg_part, sub_ℕ, ◌≤ℤ◌, leb_ℤ, eqb_ℤ, minus_one, eqb_ℤ→eq, eqb_ℤ-refl,
  +ℤ_parts, -ℤ_parts, eq_of_parts, int_laws, ◌+ℤ◌, ◌-ℤ◌,
}
use sjytker_my_mit.Mr.Worker.{KeyValue, Disk, create_out, groups_of}

-- The loop over the input files: all pairs that Map gives. A file that cannot be opened ends the
-- process.
unfoldable pub gather :
    (String → String → List KeyValue) → List String → Disk → Option (List KeyValue)
gather mapf [] disk = some []
gather mapf (filename ∷ files) disk = do
  content ← disk.inputs filename
  rest ← gather mapf files disk
  some (mapf filename content ++ rest)

-- The program behind loadPlugin, for the names of its input files; without any it prints its usage
-- and ends.
unfoldable pub sequential :
    (List KeyValue → List KeyValue)
    → (mapf : String → String → List KeyValue) → (reducef : String → List String → String)
    → List String
    → Disk
    → Option Disk
unfolding gather groups_of create_out
sequential sort mapf reducef [] disk = none
sequential sort mapf reducef (file ∷ files) disk = do
  intermediate ← gather mapf (file ∷ files) disk
  let sorted = sort intermediate
  some (
      create_out (pos 0)
        (map (λ (key, values). (key, reducef key values)) (groups_of (length sorted) sorted)) disk)
