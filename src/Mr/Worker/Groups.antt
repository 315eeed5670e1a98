-- ===== src/Mr/Worker/Groups.antt =====
-- What doReduceTask makes of its pairs: the sort brings the pairs of a key together, and the loop
-- calls Reduce once for each key.
use Prim.Native.String.{String}
use sjytker_my_mit.Base.{
  ℕ, zero, suc, ◌≤◌, ◌≡◌, refl, sym, ap, ◌∙◌, subst, ◌≢◌, inl, inr, true, false, List, [], ◌∷◌,
  arith, same_text, same_text_iff, if◌then◌else◌, Bool-cases, length,
}
use sjytker_my_mit.Mr.Worker.Order.{less, less-connex}
use sjytker_my_mit.Mr.Worker.{KeyValue, run_of, groups_of}

-- The values of a key, in the order of the pairs.
unfoldable pub values_of : String → List KeyValue → List String
values_of key [] = []
values_of key (kv ∷ kvs) =
    let rest = values_of key kvs in if same_text kv.key key then kv.value ∷ rest else rest

-- No pair has this key.
abbrev pub Absent : String → List KeyValue → Type 0
Absent key [] = Unit
Absent key (kv ∷ kvs) = (kv.key ≢ key) × Absent key kvs

-- No pair is less than the text.
abbrev pub Above : String → List KeyValue → Type 0
Above key [] = Unit
Above key (kv ∷ kvs) = (less kv.key key ≡ false) × Above key kvs

-- What sort.Sort promises for Less: no pair is less than one before it.
abbrev pub Sorted : List KeyValue → Type 0
Sorted [] = Unit
Sorted (kv ∷ kvs) = Above kv.key kvs × Sorted kvs

-- The values of the calls of Reduce for a key.
unfoldable pub calls : String → List (String × List String) → List (List String)
calls key [] = []
calls key ((k, values) ∷ groups) =
    let rest = calls key groups in if same_text k key then values ∷ rest else rest

-- One call for a key that has values, and none for another.
abbrev pub once : List String → List (List String)
once [] = []
once (v ∷ vs) = (v ∷ vs) ∷ []

values_of-Absent : (key : String) (kvs : List KeyValue) → Absent key kvs → values_of key kvs ≡ []
unfolding values_of
values_of-Absent key [] h = refl
values_of-Absent key (kv ∷ kvs) (ne, h) =
    ground (arith, values_of-Absent key kvs h, same_text_iff kv.key key)

Above-Absent :
    (key low : String) (kvs : List KeyValue)
    → low ≢ key
    → less low key ≡ false
    → Above low kvs
    → Absent key kvs
Above-Absent key low [] ne l h = tt
Above-Absent key low (kv ∷ kvs) ne l (a, h) = (
  λ e. ne (less-connex low key l (subst (λ k. less k low ≡ false) e a)),
  Above-Absent key low kvs ne l h,
)

-- What the loop over j makes of sorted pairs: the values at the front are all that the key has; the
-- pairs behind are sorted, lack the key, are no more, and have the values that all other keys had.
abbrev Splits : String → List KeyValue → List String × List KeyValue → Type 0
Splits key kvs (values, rest) =
    (values ≡ values_of key kvs)
    × Absent key rest
    × Sorted rest
    × (length rest ≤ length kvs)
    × ((other : String) → key ≢ other → values_of other rest ≡ values_of other kvs)
    × ((other : String) → Absent other kvs → Absent other rest)

run_of-take :
    (key : String) (kv : KeyValue) (kvs : List KeyValue)
    → same_text kv.key key ≡ true
    → run_of key (kv ∷ kvs) ≡ (kv.value ∷ (run_of key kvs).0, (run_of key kvs).1)
unfolding run_of
run_of-take key kv kvs t = rw t refl

run_of-stop :
    (key : String) (kv : KeyValue) (kvs : List KeyValue)
    → same_text kv.key key ≡ false
    → run_of key (kv ∷ kvs) ≡ ([], kv ∷ kvs)
unfolding run_of
run_of-stop key kv kvs f = rw f refl

values_of-other :
    (key other : String) (kv : KeyValue) (kvs : List KeyValue)
    → same_text kv.key key ≡ true
    → key ≢ other
    → values_of other (kv ∷ kvs) ≡ values_of other kvs
unfolding values_of
values_of-other key other kv kvs t ne =
    ground (arith, same_text_iff kv.key key, same_text_iff kv.key other)

values_of-same :
    (key : String) (kv : KeyValue) (kvs : List KeyValue)
    → same_text kv.key key ≡ true
    → values_of key (kv ∷ kvs) ≡ kv.value ∷ values_of key kvs
unfolding values_of
values_of-same key kv kvs t = rw t refl

differs : (a b : String) → same_text a b ≡ false → a ≢ b
differs a b f e = ground (arith, same_text_iff a b)

run_of-Splits :
    (key : String) (kvs : List KeyValue)
    → Above key kvs
    → Sorted kvs
    → Splits key kvs (run_of key kvs)
unfolding run_of values_of
run_of-Splits key [] a s = (refl, tt, tt, omega arith, λ other ne. refl, λ other h. h)
run_of-Splits key (kv ∷ kvs) (a, above) (b, s) = elim (Bool-cases (same_text kv.key key)) [
  | inl t ↦
      let (v, absent, sorted, len, same, none_of) = run_of-Splits key kvs above s in
      subst (Splits key (kv ∷ kvs)) (sym (run_of-take key kv kvs t)) (
        ap (λ l. kv.value ∷ l) v ∙ sym (values_of-same key kv kvs t),
        absent,
        sorted,
        omega arith,
        λ other ne. same other ne ∙ sym (values_of-other key other kv kvs t ne),
        λ other h. none_of other h.1,
      )
  | inr f ↦
      let absent : Absent key (kv ∷ kvs) =
        (differs kv.key key f, Above-Absent key kv.key kvs (differs kv.key key f) a b) in
      subst (Splits key (kv ∷ kvs)) (sym (run_of-stop key kv kvs f)) (
        sym (values_of-Absent key (kv ∷ kvs) absent),
        absent,
        (b, s),
        omega arith,
        λ other ne. refl,
        λ other h. h,
      )
]

-- Over sorted pairs, the loop calls Reduce once for each key that a pair has, with all values of
-- that key in the order of the pairs, and for no other key.
pub groups_of-calls :
    (fuel : ℕ) (kvs : List KeyValue) (key : String)
    → length kvs ≤ fuel
    → Sorted kvs
    → calls key (groups_of fuel kvs) ≡ once (values_of key kvs)
unfolding groups_of calls values_of
groups_of-calls zero [] key le s = refl
groups_of-calls zero (kv ∷ kvs) key le s = absurd (omega arith)
groups_of-calls (suc fuel) [] key le s = refl
groups_of-calls (suc fuel) (kv ∷ kvs) key le (above, s) =
    let (v, absent, sorted, len, same, none_of) = run_of-Splits kv.key kvs above s in
    let (values, rest) = run_of kv.key kvs in
    let ih = groups_of-calls fuel rest key (omega arith) sorted in
    elim (Bool-cases (same_text kv.key key)) [
      | inl t ↦
          let p = (same_text_iff kv.key key).0 t in
          let none_left =
            ih ∙ ap once (values_of-Absent key rest (subst (λ k. Absent k rest) p absent)) in
          rw t (
            ap (λ l. (kv.value ∷ values) ∷ l) none_left
            ∙ ap (λ vs. (kv.value ∷ vs) ∷ []) (v ∙ ap (λ k. values_of k kvs) p))
      | inr f ↦ rw f (ih ∙ ap once (same key (differs kv.key key f)))
    ]
