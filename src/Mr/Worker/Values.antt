-- ===== src/Mr/Worker/Values.antt =====
-- The values of a key in a list of pairs: under sorts, in buckets, and on the lines of an output.
use Prim.Native.String.{String}
use mathlib.Core.List.{Permᴰ}
use mathlib.Core.List.Permᴰ
use sjytker_my_mit.Base.{
  ℕ, ◌%◌, ◌≡◌, refl, sym, ap, ◌∙◌, subst, ◌≢◌, inl, inr, Bool, true, false, List, [], ◌∷◌, ◌++◌,
  map, arith, same_text, same_text_iff, ◌==◌, if◌then◌else◌, ==_iff, ==_false, Bool-cases,
}
use sjytker_my_mit.Mr.Worker.{KeyValue, ihash}
use sjytker_my_mit.Mr.Worker.Buckets.{in_bucket}
use sjytker_my_mit.Mr.Worker.Groups.{values_of, calls}

-- The outputs on the lines that have this key.
unfoldable pub outputs : String → List (String × String) → List String
outputs key [] = []
outputs key ((k, output) ∷ lines) =
    let rest = outputs key lines in if same_text k key then output ∷ rest else rest

pub outputs-calls :
    (reducef : String → List String → String) (key : String)
    → (groups : List (String × List String))
    → outputs key (map (λ (k, values). (k, reducef k values)) groups)
      ≡ map (reducef key) (calls key groups)
unfolding outputs calls
outputs-calls reducef key [] = refl
outputs-calls reducef key ((k, values) ∷ groups) = elim (Bool-cases (same_text k key)) [
  | inl t ↦
      rw (t, (same_text_iff k key).0 t)
        (ap (λ l. reducef key values ∷ l) (outputs-calls reducef key groups))
  | inr f ↦ rw f (outputs-calls reducef key groups)
]

pub values_of-append :
    (key : String) (kvs more : List KeyValue)
    → values_of key (kvs ++ more) ≡ values_of key kvs ++ values_of key more
unfolding values_of
values_of-append key [] more = refl
values_of-append key (kv ∷ kvs) more = ground (arith, values_of-append key kvs more)

abbrev pick : Bool → String → List String → List String
pick b v l = if b then v ∷ l else l

pick-Permᴰ :
    (b : Bool) (v : String) {l more : List String}
    → Permᴰ l more
    → Permᴰ (pick b v l) (pick b v more)
pick-Permᴰ true v p = Permᴰ.cons refl p
pick-Permᴰ false v p = p

pick-swap :
    (b c : Bool) (v w : String) (l : List String)
    → Permᴰ (pick b v (pick c w l)) (pick c w (pick b v l))
pick-swap true true v w l = Permᴰ.swap refl refl
pick-swap true false v w l = Permᴰ.refl (v ∷ l)
pick-swap false c v w l = Permᴰ.refl (pick c w l)

pub values_of-Permᴰ :
    (key : String) {kvs more : List KeyValue}
    → Permᴰ kvs more
    → Permᴰ (values_of key kvs) (values_of key more)
unfolding values_of
values_of-Permᴰ key Permᴰ.nil = Permᴰ.nil
values_of-Permᴰ key (Permᴰ.cons {a} {b} {l₁} {l₂} e p) =
    subst (λ x. Permᴰ (values_of key (a ∷ l₁)) (values_of key (x ∷ l₂))) e
      (pick-Permᴰ (same_text a.key key) a.value (values_of-Permᴰ key p))
values_of-Permᴰ key (Permᴰ.swap {a} {b} {a'} {b'} {l} e f) =
    subst (λ x. Permᴰ (values_of key (a ∷ b ∷ l)) (values_of key (a' ∷ x ∷ l))) e
      (subst (λ x. Permᴰ (values_of key (a ∷ b ∷ l)) (values_of key (x ∷ a ∷ l))) f
        (pick-swap (same_text a.key key) (same_text b.key key) a.value b.value (values_of key l)))
values_of-Permᴰ key (Permᴰ.trans p q) = Permᴰ.trans (values_of-Permᴰ key p) (values_of-Permᴰ key q)

values_of-drop :
    (c : Bool) (key : String) (kv : KeyValue) (l : List KeyValue)
    → same_text kv.key key ≡ false
    → values_of key (if c then kv ∷ l else l) ≡ values_of key l
unfolding values_of
values_of-drop true key kv l f = rw f refl
values_of-drop false key kv l f = refl

module _ (sum32 : String → ℕ) where
  -- A key has its values in its bucket, and none in another.
  pub values_of-in_bucket :
      (n b : ℕ) (key : String) (kvs : List KeyValue)
      → ihash sum32 key % n ≡ b
      → values_of key (in_bucket sum32 n b kvs) ≡ values_of key kvs
  unfolding values_of in_bucket
  values_of-in_bucket n b key [] h = refl
  values_of-in_bucket n b key (kv ∷ kvs) h = elim (Bool-cases (same_text kv.key key)) [
    | inl t ↦
        rw ((==_iff _ b).1 (ap (λ k. ihash sum32 k % n) ((same_text_iff kv.key key).0 t) ∙ h), t)
          (ap (λ l. kv.value ∷ l) (values_of-in_bucket n b key kvs h))
    | inr f ↦
        values_of-drop (ihash sum32 kv.key % n == b) key kv (in_bucket sum32 n b kvs) f
        ∙ rw f (values_of-in_bucket n b key kvs h)
  ]

  pub values_of-other_bucket :
      (n b : ℕ) (key : String) (kvs : List KeyValue)
      → ihash sum32 key % n ≢ b
      → values_of key (in_bucket sum32 n b kvs) ≡ []
  unfolding values_of in_bucket
  values_of-other_bucket n b key [] h = refl
  values_of-other_bucket n b key (kv ∷ kvs) h = elim (Bool-cases (same_text kv.key key)) [
    | inl t ↦
        rw
          (==_false _ b
            (λ e. h (ap (λ k. ihash sum32 k % n) (sym ((same_text_iff kv.key key).0 t)) ∙ e)))
          (values_of-other_bucket n b key kvs h)
    | inr f ↦
        values_of-drop (ihash sum32 kv.key % n == b) key kv (in_bucket sum32 n b kvs) f
        ∙ values_of-other_bucket n b key kvs h
  ]

pub Permᴰ_nil : (l : List String) → Permᴰ l [] → l ≡ []
Permᴰ_nil [] p = refl
Permᴰ_nil (v ∷ l) p = let q = Permᴰ.length-eq p in absurd cc
