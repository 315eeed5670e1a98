-- ===== src/Mr/Worker/Sorting.antt =====
-- An insertion sort by key, which does what sort.Sort promises.
use Prim.Native.String.{String}
use mathlib.Core.List.{Permᴰ}
use mathlib.Core.List.Permᴰ
use sjytker_my_mit.Base.{
  ◌≡◌, refl, sym, subst, inl, inr, true, false, List, [], ◌∷◌, if◌then◌else◌, Bool-cases,
}
use sjytker_my_mit.Mr.Worker.{KeyValue}
use sjytker_my_mit.Mr.Worker.Order.{less, less-asym, less_trans}
use sjytker_my_mit.Mr.Worker.Groups.{Above, Sorted}

unfoldable pub insert : KeyValue → List KeyValue → List KeyValue
insert x [] = x ∷ []
insert x (y ∷ ys) = let rest = insert x ys in if less x.key y.key then x ∷ y ∷ ys else y ∷ rest

unfoldable pub sort : List KeyValue → List KeyValue
unfolding insert
sort [] = []
sort (x ∷ xs) = insert x (sort xs)

insert-stop :
    (x y : KeyValue) (ys : List KeyValue) → less x.key y.key ≡ true → insert x (y ∷ ys) ≡ x ∷ y ∷ ys
unfolding insert
insert-stop x y ys h = rw h refl

insert-on :
    (x y : KeyValue) (ys : List KeyValue)
    → less x.key y.key ≡ false
    → insert x (y ∷ ys) ≡ y ∷ insert x ys
unfolding insert
insert-on x y ys h = rw h refl

insert-Permᴰ : (x : KeyValue) (xs : List KeyValue) → Permᴰ (insert x xs) (x ∷ xs)
unfolding insert
insert-Permᴰ x [] = Permᴰ.refl (x ∷ [])
insert-Permᴰ x (y ∷ ys) = elim (Bool-cases (less x.key y.key)) [
  | inl t ↦ subst (λ l. Permᴰ l (x ∷ y ∷ ys)) (sym (insert-stop x y ys t)) (Permᴰ.refl (x ∷ y ∷ ys))
  | inr f ↦
      subst (λ l. Permᴰ l (x ∷ y ∷ ys)) (sym (insert-on x y ys f))
        (Permᴰ.trans (Permᴰ.cons refl (insert-Permᴰ x ys)) (Permᴰ.swap refl refl))
]

pub sort-Permᴰ : (xs : List KeyValue) → Permᴰ (sort xs) xs
unfolding sort
sort-Permᴰ [] = Permᴰ.nil
sort-Permᴰ (x ∷ xs) = Permᴰ.trans (insert-Permᴰ x (sort xs)) (Permᴰ.cons refl (sort-Permᴰ xs))

Above-lower :
    (low high : String) (xs : List KeyValue) → less high low ≡ false → Above high xs → Above low xs
Above-lower low high [] h a = tt
Above-lower low high (x ∷ xs) h (a, as_) =
    (less_trans low high x.key h a, Above-lower low high xs h as_)

insert-Above :
    (low : String) (x : KeyValue) (xs : List KeyValue)
    → less x.key low ≡ false
    → Above low xs
    → Above low (insert x xs)
unfolding insert
insert-Above low x [] h a = (h, tt)
insert-Above low x (y ∷ ys) h (a, b) = elim (Bool-cases (less x.key y.key)) [
  | inl t ↦ subst (Above low) (sym (insert-stop x y ys t)) (h, (a, b))
  | inr f ↦ subst (Above low) (sym (insert-on x y ys f)) (a, insert-Above low x ys h b)
]

insert-Sorted : (x : KeyValue) (xs : List KeyValue) → Sorted xs → Sorted (insert x xs)
unfolding insert
insert-Sorted x [] s = (tt, tt)
insert-Sorted x (y ∷ ys) (a, s) = elim (Bool-cases (less x.key y.key)) [
  | inl t ↦
      let low = less-asym x.key y.key t in
      subst Sorted (sym (insert-stop x y ys t)) ((low, Above-lower x.key y.key ys low a), (a, s))
  | inr f ↦
      subst Sorted (sym (insert-on x y ys f)) (insert-Above y.key x ys f a, insert-Sorted x ys s)
]

pub sort-Sorted : (xs : List KeyValue) → Sorted (sort xs)
unfolding sort
sort-Sorted [] = tt
sort-Sorted (x ∷ xs) = insert-Sorted x (sort xs) (sort-Sorted xs)
