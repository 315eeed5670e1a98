-- ===== src/Mr/Worker/Order.antt =====
-- The order of Go's `<` on strings, and sorts by it.
use Prim.Native.Char.{code}
use Prim.Native.String.{String, [], ◌∷◌}
use text.Mathlib.TextEquality.{Char-path}
use sjytker_my_mit.Base.{◌≡◌, refl, ap, ◌∙◌, Bool, true, false, ◌&&◌, ◌||◌, arith, ltb, ◌==◌}

-- s < t
unfoldable pub less : String → String → Bool
less [] [] = false
less [] (d ∷ t) = true
less (c ∷ s) [] = false
less (c ∷ s) (d ∷ t) = let rest = less s t in ltb (code c) (code d) || ((code c == code d) && rest)

pub less-connex : (s t : String) → less s t ≡ false → less t s ≡ false → s ≡ t
unfolding less
less-connex [] [] h k = refl
less-connex [] (d ∷ t) h k = ground arith
less-connex (c ∷ s) [] h k = ground arith
less-connex (c ∷ s) (d ∷ t) h k =
    let p : code c ≡ code d = ground arith in
    let q = less-connex s t (ground arith) (ground arith) in
    ap (λ e. e ∷ s) (Char-path c d p) ∙ ap (λ u. d ∷ u) q

pub less-asym : (s t : String) → less s t ≡ true → less t s ≡ false
unfolding less
less-asym [] [] h = refl
less-asym [] (d ∷ t) h = refl
less-asym (c ∷ s) [] h = ground arith
less-asym (c ∷ s) (d ∷ t) h = ground (arith, less-asym s t)

pub less_trans : (s t u : String) → less t s ≡ false → less u t ≡ false → less u s ≡ false
unfolding less
less_trans [] t [] h k = refl
less_trans [] [] (e ∷ u) h k = refl
less_trans [] (d ∷ t) (e ∷ u) h k = refl
less_trans (c ∷ s) [] u h k = ground arith
less_trans (c ∷ s) (d ∷ t) [] h k = ground arith
less_trans (c ∷ s) (d ∷ t) (e ∷ u) h k = ground (arith, less_trans s t u)
