-- ===== src/Mr/Apps/Texts.antt =====
-- Lists of texts: how often a text is in one, under permutations, sorts and for distinct words.
use Prim.Native.String.{String}
use mathlib.Core.List.{Permᴰ}
use sjytker_my_mit.Base.{
  ℕ, suc, ◌<◌, ◌≡◌, refl, ap, ◌∙◌, subst, inl, inr, false, not, List, [], ◌∷◌, arith, same_text,
  same_text_iff, ◌==◌, if◌then◌else◌, Bool-cases, length,
}
use sjytker_my_mit.Mr.Worker.Order.{less, less-connex}
use sjytker_my_mit.Mr.Apps.{distinct, has_text}

pub Permᴰ-length {ℓ} : {A : Type ℓ} {xs ys : List A} → Permᴰ xs ys → length xs ≡ length ys
Permᴰ-length Permᴰ.nil = refl
Permᴰ-length (Permᴰ.cons e p) = omega (arith, Permᴰ-length p)
Permᴰ-length (Permᴰ.swap {l} e f) = omega arith
Permᴰ-length (Permᴰ.trans p q) = Permᴰ-length p ∙ Permᴰ-length q

-- How often a word is in a list of words.
abbrev pub occurrences : String → List String → ℕ
occurrences word [] = 0
occurrences word (w ∷ words) =
    let rest = occurrences word words in if same_text w word then suc rest else rest

pub occurrences-Permᴰ :
    (word : String) {xs ys : List String} → Permᴰ xs ys → occurrences word xs ≡ occurrences word ys
occurrences-Permᴰ word Permᴰ.nil = refl
occurrences-Permᴰ word (Permᴰ.cons {a} {b} {l₁} {l₂} e p) =
    rw e (ground (arith, occurrences-Permᴰ word p))
occurrences-Permᴰ word (Permᴰ.swap {a} {b} {a'} {b'} {l} e f) = rw (e, f) (ground arith)
occurrences-Permᴰ word (Permᴰ.trans p q) = occurrences-Permᴰ word p ∙ occurrences-Permᴰ word q

-- No text of the list is less.
abbrev pub Over : String → List String → Type 0
Over low [] = Unit
Over low (s ∷ ss) = (less s low ≡ false) × Over low ss

-- What sort.Strings promises: no text is less than one before it.
abbrev pub InOrder : List String → Type 0
InOrder [] = Unit
InOrder (s ∷ ss) = Over s ss × InOrder ss

Over-occurrences :
    (low word : String) (ss : List String)
    → Over low ss
    → 0 < occurrences word ss
    → less word low ≡ false
Over-occurrences low word [] h k = absurd (omega arith)
Over-occurrences low word (s ∷ ss) (h, hs) k = elim (Bool-cases (same_text s word)) [
  | inl t ↦ subst (λ w. less w low ≡ false) ((same_text_iff s word).0 t) h
  | inr f ↦ Over-occurrences low word ss hs (ground arith)
]

occurrences_self : (x : String) (xs : List String) → 0 < occurrences x (x ∷ xs)
occurrences_self x xs = rw ((same_text_iff x x).1 refl) (omega arith)

-- There is one way to put texts in order.
pub InOrder-unique :
    (xs ys : List String)
    → InOrder xs
    → InOrder ys
    → ((w : String) → occurrences w xs ≡ occurrences w ys)
    → xs ≡ ys
InOrder-unique [] [] s t h = refl
InOrder-unique [] (y ∷ ys) s t h = absurd (omega (arith, h y, occurrences_self y ys))
InOrder-unique (x ∷ xs) [] s t h = absurd (omega (arith, h x, occurrences_self x xs))
InOrder-unique (x ∷ xs) (y ∷ ys) (a, s) (b, t) h =
    let same : x ≡ y = elim (Bool-cases (same_text x y)) [
      | inl e ↦ (same_text_iff x y).0 e
      | inr f ↦
          less-connex x y
            (Over-occurrences y x ys b
              (ground (arith, h x, occurrences_self x xs, same_text_iff x y, same_text_iff y x)))
            (Over-occurrences x y xs a
              (ground (arith, h y, occurrences_self y ys, same_text_iff x y, same_text_iff y x)))
    ] in
    let rest =
      InOrder-unique xs ys s t
        (λ w. ground (arith, h w, same, same_text_iff x w, same_text_iff y w)) in
    ap (λ z. z ∷ xs) same ∙ ap (λ l. y ∷ l) rest

has_text-occurrences : (w : String) (ws : List String) → has_text w ws ≡ not (occurrences w ws == 0)
has_text-occurrences w [] = refl
has_text-occurrences w (v ∷ vs) = ground (arith, has_text-occurrences w vs)

-- A word is once among the distinct words, or not at all.
pub occurrences-distinct :
    (word : String) (words : List String)
    → occurrences word (distinct words) ≡ (if occurrences word words == 0 then 0 else 1)
unfolding distinct
occurrences-distinct word [] = refl
occurrences-distinct word (w ∷ words) = elim (Bool-cases (same_text w word)) [
  | inl t ↦ rw (← ((same_text_iff w word).0 t)) (
      ground (
        arith,
        has_text-occurrences w (distinct words),
        occurrences-distinct w words,
        (same_text_iff w w).1 refl,
      ))
  | inr f ↦ ground (arith, occurrences-distinct word words)
]
