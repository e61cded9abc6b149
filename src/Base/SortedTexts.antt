-- ===== src/Base/SortedTexts.antt =====
-- A sorted list without doubles is fixed by what it contains.
use Prim.Native.String.compare
use Prim.Native.String.{String}
use mathlib.Core.Path.{◌≡◌, refl, sym, ap, ◌∙◌, subst}
use mathlib.Core.Logic.{inl, inr}
use mathlib.Core.Bool.{true}
use mathlib.Core.List.{List, [], ◌∷◌}
use native.Mathlib.Omega.{arith}
use text.Mathlib.Text.{◌==◌}
use text.Mathlib.TextEquality.{eq_iff, codes_equal}
use text.Mathlib.TextPositions.{eq_refl}
use scintx.Base.Tests.{Bool-cases}
use scintx.Base.Maps.{contains}
use scintx.Base.Sorting.{text_le, DistinctTexts, Ordered}

text_le_antisym : (s t : String) → text_le s t ≡ true → text_le t s ≡ true → s ≡ t
text_le_antisym String.[] String.[] h g = refl
text_le_antisym String.[] (String.◌∷◌ d t) h g = cc (compare.cons-nil d t)
text_le_antisym (String.◌∷◌ c s) String.[] h g = cc (compare.cons-nil c s)
text_le_antisym (String.◌∷◌ c s) (String.◌∷◌ d t) h g = ground (
  arith,
  compare.cons-cons c d s t,
  compare.cons-cons d c t s,
  text_le_antisym s t,
  codes_equal c d,
)

text_le_trans : (s t u : String) → text_le s t ≡ true → text_le t u ≡ true → text_le s u ≡ true
text_le_trans String.[] t String.[] h g = refl
text_le_trans String.[] t (String.◌∷◌ e u) h g = cc (compare.nil-cons e u)
text_le_trans (String.◌∷◌ c s) String.[] u h g = cc (compare.cons-nil c s)
text_le_trans (String.◌∷◌ c s) (String.◌∷◌ d t) String.[] h g = cc (compare.cons-nil d t)
text_le_trans (String.◌∷◌ c s) (String.◌∷◌ d t) (String.◌∷◌ e u) h g = ground (
  arith,
  compare.cons-cons c d s t,
  compare.cons-cons d e t u,
  compare.cons-cons c e s u,
  text_le_trans s t u,
)

head-first :
    (x k : String) (xs : List String) → Ordered (x ∷ xs) → contains k xs ≡ true → text_le x k ≡ true
head-first x k [] o c = cc
head-first x k (y ∷ ys) o c = elim (Bool-cases (y == k)) [
  | inl e ↦ subst (λ z. text_le x z ≡ true) ((eq_iff y k).0 e) o.0
  | inr e ↦ text_le_trans x y k o.0 (head-first y k ys o.1 (ground arith))
]

tail-Ordered : (x : String) (xs : List String) → Ordered (x ∷ xs) → Ordered xs
tail-Ordered x [] o = tt
tail-Ordered x (y ∷ ys) o = o.1

pub sorted_unique :
    (xs ys : List String)
    → Ordered xs
    → Ordered ys
    → DistinctTexts xs
    → DistinctTexts ys
    → ((k : String) → contains k xs ≡ contains k ys)
    → xs ≡ ys
sorted_unique [] [] o p d e same = refl
sorted_unique [] (y ∷ ys) o p d e same = ground (arith, same y, eq_refl y)
sorted_unique (x ∷ xs) [] o p d e same = ground (arith, same x, eq_refl x)
sorted_unique (x ∷ xs) (y ∷ ys) o p d e same =
    let heads : x ≡ y = elim (Bool-cases (y == x)) [
      | inl h ↦ sym ((eq_iff y x).0 h)
      | inr h ↦
          text_le_antisym x y
            (head-first x y xs o (ground (arith, same y, eq_refl y, eq_iff x y, eq_iff y x)))
            (head-first y x ys p (ground (arith, same x, eq_refl x)))
    ] in
    let tails : (k : String) → contains k xs ≡ contains k ys =
      λ k. ground (arith, same k, heads, d.0, e.0, eq_iff x k, eq_iff y k) in
    ap (λ z. z ∷ xs) heads
    ∙ ap (λ zs. y ∷ zs)
        (sorted_unique xs ys (tail-Ordered x xs o) (tail-Ordered y ys p) d.1 e.1 tails)
