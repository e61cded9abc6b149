-- ===== src/Base/Sorting.antt =====
-- sort.Strings, by code points: on UTF-8 that is the order of the bytes.
use Prim.Native.String.compare
use Prim.Native.String.{String, compare}
use mathlib.Core.Path.{◌≡◌, refl}
use mathlib.Core.Bool.{Bool, true, false, ◌||◌}
use mathlib.Core.List.{List, [], ◌∷◌, ◌++◌, map}
use native.Mathlib.Omega.{arith}
use text.Mathlib.Text.{◌==◌, is_le}
use text.Mathlib.TextEquality.{eq_iff}
use text.Mathlib.TextPositions.{eq_refl}
use scintx.Base.Tests.{if◌then◌else◌}
use scintx.Base.Maps.{contains}

abbrev pub text_le : String → String → Bool
text_le s t = is_le (compare s t)

unfoldable pub insert_sorted : String → List String → List String
insert_sorted x [] = x ∷ []
insert_sorted x (y ∷ ys) = if text_le x y then x ∷ y ∷ ys else y ∷ insert_sorted x ys

unfoldable pub sort : List String → List String
unfolding insert_sorted
sort [] = []
sort (x ∷ xs) = insert_sorted x (sort xs)

-- No text occurs twice.
abbrev pub DistinctTexts : List String → Type 0
DistinctTexts [] = Unit
DistinctTexts (x ∷ xs) = (contains x xs ≡ false) × DistinctTexts xs

-- Each text is at most the next.
abbrev pub Ordered : List String → Type 0
Ordered [] = Unit
Ordered (x ∷ []) = Unit
Ordered (x ∷ y ∷ ys) = (text_le x y ≡ true) × Ordered (y ∷ ys)

text_le_total : (s t : String) → text_le s t ≡ false → text_le t s ≡ true
text_le_total String.[] String.[] h = refl
text_le_total String.[] (String.◌∷◌ d t) h = cc (compare.nil-cons d t)
text_le_total (String.◌∷◌ c s) String.[] h = rw (compare.nil-cons c s)
text_le_total (String.◌∷◌ c s) (String.◌∷◌ d t) h =
    ground (arith, compare.cons-cons c d s t, compare.cons-cons d c t s, text_le_total s t)

contains-insert_sorted :
    (k x : String) (xs : List String) → contains k (insert_sorted x xs) ≡ (x == k || contains k xs)
unfolding insert_sorted
contains-insert_sorted k x [] = refl
contains-insert_sorted k x (y ∷ ys) = ground (arith, contains-insert_sorted k x ys)

pub contains-sort : (k : String) (xs : List String) → contains k (sort xs) ≡ contains k xs
unfolding sort
contains-sort k [] = refl
contains-sort k (x ∷ xs) = ground (arith, contains-sort k xs, contains-insert_sorted k x (sort xs))

insert_sorted-DistinctTexts :
    (x : String) (xs : List String)
    → contains x xs ≡ false
    → DistinctTexts xs
    → DistinctTexts (insert_sorted x xs)
unfolding insert_sorted
insert_sorted-DistinctTexts x [] n d = (refl, tt)
insert_sorted-DistinctTexts x (y ∷ ys) n d =
    ground (
      arith,
      eq_iff x y,
      eq_iff y x,
      contains-insert_sorted y x ys,
      insert_sorted-DistinctTexts x ys,
    )

pub sort-DistinctTexts : (xs : List String) → DistinctTexts xs → DistinctTexts (sort xs)
unfolding sort
sort-DistinctTexts [] d = tt
sort-DistinctTexts (x ∷ xs) d =
    insert_sorted-DistinctTexts x (sort xs) (ground (arith, contains-sort x xs))
      (sort-DistinctTexts xs d.1)

insert_sorted-Ordered : (x : String) (xs : List String) → Ordered xs → Ordered (insert_sorted x xs)
unfolding insert_sorted
insert_sorted-Ordered x [] o = tt
insert_sorted-Ordered x (y ∷ []) o = ground (arith, text_le_total x y)
insert_sorted-Ordered x (y ∷ z ∷ zs) o =
    ground (arith, text_le_total x y, insert_sorted-Ordered x (z ∷ zs) o.1)

pub sort-Ordered : (xs : List String) → Ordered (sort xs)
unfolding sort
sort-Ordered [] = tt
sort-Ordered (x ∷ xs) = insert_sorted-Ordered x (sort xs) (sort-Ordered xs)

pub contains-append :
    (k : String) (xs ys : List String) → contains k (xs ++ ys) ≡ (contains k xs || contains k ys)
contains-append k [] ys = refl
contains-append k (x ∷ xs) ys = ground (arith, contains-append k xs ys)

-- Lists with no text in common stay without a double when they are joined.
pub append-DistinctTexts :
    (xs ys : List String)
    → DistinctTexts xs
    → DistinctTexts ys
    → ((k : String) → contains k xs ≡ true → contains k ys ≡ false)
    → DistinctTexts (xs ++ ys)
append-DistinctTexts [] ys d e n = e
append-DistinctTexts (x ∷ xs) ys d e n = (
  ground (arith, contains-append x xs ys, n x, eq_refl x),
  append-DistinctTexts xs ys d.1 e (λ k h. n k (ground arith)),
)

-- A function that fixes every text of a list fixes the list.
pub map-contains :
    (f : String → String) (xs : List String)
    → ((k : String) → contains k xs ≡ true → f k ≡ k)
    → map f xs ≡ xs
map-contains f [] h = refl
map-contains f (x ∷ xs) h =
    cc (h x (ground (arith, eq_refl x)), map-contains f xs (λ k e. h k (ground arith)))
