-- ===== src/Base/Maps.antt =====
-- A Go map with string keys, as an association list. Where the source ranges over a map, the
-- order of the list stands for the order, which Go leaves open.
use Prim.Native.String.{String}
use mathlib.Core.Path.{◌≡◌, refl, ap}
use mathlib.Core.Logic.{inl, inr}
use mathlib.Core.Bool.{Bool, false, ◌||◌}
use mathlib.Core.List.{List, [], ◌∷◌}
use mathlib.Core.Option.{Option, none, some}
use native.Mathlib.Omega.{arith}
use text.Mathlib.Text.{◌==◌}
use text.Mathlib.TextEquality.{eq_iff}
use scintx.Base.Tests.{if◌then◌else◌, Bool-cases}

abbrev pub Map {ℓ} : Type ℓ → Type ℓ
Map V = List (String × V)

-- slices.Contains on strings, and the loops of the source that do the same.
abbrev pub contains : String → List String → Bool
contains x [] = false
contains x (y ∷ ys) = y == x || contains x ys

module _ {ℓ} {V : Type ℓ} where
  unfoldable pub lookup : String → Map V → Option V
  lookup wanted [] = none
  lookup wanted ((k, v) ∷ rest) = if k == wanted then some v else lookup wanted rest

  unfoldable pub delete : String → Map V → Map V
  delete k [] = []
  delete k ((j, w) ∷ m) = let rest = delete k m in if j == k then rest else (j, w) ∷ rest

  unfoldable pub insert : String → V → Map V → Map V
  insert key new [] = (key, new) ∷ []
  insert key new ((k, old) ∷ rest) =
      if k == key then (key, new) ∷ rest else (k, old) ∷ insert key new rest

  abbrev pub keys : Map V → List String
  keys [] = []
  keys ((j, w) ∷ m) = j ∷ keys m

  abbrev pub values : Map V → List V
  values [] = []
  values ((j, w) ∷ m) = w ∷ values m

  -- No key occurs twice.
  abbrev pub DistinctKeys : Map V → Type 0
  DistinctKeys [] = Unit
  DistinctKeys ((j, w) ∷ m) = (contains j (keys m) ≡ false) × DistinctKeys m

  pub lookup-insert :
      (k j : String) (v : V) (m : Map V)
      → lookup j (insert k v m) ≡ (if k == j then some v else lookup j m)
  unfolding lookup insert
  lookup-insert k j v [] = refl
  lookup-insert k j v ((i, old) ∷ rest) =
      ground (arith, lookup-insert k j v rest, eq_iff i j, eq_iff i k, eq_iff k j)

  pub lookup-delete :
      (k j : String) (m : Map V) → lookup j (delete k m) ≡ (if k == j then none else lookup j m)
  unfolding lookup delete
  lookup-delete k j [] = ground arith
  lookup-delete k j ((i, w) ∷ m) =
      ground (arith, eq_iff k j, eq_iff i k, eq_iff i j, lookup-delete k j m)

  pub delete-missing : (k : String) (m : Map V) → lookup k m ≡ none → delete k m ≡ m
  unfolding lookup delete
  delete-missing k [] e = refl
  delete-missing k ((j, w) ∷ m) e = elim (Bool-cases (j == k)) [
    | inl h ↦ ground arith
    | inr h ↦ rw h (ap (λ u. (j, w) ∷ u) (delete-missing k m (ground arith)))
  ]

  pub lookup-contains : (k : String) (m : Map V) → contains k (keys m) ≡ false → lookup k m ≡ none
  unfolding lookup
  lookup-contains k [] h = refl
  lookup-contains k ((i, w) ∷ m) h = ground (arith, lookup-contains k m)

  pub contains-insert :
      (k j : String) (v : V) (m : Map V)
      → contains j (keys (insert k v m)) ≡ (k == j || contains j (keys m))
  unfolding insert
  contains-insert k j v [] = refl
  contains-insert k j v ((i, w) ∷ m) =
      ground (arith, eq_iff k j, eq_iff i k, eq_iff i j, contains-insert k j v m)

  pub insert-DistinctKeys :
      (k : String) (v : V) (m : Map V) → DistinctKeys m → DistinctKeys (insert k v m)
  unfolding insert
  insert-DistinctKeys k v [] d = (refl, tt)
  insert-DistinctKeys k v ((i, w) ∷ m) d =
      ground (arith, eq_iff i k, eq_iff k i, contains-insert k i v m, insert-DistinctKeys k v m d.1)

  pub contains-delete :
      (k j : String) (m : Map V)
      → contains j (keys (delete k m)) ≡ (if k == j then false else contains j (keys m))
  unfolding delete
  contains-delete k j [] = ground arith
  contains-delete k j ((i, w) ∷ m) =
      ground (arith, eq_iff k j, eq_iff i k, eq_iff i j, contains-delete k j m)

  pub delete-DistinctKeys : (k : String) (m : Map V) → DistinctKeys m → DistinctKeys (delete k m)
  unfolding delete
  delete-DistinctKeys k [] d = tt
  delete-DistinctKeys k ((i, w) ∷ m) d =
      ground (arith, contains-delete k i m, delete-DistinctKeys k m d.1)

pub ruleset map_laws = (lookup-insert, lookup-delete)

-- The same function applied to every value, as a loop that updates the values in place does.
abbrev pub map_values {ℓ} : {V : Type ℓ} → (V → V) → Map V → Map V
map_values f [] = []
map_values f ((k, v) ∷ m) = (k, f v) ∷ map_values f m

abbrev pub map_option {ℓ} : {V : Type ℓ} → (V → V) → Option V → Option V
map_option f none = none
map_option f (some v) = some (f v)

module _ {ℓ} {V : Type ℓ} (f : V → V) where
  pub lookup-map_values :
      (k : String) (m : Map V) → lookup k (map_values f m) ≡ map_option f (lookup k m)
  unfolding lookup
  lookup-map_values k [] = refl
  lookup-map_values k ((j, v) ∷ m) = ground (arith, lookup-map_values k m)

  pub keys-map_values : (m : Map V) → keys (map_values f m) ≡ keys m
  keys-map_values [] = refl
  keys-map_values ((j, v) ∷ m) = cc (keys-map_values m)

  pub map_values-DistinctKeys : (m : Map V) → DistinctKeys m → DistinctKeys (map_values f m)
  map_values-DistinctKeys [] d = tt
  map_values-DistinctKeys ((j, v) ∷ m) d =
      (rw (keys-map_values m) d.0, map_values-DistinctKeys m d.1)
