-- ===== src/Merging/Groups.antt =====
-- The maps of `Aggregate` and `computeSeverity` from keys to lists, with the slices that keep the
-- order in which the keys were first seen: one association list in that order. A group is never
-- empty, so it is kept as its first entry and the others.
use scintx.Base.{
  Bool, true, false, ◌||◌, List, [], ◌∷◌, ◌++◌, any, All, ◌≡◌, ◌↔◌, refl, sym, arith, if◌then◌else◌,
  Bool-cases, inl, inr,
}
use mathlib.Core.List.{append-nil, append_assoc}

abbrev pub Groups : Type 0 → Type 0 → Type 0
Groups K A = List (K × A × List A)

module _ {K A : Type 0} (same : K → K → Bool) where
  -- One round of the loop: a new key goes to the end of the order.
  unfoldable pub collect : K → A → Groups K A → Groups K A
  collect k a [] = (k, a, []) ∷ []
  collect k a ((j, b, bs) ∷ g) =
      if same j k then (j, b, bs ++ a ∷ []) ∷ g else (j, b, bs) ∷ collect k a g

  unfoldable pub collect_all : List (K × A) → Groups K A → Groups K A
  unfolding collect
  collect_all [] g = g
  collect_all ((k, a) ∷ obs) g = collect_all obs (collect k a g)

  pub collect_all-append :
      (xs ys : List (K × A)) (g : Groups K A)
      → collect_all (xs ++ ys) g ≡ collect_all ys (collect_all xs g)
  unfolding collect_all
  collect_all-append [] ys g = refl
  collect_all-append ((k, a) ∷ xs) ys g = collect_all-append xs ys (collect k a g)

  abbrev pub has_group : K → Groups K A → Bool
  has_group k [] = false
  has_group k ((j, b, bs) ∷ g) = same j k || has_group k g

  -- The entries of the group of a key.
  abbrev pub group_of : K → Groups K A → List A
  group_of k [] = []
  group_of k ((j, b, bs) ∷ g) = if same j k then b ∷ bs else group_of k g

  -- The observations under a key, in order.
  abbrev pub under : K → List (K × A) → List A
  under k [] = []
  under k ((j, a) ∷ obs) = let rest = under k obs in if same j k then a ∷ rest else rest

  abbrev pub DistinctGroups : Groups K A → Type 0
  DistinctGroups [] = Unit
  DistinctGroups ((j, b, bs) ∷ g) = (has_group j g ≡ false) × DistinctGroups g

  module _ (same_iff : (j k : K) → (same j k ≡ true) ↔ (j ≡ k)) where
    group_of-collect :
        (j k : K) (a : A) (g : Groups K A)
        → group_of j (collect k a g) ≡ (if same k j then group_of j g ++ a ∷ [] else group_of j g)
    unfolding collect
    group_of-collect j k a [] = ground arith
    group_of-collect j k a ((i, b, bs) ∷ g) =
        ground (arith, same_iff i k, same_iff i j, same_iff k j, group_of-collect j k a g)

    has_group-collect :
        (j k : K) (a : A) (g : Groups K A)
        → has_group j (collect k a g) ≡ (same k j || has_group j g)
    unfolding collect
    has_group-collect j k a [] = ground arith
    has_group-collect j k a ((i, b, bs) ∷ g) =
        ground (arith, same_iff i k, same_iff i j, same_iff k j, has_group-collect j k a g)

    collect-DistinctGroups :
        (k : K) (a : A) (g : Groups K A) → DistinctGroups g → DistinctGroups (collect k a g)
    unfolding collect
    collect-DistinctGroups k a [] d = (refl, tt)
    collect-DistinctGroups k a ((i, b, bs) ∷ g) d = ground (
      arith,
      same_iff i k,
      same_iff k i,
      has_group-collect i k a g,
      collect-DistinctGroups k a g d.1,
    )

    -- The group of a key holds what was there and what was seen under the key, in order.
    pub group_of-collect_all :
        (k : K) (obs : List (K × A)) (g : Groups K A)
        → group_of k (collect_all obs g) ≡ group_of k g ++ under k obs
    unfolding collect_all
    group_of-collect_all k [] g = sym (append-nil (group_of k g))
    group_of-collect_all k ((j, a) ∷ obs) g =
        rw (group_of-collect_all k obs (collect j a g), group_of-collect k j a g)
          (elim (Bool-cases (same j k)) [
            | inl e ↦ rw e (append_assoc (group_of k g) (a ∷ []) (under k obs))
            | inr e ↦ rw e
          ])

    pub collect_all-DistinctGroups :
        (obs : List (K × A)) (g : Groups K A)
        → DistinctGroups g
        → DistinctGroups (collect_all obs g)
    unfolding collect_all
    collect_all-DistinctGroups [] g d = d
    collect_all-DistinctGroups ((j, a) ∷ obs) g d =
        collect_all-DistinctGroups obs (collect j a g) (collect-DistinctGroups j a g d)

    pub has_group-collect_all :
        (k : K) (obs : List (K × A)) (g : Groups K A)
        → has_group k (collect_all obs g) ≡ (has_group k g || any (λ o. same o.0 k) obs)
    unfolding collect_all
    has_group-collect_all k [] g = ground arith
    has_group-collect_all k ((j, a) ∷ obs) g =
        rw (has_group-collect_all k obs (collect j a g), has_group-collect k j a g) (ground arith)

    -- Where keys are distinct every entry is the group of its key.
    pub entries-group_of :
        (g : Groups K A) → DistinctGroups g → All (λ e. group_of e.0 g ≡ e.1 ∷ e.2) g
    entries-group_of [] d = tt
    entries-group_of ((j, b, bs) ∷ g) d =
        (rw ((same_iff j j).1 refl), keep_tail g d.0 (entries-group_of g d.1))
      where
        keep_tail :
            (t : Groups K A)
            → has_group j t ≡ false
            → All (λ e. group_of e.0 g ≡ e.1 ∷ e.2) t
            → All (λ e. group_of e.0 ((j, b, bs) ∷ g) ≡ e.1 ∷ e.2) t
        keep_tail [] n h = tt
        keep_tail ((i, c, cs) ∷ t) n (h, hs) =
            (ground (arith, same_iff i j, same_iff j i), keep_tail t (ground arith) hs)
