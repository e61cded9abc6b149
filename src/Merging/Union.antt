-- ===== src/Merging/Union.antt =====
-- The identifiers of a merged finding are the union of those of its sources.
use scintx.Base.{
  String, Bool, true, false, not, ◌&&◌, ◌||◌, Option, none, some, List, [], ◌∷◌, ◌++◌, map,
  flat_map, any, Map, contains, lookup, insert, lookup-insert, ◌==◌, starts_with, eq_iff, ◌≡◌, ◌∙◌,
  refl, sym, subst, ◌⊎◌, arith, Bool-cases, Option-cases, inl, inr, sort, contains-sort,
  contains-append, sort-DistinctTexts, sort-Ordered, append-DistinctTexts, DistinctTexts, Ordered,
  map-contains,
}
use mathlib.Core.List.{map-map}
use scintx.Api.{TypedIdentifier}
use scintx.Merging.Identifiers.{
  SourcePair, Split, no_identifiers, normalize, sift, sift_all, canonical_identifiers, by_norm,
  or_zero, merge_identifiers,
}

-- What the loop over the identifiers keeps.
record IsSplit (p : Split) : Type 0 where
  both : (k : String) → contains k p.seen ≡ (contains k p.cves || contains k p.others)
  anchored : (k : String) → contains k p.cves ≡ true → starts_with k "CVE-" ≡ true
  loose : (k : String) → contains k p.others ≡ true → starts_with k "CVE-" ≡ false
  distinct_cves : DistinctTexts p.cves
  distinct_others : DistinctTexts p.others

distinct_snoc :
    (xs : List String) (x : String)
    → DistinctTexts xs
    → contains x xs ≡ false
    → DistinctTexts (xs ++ x ∷ [])
distinct_snoc xs x d n =
    append-DistinctTexts xs (x ∷ []) d (refl, tt) (λ k h. ground (arith, eq_iff x k))

contains-snoc :
    (k x : String) (xs : List String) → contains k (xs ++ x ∷ []) ≡ (contains k xs || x == k)
contains-snoc k x xs = ground (arith, contains-append k xs (x ∷ []))

sift-IsSplit : (norm : String) (p : Split) → IsSplit p → IsSplit (sift norm p)
unfolding sift
sift-IsSplit norm p v = elim (Bool-cases (norm == "" || contains norm p.seen)) [
  | inl skip ↦ rw skip v
  | inr new ↦ elim (Bool-cases (starts_with norm "CVE-")) [
    | inl c ↦
        rw (new, c)
          (record {
            both = λ k. ground (arith, v.both k, contains-snoc k norm p.cves);
            anchored =
                λ k h. ground (arith, v.anchored k, contains-snoc k norm p.cves, eq_iff norm k);
            loose = v.loose;
            distinct_cves = distinct_snoc p.cves norm v.distinct_cves (ground (arith, v.both norm));
            distinct_others = v.distinct_others;
          })
    | inr c ↦
        rw (new, c)
          (record {
            both = λ k. ground (arith, v.both k, contains-snoc k norm p.others);
            anchored = v.anchored;
            loose = λ k h. ground (arith, v.loose k, contains-snoc k norm p.others, eq_iff norm k);
            distinct_cves = v.distinct_cves;
            distinct_others =
                distinct_snoc p.others norm v.distinct_others (ground (arith, v.both norm));
          })
  ]
]

sift_all-IsSplit : (ids : List TypedIdentifier) (p : Split) → IsSplit p → IsSplit (sift_all ids p)
unfolding sift_all
sift_all-IsSplit [] p v = v
sift_all-IsSplit (id ∷ ids) p v =
    sift_all-IsSplit ids (sift (normalize id) p) (sift-IsSplit (normalize id) p v)

-- Some identifier reads so.
abbrev pub mentions : List TypedIdentifier → String → Bool
mentions ids k = any (λ id. normalize id == k) ids

sift-seen :
    (norm : String) (p : Split) (k : String)
    → contains k (sift norm p).seen ≡ (contains k p.seen || norm == k && not (k == ""))
unfolding sift
sift-seen norm p k = ground (arith, eq_iff norm k, eq_iff norm "", eq_iff k "")

sift_all-seen :
    (ids : List TypedIdentifier) (p : Split) (k : String)
    → contains k (sift_all ids p).seen ≡ (contains k p.seen || mentions ids k && not (k == ""))
unfolding sift_all
sift_all-seen [] p k = ground arith
sift_all-seen (id ∷ ids) p k =
    ground (arith, sift_all-seen ids (sift (normalize id) p) k, sift-seen (normalize id) p k)

module _ (ids : List TypedIdentifier) where
  sifted_lem : IsSplit (sift_all ids no_identifiers)
  sifted_lem = sift_all-IsSplit ids no_identifiers (record {
    both = λ k. refl;
    anchored = λ k h. cc;
    loose = λ k h. cc;
    distinct_cves = tt;
    distinct_others = tt;
  })

  contains-canonical_identifiers :
      (k : String) → contains k (canonical_identifiers ids) ≡ (mentions ids k && not (k == ""))
  unfolding canonical_identifiers
  contains-canonical_identifiers k =
      let p = sift_all ids no_identifiers in
      ground (
        arith,
        contains-append k (sort p.cves) (sort p.others),
        contains-sort k p.cves,
        contains-sort k p.others,
        sifted_lem.both k,
        sift_all-seen ids no_identifiers k,
      )

  canonical_identifiers-DistinctTexts : DistinctTexts (canonical_identifiers ids)
  unfolding canonical_identifiers
  canonical_identifiers-DistinctTexts =
      let p = sift_all ids no_identifiers in
      append-DistinctTexts (sort p.cves) (sort p.others)
        (sort-DistinctTexts p.cves sifted_lem.distinct_cves)
        (sort-DistinctTexts p.others sifted_lem.distinct_others)
        (λ k h. ground (
          arith,
          contains-sort k p.cves,
          contains-sort k p.others,
          sifted_lem.anchored k,
          sifted_lem.loose k,
        ))

-- Every identifier of the map reads as its key.
abbrev Keyed : Map TypedIdentifier → Type 0
Keyed m = (k : String) (id : TypedIdentifier) → lookup k m ≡ some id → normalize id ≡ k

insert-Keyed :
    (id : TypedIdentifier) (m : Map TypedIdentifier) → Keyed m → Keyed (insert (normalize id) id m)
insert-Keyed id m v k x h =
    ground (arith, lookup-insert (normalize id) k id m, eq_iff (normalize id) k, v k x)

by_norm-step :
    (id : TypedIdentifier) (ids : List TypedIdentifier) (m : Map TypedIdentifier)
    → ((lookup (normalize id) m ≡ none)
        × (by_norm (id ∷ ids) m ≡ by_norm ids (insert (normalize id) id m)))
      ⊎ ((x : TypedIdentifier) × (lookup (normalize id) m ≡ some x)
          × (by_norm (id ∷ ids) m ≡ by_norm ids m))
unfolding by_norm
by_norm-step id ids m = elim (Option-cases (lookup (normalize id) m)) [
  | inl n ↦ inl (n, rw (by_norm, n))
  | inr (x, s) ↦ inr (x, s, rw (by_norm, s))
]

by_norm-Keyed :
    (ids : List TypedIdentifier) (m : Map TypedIdentifier) → Keyed m → Keyed (by_norm ids m)
unfolding by_norm
by_norm-Keyed [] m v = v
by_norm-Keyed (id ∷ ids) m v = elim (by_norm-step id ids m) [
  | inl (n, q) ↦
      subst Keyed (sym q) (by_norm-Keyed ids (insert (normalize id) id m) (insert-Keyed id m v))
  | inr (x, s, q) ↦ subst Keyed (sym q) (by_norm-Keyed ids m v)
]

abbrev bound : Option TypedIdentifier → Bool
bound none = false
bound (some id) = true

by_norm-bound :
    (ids : List TypedIdentifier) (m : Map TypedIdentifier) (k : String)
    → (bound (lookup k m) || mentions ids k) ≡ true
    → bound (lookup k (by_norm ids m)) ≡ true
unfolding by_norm
by_norm-bound [] m k h = ground arith
by_norm-bound (id ∷ ids) m k h = elim (by_norm-step id ids m) [
  | inl (n, q) ↦
      subst (λ r. bound (lookup k r) ≡ true) (sym q)
        (by_norm-bound ids (insert (normalize id) id m) k
          (ground (arith, lookup-insert (normalize id) k id m)))
  | inr (x, s, q) ↦
      subst (λ r. bound (lookup k r) ≡ true) (sym q)
        (by_norm-bound ids m k (ground (arith, eq_iff (normalize id) k)))
]

reads_as :
    (o : Option TypedIdentifier) (k : String)
    → bound o ≡ true
    → ((id : TypedIdentifier) → o ≡ some id → normalize id ≡ k)
    → normalize (or_zero o) ≡ k
reads_as none k b h = cc
reads_as (some id) k b h = h id refl

module _ {S : Type 0} (pairs : List (SourcePair S)) where
  -- The identifiers of all sources.
  abbrev pub given : List TypedIdentifier
  given = flat_map (λ p. p.finding.identifiers) pairs

  merged-norms : map normalize (merge_identifiers pairs) ≡ canonical_identifiers given
  unfolding merge_identifiers
  merged-norms =
      map-map _ _ (canonical_identifiers given)
      ∙ map-contains (λ k. normalize (or_zero (lookup k (by_norm given []))))
          (canonical_identifiers given)
          (λ k h.
            reads_as (lookup k (by_norm given [])) k
              (by_norm-bound given [] k (ground (arith, contains-canonical_identifiers given k)))
              (by_norm-Keyed given [] (λ j id e. unfold lookup in cc) k))

  -- Trimmed and in upper case, the identifiers of a merged finding are those of all its sources,
  -- each once, the empty ones left out, with the CVEs in order before the others in order.
  pub merge_identifiers-union :
      DistinctTexts (map normalize (merge_identifiers pairs))
      × ((k : String)
          → contains k (map normalize (merge_identifiers pairs))
            ≡ (mentions given k && not (k == "")))
      × ((cves : List String) × (others : List String) × (map normalize (merge_identifiers pairs)
            ≡ cves ++ others)
          × Ordered cves
          × Ordered others
          × ((k : String) → contains k cves ≡ true → starts_with k "CVE-" ≡ true)
          × ((k : String) → contains k others ≡ true → starts_with k "CVE-" ≡ false))
  merge_identifiers-union =
      let p = sift_all given no_identifiers in
      let v = sifted_lem given in
      rw merged-norms (
        canonical_identifiers-DistinctTexts given,
        contains-canonical_identifiers given,
        (
          sort p.cves,
          sort p.others,
          unfold canonical_identifiers in refl,
          sort-Ordered p.cves,
          sort-Ordered p.others,
          λ k h. ground (arith, contains-sort k p.cves, v.anchored k),
          λ k h. ground (arith, contains-sort k p.others, v.loose k),
        ),
      )
