-- ===== src/Merging/Partition.antt =====
-- Which findings `Aggregate` merges: every finding of a completed result, once.
use scintx.Base.{
  suc, length-map, String, List, [], ◌∷◌, ◌++◌, map, length, any, All, All-map, All-mono, contains,
  DistinctTexts, ◌==◌, eq_iff, ◌≡◌, refl, ap, ◌∙◌, sym, if◌then◌else◌, Bool-cases, inl, inr,
}
use scintx.Api.{Time, Score, Finding, MergedFinding, ProviderResult}
use scintx.Merging.Groups.{
  Groups, collect_all, has_group, under, DistinctGroups, group_of-collect_all,
  collect_all-DistinctGroups, entries-group_of, collect_all-append, has_group-collect_all,
}
use scintx.Merging.Identifiers.{SourcePair, correlation_key}
use scintx.Merging.Aggregate.{
  Aggregator, is_completed, source_of, observe_findings, observe_results, build_merged_finding,
  aggregate,
}

module _ {S : Type 0} (hash : String → String) where
  -- The findings of a result, with their keys.
  abbrev keyed : ProviderResult S → List (Finding S) → List (String × SourcePair S)
  keyed r [] = []
  keyed r (f ∷ fs) = (correlation_key hash r f, record { result = r; finding = f }) ∷ keyed r fs

  -- All findings of the completed results, in order.
  abbrev pub observations : List (ProviderResult S) → List (String × SourcePair S)
  observations [] = []
  observations (r ∷ rs) =
      if is_completed r.execution.status
      then keyed r r.findings ++ observations rs
      else observations rs

  observe_findings-collect_all :
      (r : ProviderResult S) (fs : List (Finding S)) (g : Groups String (SourcePair S))
      → observe_findings hash r fs g ≡ collect_all ◌==◌ (keyed r fs) g
  unfolding observe_findings collect_all
  observe_findings-collect_all r [] g = refl
  observe_findings-collect_all r (f ∷ fs) g = observe_findings-collect_all r fs _

  observe_results-collect_all :
      (rs : List (ProviderResult S)) (g : Groups String (SourcePair S))
      → observe_results hash rs g ≡ collect_all ◌==◌ (observations rs) g
  unfolding observe_results
  observe_results-collect_all [] g = unfold collect_all in refl
  observe_results-collect_all (r ∷ rs) g = elim (Bool-cases (is_completed r.execution.status)) [
    | inl c ↦ rw (
      c,
      collect_all-append,
      observe_results-collect_all rs _,
      observe_findings-collect_all r r.findings g,
    )
    | inr c ↦ rw c (observe_results-collect_all rs g)
  ]

has_group-contains :
    {A B : Type 0} (f : String × A × List A → B) (key : B → String) (k : String)
    (g : Groups String A)
    → ((e : String × A × List A) → key (f e) ≡ e.0)
    → contains k (map key (map f g)) ≡ has_group ◌==◌ k g
has_group-contains f key k [] h = refl
has_group-contains f key k ((j, b, bs) ∷ g) h = rw (h (j, b, bs), has_group-contains f key k g h)

DistinctGroups-keys :
    {A B : Type 0} (f : String × A × List A → B) (key : B → String) (g : Groups String A)
    → ((e : String × A × List A) → key (f e) ≡ e.0)
    → DistinctGroups ◌==◌ g
    → DistinctTexts (map key (map f g))
DistinctGroups-keys f key [] h d = tt
DistinctGroups-keys f key ((j, b, bs) ∷ g) h d =
    (rw (h (j, b, bs), has_group-contains f key j g h) d.0, DistinctGroups-keys f key g h d.1)

module _ {S : Type 0} (hash : String → String) (random_hex : String) (now : Time) ⦃F : Score S⦄
    (a : Aggregator S) (results : List (ProviderResult S)) where
  -- No two merged findings have a key in common, and there is one for each key of a finding of a
  -- completed result. Its sources are all such findings with its key, in their order, and their
  -- number is its source count: nothing that a completed provider found is lost or counted twice.
  pub aggregate-sources :
      let merged = aggregate hash random_hex now a results in
      DistinctTexts (map (λ mf. mf.correlation_key) merged.findings)
      × ((k : String)
          → contains k (map (λ mf. mf.correlation_key) merged.findings)
            ≡ any (λ o. o.0 == k) (observations hash results))
      × All
          (λ mf.
            (mf.sources ≡ map source_of (under ◌==◌ mf.correlation_key (observations hash results)))
            × (mf.consensus.source_count ≡ length mf.sources))
          merged.findings
  unfolding aggregate build_merged_finding
  aggregate-sources = rw (observe_results-collect_all hash results []) (
    DistinctGroups-keys build (λ mf. mf.correlation_key) (collect_all ◌==◌ obs []) (λ e. refl)
        (collect_all-DistinctGroups ◌==◌ eq_iff obs [] tt),
    (λ k.
        has_group-contains build (λ mf. mf.correlation_key) k (collect_all ◌==◌ obs []) (λ e. refl)
        ∙ has_group-collect_all ◌==◌ eq_iff k obs []),
    All-map _ build (collect_all ◌==◌ obs []) (
        All-mono
          (λ e h. (
            ap (map source_of) (sym h ∙ group_of-collect_all ◌==◌ eq_iff e.0 obs []),
            ap suc (sym (length-map source_of e.2)),
          ))
          (collect_all ◌==◌ obs [])
          (entries-group_of ◌==◌ eq_iff (collect_all ◌==◌ obs [])
            (collect_all-DistinctGroups ◌==◌ eq_iff obs [] tt))),
  )
    where
      obs : List (String × SourcePair S)
      obs = observations hash results

      build : String × SourcePair S × List (SourcePair S) → MergedFinding S
      build =
          build_merged_finding (if a.strategy == "" then "max" else a.strategy) a.provider_weights
