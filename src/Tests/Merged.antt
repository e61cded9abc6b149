-- ===== src/Tests/Merged.antt =====
-- Merging, at the findings of two providers.
use scintx.Base.{
  ℕ, String, true, false, Option, none, some, List, [], ◌∷◌, ◌++◌, map, length, any, All, contains,
  DistinctTexts, Ordered, ◌==◌, ◌≡◌, ◌≢◌, ◌&&◌, not, starts_with, eq_iff, arith,
}
use scintx.Api.{ProviderResult, TypedIdentifier, IdentifierRelation, AssessmentStatus}
use scintx.Merging.Groups.{under}
use scintx.Merging.Identifiers.{SourcePair, normalize, merge_identifiers}
use scintx.Merging.Severity.{ScoredObservation, merge_scheme_observations}
use scintx.Merging.Aggregate.{new_default_aggregator, source_of, aggregate}
use scintx.Merging.Partition.{observations, aggregate-sources}
use scintx.Merging.Maximum.{Among, AtMost, merge_scheme_observations-max}
use scintx.Merging.Union.{given, mentions, merge_identifiers-union}
use scintx.Tests.Samples.{whole_scores, finding, observation, passing, failing, late}

abbrev digest : String → String
digest s = s

abbrev results : List (ProviderResult ℕ)
results = failing ∷ late ∷ passing ∷ failing ∷ []

aggregate-sources_example :
    let merged = aggregate digest "01" 7 new_default_aggregator results in
    DistinctTexts (map (λ mf. mf.correlation_key) merged.findings)
    × ((k : String)
        → contains k (map (λ mf. mf.correlation_key) merged.findings)
          ≡ any (λ o. o.0 == k) (observations digest results))
    × All
        (λ mf.
          (mf.sources ≡ map source_of (under ◌==◌ mf.correlation_key (observations digest results)))
          × (mf.consensus.source_count ≡ length mf.sources))
        merged.findings
aggregate-sources_example = aggregate-sources digest "01" 7 new_default_aggregator results

abbrev cve : String → TypedIdentifier
cve v = record { scheme = "cve"; value = v; relation = IdentifierRelation.none }

abbrev assessed_as : AssessmentStatus → List TypedIdentifier → SourcePair ℕ
assessed_as s ids = record {
  result = failing;
  finding = record finding {
    assessment = some (record { status = s; justification = "why"; detail = "" });
    identifiers = ids;
  };
}

abbrev pairs : List (SourcePair ℕ)
pairs =
    assessed_as AssessmentStatus.not_affected (cve "ghsa-1" ∷ cve " cve-2" ∷ [])
    ∷ assessed_as AssessmentStatus.affected (cve "CVE-1" ∷ cve "CVE-2" ∷ [])
    ∷ []

abbrev strategy : String
strategy = "max"

max-mean : strategy ≢ "mean"
max-mean e = ground (arith, eq_iff "max" "mean")

max-trust_weighted : strategy ≢ "trust_weighted"
max-trust_weighted e = ground (arith, eq_iff "max" "trust_weighted")

abbrev scored : Option ℕ → ScoredObservation ℕ
scored s = record { obs = record observation { score = s }; weight = 1 }

merge_scheme_observations-max_example :
    Among
      (merge_scheme_observations strategy (scored (some 4)) (scored none ∷ scored (some 9) ∷ []))
      (scored (some 4) ∷ scored none ∷ scored (some 9) ∷ [])
    × All
        (λ x.
          AtMost x.obs.score
            (merge_scheme_observations strategy
              (scored (some 4))
              (scored none ∷ scored (some 9) ∷ [])).score)
        (scored (some 4) ∷ scored none ∷ scored (some 9) ∷ [])
merge_scheme_observations-max_example =
    merge_scheme_observations-max strategy (scored (some 4)) (scored none ∷ scored (some 9) ∷ [])
      max-mean max-trust_weighted

merge_identifiers-union_example :
    DistinctTexts (map normalize (merge_identifiers pairs))
    × ((k : String)
        → contains k (map normalize (merge_identifiers pairs))
          ≡ (mentions (given pairs) k && not (k == "")))
    × ((cves : List String) × (others : List String) × (map normalize (merge_identifiers pairs)
          ≡ cves ++ others)
        × Ordered cves
        × Ordered others
        × ((k : String) → contains k cves ≡ true → starts_with k "CVE-" ≡ true)
        × ((k : String) → contains k others ≡ true → starts_with k "CVE-" ≡ false))
merge_identifiers-union_example = merge_identifiers-union pairs
