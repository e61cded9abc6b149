-- ===== src/Merging/Aggregate.antt =====
-- `Aggregate` and `buildMergedFinding`.
use scintx.Base.{
  String, ◌^^◌, len, Bool, true, false, not, List, [], ◌∷◌, map, length, ltb, Map, ◌==◌,
  if◌then◌else◌,
}
use scintx.Api.{
  Time, Score, Finding, FindingSource, MergedFinding, MergedResult, ProviderResult, ExecutionStatus,
}
use scintx.Merging.Groups.{Groups, collect}
use scintx.Merging.Identifiers.{SourcePair, correlation_key, merge_identifiers}
use scintx.Merging.Reconcile.{reconcile_assessment}
use scintx.Merging.Severity.{compute_severity}

-- DefaultAggregator
pub record Aggregator (S : Type 0) : Type 0 where
  pub strategy : String
  pub provider_weights : Map S

-- NewDefaultAggregator
abbrev pub new_default_aggregator : {S : Type 0} → Aggregator S
new_default_aggregator = record { strategy = "max"; provider_weights = [] }

abbrev pub is_completed : ExecutionStatus → Bool
is_completed ExecutionStatus.completed = true
is_completed _ = false

module _ {S : Type 0} where
  abbrev pub source_of : SourcePair S → FindingSource
  source_of p = record {
    provider_id = p.result.provider.id;
    result_id = p.result.id;
    finding_id = p.finding.id;
  }

  -- The longest title, the first of several; lengths are in bytes.
  unfoldable pub best_title : String → List (SourcePair S) → String
  best_title title [] = title
  best_title title (p ∷ pairs) =
      best_title (if ltb (len title) (len p.finding.title) then p.finding.title else title) pairs

  -- submissionIDFrom
  unfoldable pub submission_id_from : List (ProviderResult S) → String
  submission_id_from [] = ""
  submission_id_from (r ∷ rs) =
      if not (r.submission_id == "") then r.submission_id else submission_id_from rs

module _ {S : Type 0} ⦃F : Score S⦄ where
  -- buildMergedFinding, of a first pair and the others
  unfoldable pub build_merged_finding :
      String → Map S → String × SourcePair S × List (SourcePair S) → MergedFinding S
  unfolding best_title reconcile_assessment compute_severity merge_identifiers
  build_merged_finding strategy weights (key, p, ps) =
      let (assessment, conflicts) = reconcile_assessment (p ∷ ps) in
      record {
        correlation_key = key;
        type = p.finding.type;
        title = best_title p.finding.title ps;
        identifiers = merge_identifiers (p ∷ ps);
        sources = map source_of (p ∷ ps);
        severity = compute_severity strategy weights (p ∷ ps);
        assessment = assessment;
        consensus = record {
          strategy = strategy;
          source_count = length (p ∷ ps);
          conflicts = conflicts;
        };
      }

module _ {S : Type 0} (hash : String → String) where
  -- The inner loop of Aggregate.
  unfoldable pub observe_findings :
      ProviderResult S
      → List (Finding S)
      → Groups String (SourcePair S)
      → Groups String (SourcePair S)
  unfolding collect
  observe_findings r [] g = g
  observe_findings r (f ∷ fs) g =
      observe_findings r fs
        (collect ◌==◌ (correlation_key hash r f) (record { result = r; finding = f }) g)

  -- The outer loop: only the findings of completed results count.
  unfoldable pub observe_results :
      List (ProviderResult S) → Groups String (SourcePair S) → Groups String (SourcePair S)
  unfolding observe_findings
  observe_results [] g = g
  observe_results (r ∷ rs) g =
      observe_results rs
        (if is_completed r.execution.status then observe_findings r r.findings g else g)

module _ {S : Type 0} (hash : String → String) (random_hex : String) (now : Time)
    ⦃F : Score S⦄ where
  -- Aggregate, which returns no error
  unfoldable pub aggregate : Aggregator S → List (ProviderResult S) → MergedResult S
  unfolding observe_results build_merged_finding submission_id_from
  aggregate a results = record {
    id = "mgd_" ^^ random_hex;
    submission_id = submission_id_from results;
    input_result_ids = map (λ r. r.id) results;
    findings =
        map
          (build_merged_finding (if a.strategy == "" then "max" else a.strategy) a.provider_weights)
          (observe_results hash results []);
    merged_at = now;
  }
