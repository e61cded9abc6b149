-- ===== src/Policy/Merged.antt =====
-- extensions/policies/yaml/evaluate.go: `evaluateMergedDoc`, over deduplicated findings.
use scintx.Base.{String, ◌^^◌, Option, none, some, List, [], ◌∷◌, join}
use scintx.Api.{
  Time, Duration, Fields, Score, Finding, SubjectOrigin, MergedFinding, MergedResult,
  ProviderResult, ExecutionStatus, Verdict, DecisionReason, PolicyDecision, PolicyDecisionValue,
  decision_value, Submission,
}
use scintx.Policy.Rank.{decision_or}
use scintx.Policy.Document.{Document, Spec}
use scintx.Policy.Rules.{MatchedRule, match_finding}
use scintx.Policy.Evaluate.{
  Progress, raise, baseline, timed_out, errored, verdict_missing, start, result_ids, conclude,
}

-- primarySource
unfoldable pub primary_source : {S : Type 0} → MergedFinding S → String × String
primary_source mf = elim mf.sources [
  | [] ↦ ("none", "none")
  | s ∷ rest ↦ (s.result_id, s.finding_id)
]

module _ {S : Type 0} where
  unfoldable pub on_missing : Option Verdict → Spec S → ProviderResult S → Progress S → Progress S
  unfolding verdict_missing
  on_missing none spec r p = verdict_missing spec r p
  on_missing (some v) spec r p = p

  -- Phase 1, the execution-level outcome of one result.
  unfoldable pub execution_step :
      ExecutionStatus → Spec S → ProviderResult S → Progress S → Progress S
  unfolding on_missing timed_out errored
  execution_step ExecutionStatus.completed spec r p = on_missing r.verdict spec r p
  execution_step ExecutionStatus.timeout spec r p = timed_out spec r p
  execution_step _ spec r p = errored spec r p

  unfoldable pub phase_executions : Spec S → List (ProviderResult S) → Progress S → Progress S
  unfolding execution_step
  phase_executions spec [] p = p
  phase_executions spec (r ∷ rs) p =
      phase_executions spec rs (execution_step r.execution.status spec r p)

  -- Phase 2, the verdict-level baseline of one result.
  unfoldable pub verdict_step :
      ExecutionStatus → Option Verdict → Spec S → PolicyDecisionValue → PolicyDecisionValue
  unfolding baseline
  verdict_step ExecutionStatus.completed (some v) spec d = baseline spec v d
  verdict_step _ v spec d = d

  unfoldable pub phase_verdicts : Spec S → List (ProviderResult S) → Progress S → Progress S
  unfolding verdict_step
  phase_verdicts spec [] p = p
  phase_verdicts spec (r ∷ rs) p =
      phase_verdicts spec rs
        (record p { decision = verdict_step r.execution.status r.verdict spec p.decision })

  -- The reason for a disagreement between the providers.
  unfoldable pub conflict_reason : MergedFinding S → DecisionReason S
  unfolding primary_source
  conflict_reason mf =
      let (result_id, finding_id) = primary_source mf in
      record {
        code = "assessment_conflict";
        result_id = result_id;
        finding_id = finding_id;
        severity_ref = none;
        message =
            "Providers disagreed on assessment for finding "
            ^^ finding_id
            ^^ " (conflicting result_ids: "
            ^^ join ", " mf.consensus.conflicts
            ^^ ")";
      }

  unfoldable pub on_conflicts : List String → Spec S → MergedFinding S → Progress S → Progress S
  unfolding raise conflict_reason
  on_conflicts [] spec mf p = p
  on_conflicts (c ∷ cs) spec mf p =
      raise (decision_or spec.merge_conflicts PolicyDecisionValue.review) (conflict_reason mf) p

  -- The Finding-shaped value that the rules are applied to.
  unfoldable pub synthetic : MergedFinding S → Finding S
  unfolding primary_source
  synthetic mf = record {
    id = (primary_source mf).1;
    type = mf.type;
    title = "";
    description = "";
    identifiers = mf.identifiers;
    subjects = [];
    subject_origin = SubjectOrigin.unset;
    subject_path = [];
    severity = mf.severity;
    weaknesses = [];
    assessment = mf.assessment;
    references = [];
    evidence = [];
    remediation = none;
    fingerprints = [];
    metrics = [];
    extensions = Fields.end;
  }

  unfoldable pub apply_rule : Option (MatchedRule S) → MergedFinding S → Progress S → Progress S
  unfolding raise primary_source
  apply_rule none mf p = p
  apply_rule (some m) mf p =
      let (result_id, finding_id) = primary_source mf in
      raise (decision_value m.decision)
        (record (m.reason) { finding_id = finding_id; result_id = result_id }) p

module _ {S : Type 0} ⦃F : Score S⦄ where
  -- Phase 3, one merged finding.
  unfoldable pub merged_step : Spec S → MergedFinding S → Progress S → Progress S
  unfolding on_conflicts apply_rule synthetic
  merged_step spec mf p =
      apply_rule (match_finding spec.findings (primary_source mf).0 (synthetic mf)) mf
        (on_conflicts mf.consensus.conflicts spec mf p)

  unfoldable pub phase_findings : Spec S → List (MergedFinding S) → Progress S → Progress S
  unfolding merged_step
  phase_findings spec [] p = p
  phase_findings spec (mf ∷ mfs) p = phase_findings spec mfs (merged_step spec mf p)

-- evaluateMergedDoc, which returns no error
module _ {S : Type 0} (parse_duration : String → Option Duration) (random_hex : String)
    (now later : Time) ⦃F : Score S⦄ where
  unfoldable pub evaluate_merged_doc :
      Document S → Submission → List (ProviderResult S) → MergedResult S → PolicyDecision S
  unfolding conclude phase_executions phase_verdicts phase_findings
  evaluate_merged_doc doc sub results merged =
      conclude parse_duration random_hex now later doc sub (result_ids results) (
        phase_findings doc.spec merged.findings
          (phase_verdicts doc.spec results (phase_executions doc.spec results start)))
