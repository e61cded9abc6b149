-- ===== src/Tests/Deciding.antt =====
-- The policy, at concrete provider results.
use mathlib.Core.List.{Perm}
use mathlib.Core.List.Perm.{swap}
use scintx.Base.{
  ℕ, ◌≤◌, true, false, none, List, [], ◌∷◌, ◌++◌, flat_map, any, all, All, ◌≡◌, ◌≢◌, ◌↔◌, ◌⊎◌, ◌==◌,
  ◌||◌, ◌&&◌, refl, arith,
}
use scintx.Api.{
  PolicyDecision, PolicyDecisionValue, ExecutionStatus, ProviderResult, decision_value,
}
use scintx.Policy.Rank.{rank, IsConstant}
use scintx.Policy.Document.{
  validate, validate_spec, validate_field, validate_verdicts, valid_decision, validate_rules,
  validate_defer, validate_consensus, validate_conflicts,
}
use scintx.Policy.Rules.{when_matches, assessment_is}
use scintx.Policy.Evaluate.{evaluate_doc}
use scintx.Policy.Merged.{evaluate_merged_doc}
use scintx.Policy.Asks.{asks, cites}
use scintx.Policy.Outcome.{Joins, is_deny, raises, evaluate_doc-asks, evaluate_doc-verdict}
use scintx.Policy.Order.{evaluate_doc-perm, evaluate_doc_mono, evaluate_doc-fail_closed}
use scintx.Policy.Severity.{qualifies, when_matches-min_score}
use scintx.Policy.Validity.{validate-asks}
use scintx.Policy.MergedOutcome.{merged_asks, evaluate_merged_doc-asks}
use scintx.Policy.Example.{Engine, evaluate}
use scintx.Policy.Thresholds.{denies, clears}
use scintx.Policy.ExampleOutcome.{evaluate-verdict}
use scintx.Tests.Samples.{
  whole_scores, hours, submission, finding, critical, spec, document, passing, failing, late,
  merged,
}

abbrev answers : List (ProviderResult ℕ)
answers = passing ∷ failing ∷ []

abbrev decided : List (ProviderResult ℕ) → PolicyDecision ℕ
decided = evaluate_doc hours "ab" 10 11 document submission

evaluate_doc-asks_example :
    Joins (decided answers).decision (flat_map (asks spec) answers)
    × ((decided answers).reasons ≡ flat_map (cites spec) answers)
evaluate_doc-asks_example = evaluate_doc-asks hours "ab" 10 11 document submission answers

evaluate_doc-verdict_example :
    (((decided answers).decision ≡ PolicyDecisionValue.deny)
      ↔ (any is_deny (flat_map (asks spec) answers) ≡ true))
    × (((decided answers).decision ≡ PolicyDecisionValue.allow)
        ↔ (any raises (flat_map (asks spec) answers) ≡ false))
evaluate_doc-verdict_example = evaluate_doc-verdict hours "ab" 10 11 document submission answers

swapped : Perm answers (failing ∷ passing ∷ [])
swapped = swap failing passing []

evaluate_doc-perm_example : (decided answers).decision ≡ (decided (failing ∷ passing ∷ [])).decision
evaluate_doc-perm_example =
    evaluate_doc-perm hours "ab" 10 11 document submission answers (failing ∷ passing ∷ []) swapped

evaluate_doc_mono_example :
    rank (decided answers).decision ≤ rank (decided (answers ++ late ∷ [])).decision
evaluate_doc_mono_example =
    evaluate_doc_mono hours "ab" 10 11 document submission answers (late ∷ [])

late-failed : late.execution.status ≢ ExecutionStatus.completed
late-failed e = ground arith

evaluate_doc-fail_closed_example :
    ((decided ((passing ∷ []) ++ late ∷ [])).decision ≡ PolicyDecisionValue.review)
    ⊎ ((decided ((passing ∷ []) ++ late ∷ [])).decision ≡ PolicyDecisionValue.deny)
evaluate_doc-fail_closed_example =
    evaluate_doc-fail_closed hours "ab" 10 11 document submission (passing ∷ []) [] late refl refl
      late-failed

accepted : validate hours document ≡ none
unfolding validate validate_spec validate_field validate_verdicts valid_decision decision_value
    validate_rules validate_defer validate_consensus validate_conflicts
accepted = refl

validate-asks_example : All IsConstant (asks spec failing)
validate-asks_example = validate-asks hours document failing accepted

when_matches-min_score_example : when_matches critical finding ≡ (
    (critical.finding_type == "" || finding.type == critical.finding_type)
    && ((critical.assessment == "" || assessment_is critical.assessment finding.assessment)
        && any (qualifies critical.severity_scheme 7) finding.severity))
when_matches-min_score_example = when_matches-min_score critical finding 7 refl refl

evaluate_merged_doc-asks_example :
    Joins
      (evaluate_merged_doc hours "ab" 10 11 document submission (passing ∷ []) merged).decision
      (merged_asks spec (passing ∷ []) merged.findings)
evaluate_merged_doc-asks_example =
    evaluate_merged_doc-asks hours "ab" 10 11 document submission (passing ∷ []) merged

abbrev engine : Engine ℕ
engine = record {
  policy_id = "example";
  version = "1";
  digest = "";
  deny_above_score = 9;
  review_above_score = 7;
  timeout_behavior = "defer";
}

evaluate-verdict_example :
    let d = (evaluate "01" 1 2 engine submission (failing ∷ late ∷ [])).decision in
    ((d ≡ PolicyDecisionValue.deny)
      ↔ (any (λ r. denies engine r.execution.status r) (failing ∷ late ∷ []) ≡ true))
    × ((d ≡ PolicyDecisionValue.allow)
        ↔ (all (λ r. clears r.execution.status r) (failing ∷ late ∷ []) ≡ true))
evaluate-verdict_example = evaluate-verdict "01" 1 2 engine submission (failing ∷ late ∷ [])

-- A provider that fails without a finding is cleared.
empty_fail :
    (evaluate "01" 1 2 engine submission (record failing { findings = [] } ∷ [])).decision
    ≡ PolicyDecisionValue.allow
unfolding evaluate
empty_fail = refl
