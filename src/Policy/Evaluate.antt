-- ===== src/Policy/Evaluate.antt =====
-- extensions/policies/yaml/evaluate.go: `evaluateDoc`. The random id and the two readings of the
-- clock are arguments, and `parse_duration` stands for time.ParseDuration.
use scintx.Base.{
  String, ◌^^◌, Option, none, some, List, [], ◌∷◌, ◌++◌, map, ◌==◌, if◌then◌else◌, lookup,
}
use scintx.Api.{
  Fields, Time, Duration, shift, Score, Finding, ProviderResult, ProviderError, ExecutionStatus,
  Verdict, VerdictValue, verdict_string, DecisionReason, PolicyDecision, PolicyDecisionValue,
  decision_value, Submission,
}
use scintx.Policy.Rank.{escalate, decision_or}
use scintx.Policy.Document.{Document, Spec, DeferSpec}
use scintx.Policy.Rules.{MatchedRule, match_finding}

-- The variables `decision` and `reasons` of the loops.
pub record Progress (S : Type 0) : Type 0 where
  pub decision : PolicyDecisionValue
  pub reasons : List (DecisionReason S)

-- The map lookup spec.Verdicts[value], followed by the escalation.
unfoldable pub baseline :
    {S : Type 0} → Spec S → Verdict → PolicyDecisionValue → PolicyDecisionValue
baseline spec v d = elim (lookup (verdict_string v.value) spec.verdicts) [
  | none ↦ d
  | some mapped ↦ escalate d (decision_value mapped)
]

unfoldable pub error_message : Option ProviderError → String
error_message none = "Provider execution error"
error_message (some e) =
    if e.message == ""
    then "Provider execution error"
    else "Provider execution error: " ^^ e.message

module _ {S : Type 0} where
  -- decision = escalate(decision, next); reasons = append(reasons, reason)
  unfoldable pub raise : PolicyDecisionValue → DecisionReason S → Progress S → Progress S
  raise next reason p = record {
    decision = escalate p.decision next;
    reasons = p.reasons ++ reason ∷ [];
  }

  -- A reason that cites no finding.
  abbrev pub result_reason : String → String → String → DecisionReason S
  result_reason code id message = record {
    code = code;
    result_id = id;
    finding_id = "";
    severity_ref = none;
    message = message;
  }

  unfoldable pub timed_out : Spec S → ProviderResult S → Progress S → Progress S
  unfolding raise
  timed_out spec r = raise (decision_or spec.on_timeout PolicyDecisionValue.review) (
      result_reason "required_provider_timeout" r.id
        "Provider invocation timed out; required by policy")

  unfoldable pub errored : Spec S → ProviderResult S → Progress S → Progress S
  unfolding raise error_message
  errored spec r =
      raise (decision_or spec.on_error PolicyDecisionValue.review)
        (result_reason "provider_error" r.id (error_message r.execution.error))

  unfoldable pub verdict_missing : Spec S → ProviderResult S → Progress S → Progress S
  unfolding raise
  verdict_missing spec r =
      raise (decision_or spec.on_missing_verdict PolicyDecisionValue.review)
        (result_reason "missing_verdict" r.id "Provider completed but returned no verdict")

module _ {S : Type 0} ⦃F : Score S⦄ where
  unfoldable pub apply_match : Option (MatchedRule S) → Progress S → Progress S
  unfolding raise
  apply_match none p = p
  apply_match (some m) p = raise (decision_value m.decision) m.reason p

  -- The loop over the findings of a warn or fail verdict.
  unfoldable pub walk_findings : Spec S → String → List (Finding S) → Progress S → Progress S
  unfolding apply_match
  walk_findings spec id [] p = p
  walk_findings spec id (f ∷ fs) p =
      walk_findings spec id fs (apply_match (match_finding spec.findings id f) p)

  -- The switch on the verdict's value.
  unfoldable pub on_value : VerdictValue → Spec S → ProviderResult S → Progress S → Progress S
  unfolding walk_findings
  on_value VerdictValue.warn spec r p = walk_findings spec r.id r.findings p
  on_value VerdictValue.fail spec r p = walk_findings spec r.id r.findings p
  on_value _ spec r p = p

  unfoldable pub on_verdict : Option Verdict → Spec S → ProviderResult S → Progress S → Progress S
  unfolding verdict_missing baseline on_value
  on_verdict none spec r p = verdict_missing spec r p
  on_verdict (some v) spec r p =
      on_value v.value spec r (record p { decision = baseline spec v p.decision })

  -- The body of the loop over the results.
  unfoldable pub on_status : ExecutionStatus → Spec S → ProviderResult S → Progress S → Progress S
  unfolding timed_out errored on_verdict
  on_status ExecutionStatus.completed spec r p = on_verdict r.verdict spec r p
  on_status ExecutionStatus.timeout spec r p = timed_out spec r p
  on_status _ spec r p = errored spec r p

  unfoldable pub walk_results : Spec S → List (ProviderResult S) → Progress S → Progress S
  unfolding on_status
  walk_results spec [] p = p
  walk_results spec (r ∷ rs) p = walk_results spec rs (on_status r.execution.status spec r p)

abbrev pub start : {S : Type 0} → Progress S
start = record { decision = PolicyDecisionValue.allow; reasons = [] }

abbrev pub result_ids : {S : Type 0} → List (ProviderResult S) → List String
result_ids = map λ r. r.id

-- One hour, in nanoseconds.
abbrev pub hour : Duration
hour = Duration.ahead 3_600_000_000_000

module _ (parse_duration : String → Option Duration) where
  -- How long a deferred submission waits.
  unfoldable pub resume_after : Option DeferSpec → Duration
  resume_after none = hour
  resume_after (some d) =
      if d.resume_after == ""
      then hour
      else elim (parse_duration d.resume_after) [ none ↦ hour | some t ↦ t ]

module _ {S : Type 0} (parse_duration : String → Option Duration) (random_hex : String)
    (now later : Time) where
  -- The decision record at the end of `evaluateDoc` and of `evaluateMergedDoc`.
  unfoldable pub conclude : Document S → Submission → List String → Progress S → PolicyDecision S
  unfolding resume_after shift
  conclude doc sub ids p = record {
    id = "dec_" ^^ random_hex;
    submission_id = sub.id;
    decision = p.decision;
    policy = record { id = doc.metadata.id; version = doc.metadata.version; digest = "" };
    evaluated_at = now;
    input_result_ids = ids;
    reasons = p.reasons;
    resume_at = elim p.decision [
      | PolicyDecisionValue.defer ↦ some (shift later (resume_after parse_duration doc.spec.defer))
      | _ ↦ none
    ];
    resume_on = elim p.decision [
      | PolicyDecisionValue.defer ↦ "org.eclipse.scintx.submission.resume"
      | _ ↦ ""
    ];
    extensions = Fields.end;
  }

  module _ ⦃F : Score S⦄ where
    -- evaluateDoc, which returns no error
    unfoldable pub evaluate_doc :
        Document S → Submission → List (ProviderResult S) → PolicyDecision S
    unfolding conclude walk_results
    evaluate_doc doc sub results =
        conclude doc sub (result_ids results) (walk_results doc.spec results start)
