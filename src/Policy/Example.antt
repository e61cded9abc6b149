-- ===== src/Policy/Example.antt =====
-- extensions/policies/example/policy.go: the built-in policy, whose thresholds are on scores.
use scintx.Base.{
  String, ◌^^◌, Bool, true, false, Option, none, some, List, [], ◌∷◌, ◌++◌, ◌==◌, if◌then◌else◌,
}
use scintx.Api.{
  Time, Fields, shift, Score, Submission, Finding, ProviderResult, ExecutionStatus, Verdict,
  VerdictValue, Assessment, AssessmentStatus, SeverityObservation, SeverityRef, DecisionReason,
  PolicyDecision, PolicyDecisionValue,
}
use scintx.Policy.Rank.{escalate}
use scintx.Policy.Evaluate.{Progress, start, raise, result_reason, error_message, result_ids, hour}

-- Engine
pub record Engine (S : Type 0) : Type 0 where
  pub policy_id : String
  pub version : String
  pub digest : String
  pub deny_above_score : S
  pub review_above_score : S
  pub timeout_behavior : String

-- escalateDecision, the same as escalate of the YAML policy
abbrev pub escalate_decision : PolicyDecisionValue → PolicyDecisionValue → PolicyDecisionValue
escalate_decision = escalate

-- The switch on the behaviour for timeouts.
unfoldable pub timeout_decision : String → PolicyDecisionValue
timeout_decision behavior =
    if behavior == "deny"
    then PolicyDecisionValue.deny
    else if behavior == "defer"
    then PolicyDecisionValue.defer
    else PolicyDecisionValue.review

abbrev pub is_affected : Option Assessment → Bool
is_affected none = false
is_affected (some a) = elim a.status [ AssessmentStatus.affected ↦ true | _ ↦ false ]

module _ {S : Type 0} where
  abbrev pub finding_reason :
      String → String → String → Option (SeverityRef S) → String → DecisionReason S
  finding_reason code result_id finding_id severity_ref message = record {
    code = code;
    result_id = result_id;
    finding_id = finding_id;
    severity_ref = severity_ref;
    message = message;
  }

  -- The loop over the findings of a warning.
  unfoldable pub warn_findings : String → List (Finding S) → Progress S → Progress S
  warn_findings id [] p = p
  warn_findings id (f ∷ fs) p = warn_findings id fs (
      if is_affected f.assessment
      then record p {
        reasons =
            p.reasons
            ++ finding_reason "provider_warning" id f.id none
                ("Provider warning on finding " ^^ f.id)
              ∷ [];
      }
      else p)

module _ {S : Type 0} ⦃F : Score S⦄ where
  -- The loop over the severities of a finding, with its variables topScore and topSev.
  unfoldable pub top_score :
      S
      → Option (SeverityObservation S)
      → List (SeverityObservation S)
      → S × Option (SeverityObservation S)
  top_score top sev [] = (top, sev)
  top_score top sev (s ∷ rest) =
      let skip = top_score top sev rest in
      elim s.score [
        | none ↦ skip
        | some v ↦ let take = top_score v (some s) rest in if F.le v top then skip else take
      ]

  abbrev severity_of : SeverityObservation S → SeverityRef S
  severity_of s = record { scheme = s.scheme; version = s.version; score = s.score }

  abbrev flagged : String → Finding S → Progress S → Progress S
  flagged id f p =
      raise PolicyDecisionValue.review
        (finding_reason "provider_fail" id f.id none ("Provider flagged finding " ^^ f.id)) p

  -- The thresholds, against the highest score of an affected finding.
  unfoldable pub on_score :
      Engine S → String → Finding S → S × Option (SeverityObservation S) → Progress S → Progress S
  unfolding raise
  on_score engine id f (top, none) p = flagged id f p
  on_score engine id f (top, some s) p =
      if F.le engine.deny_above_score top
      then raise PolicyDecisionValue.deny
          (finding_reason "critical_severity_vulnerability" id f.id (some (severity_of s))
            ("CVSS " ^^ (F.format_one top ^^ " vulnerability with no fix available")))
          p
      else if F.le engine.review_above_score top
      then raise PolicyDecisionValue.review
          (finding_reason "high_severity_vulnerability" id f.id (some (severity_of s))
            ("CVSS " ^^ (F.format_one top ^^ " vulnerability requires review")))
          p
      else flagged id f p

  -- The loop over the findings of a failure.
  unfoldable pub fail_findings : Engine S → String → List (Finding S) → Progress S → Progress S
  unfolding on_score top_score
  fail_findings engine id [] p = p
  fail_findings engine id (f ∷ fs) p = fail_findings engine id fs (
      if is_affected f.assessment
      then on_score engine id f (top_score F.zero_score none f.severity) p
      else p)

  -- The switch on the verdict's value.
  unfoldable pub on_judgement : Engine S → VerdictValue → ProviderResult S → Progress S → Progress S
  unfolding escalate raise warn_findings fail_findings
  on_judgement engine VerdictValue.warn r p =
      warn_findings r.id r.findings
        (record p { decision = escalate_decision p.decision PolicyDecisionValue.review })
  on_judgement engine VerdictValue.fail r p = fail_findings engine r.id r.findings p
  on_judgement engine VerdictValue.unknown r p =
      raise PolicyDecisionValue.defer
        (result_reason "provider_unknown" r.id
          "Provider returned an indeterminate verdict; deferring for more evidence")
        p
  on_judgement engine _ r p = p

  abbrev pub on_optional : Engine S → Option Verdict → ProviderResult S → Progress S → Progress S
  on_optional engine none r p =
      raise PolicyDecisionValue.review
        (result_reason "missing_verdict" r.id "Provider completed but returned no verdict") p
  on_optional engine (some v) r p = on_judgement engine v.value r p

  -- The body of the loop over the results.
  unfoldable pub on_result : Engine S → ExecutionStatus → ProviderResult S → Progress S → Progress S
  unfolding raise on_judgement timeout_decision error_message
  on_result engine ExecutionStatus.completed r p = on_optional engine r.verdict r p
  on_result engine ExecutionStatus.timeout r p =
      raise (timeout_decision engine.timeout_behavior)
        (result_reason "required_provider_timeout" r.id
          "Provider invocation timed out; required by policy")
        p
  on_result engine _ r p =
      raise PolicyDecisionValue.review
        (result_reason "provider_error" r.id (error_message r.execution.error)) p

  unfoldable pub walk : Engine S → List (ProviderResult S) → Progress S → Progress S
  unfolding on_result
  walk engine [] p = p
  walk engine (r ∷ rs) p = walk engine rs (on_result engine r.execution.status r p)

  -- Engine.Evaluate, which returns no error
  unfoldable pub evaluate :
      String → Time → Time → Engine S → Submission → List (ProviderResult S) → PolicyDecision S
  unfolding walk shift
  evaluate random_hex now later engine sub results =
      let p = walk engine results start in
      record {
        id = "dec_" ^^ random_hex;
        submission_id = sub.id;
        decision = p.decision;
        policy = record { id = engine.policy_id; version = engine.version; digest = engine.digest };
        evaluated_at = now;
        input_result_ids = result_ids results;
        reasons = p.reasons;
        resume_at = elim p.decision [
          | PolicyDecisionValue.defer ↦ some (shift later hour)
          | _ ↦ none
        ];
        resume_on = elim p.decision [
          | PolicyDecisionValue.defer ↦ "org.eclipse.scintx.submission.resume"
          | _ ↦ ""
        ];
        extensions = Fields.end;
      }
