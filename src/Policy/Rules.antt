-- ===== src/Policy/Rules.antt =====
-- extensions/policies/yaml/evaluate.go: matching a finding against the rules of a policy.
use scintx.Base.{
  String, Bool, true, false, not, ◌&&◌, Option, none, some, List, [], ◌∷◌, ◌==◌, if◌then◌else◌,
  equal_fold, replace_all,
}
use scintx.Api.{
  Score, Finding, SeverityObservation, DecisionReason, SeverityRef, Assessment, assessment_string,
}
use scintx.Policy.Document.{FindingWhen, FindingRule}

-- matchedRule
pub record MatchedRule (S : Type 0) : Type 0 where
  pub decision : String
  pub reason : DecisionReason S

-- Whether the optional assessment has the status that a rule asks for.
unfoldable pub assessment_is : String → Option Assessment → Bool
assessment_is wanted none = false
assessment_is wanted (some a) = assessment_string a.status == wanted

module _ {S : Type 0} ⦃F : Score S⦄ where
  -- The loop of `topSeverity`, with its variables `top` and `best`.
  unfoldable pub top_severity_from :
      String
      → S
      → Option (SeverityObservation S)
      → List (SeverityObservation S)
      → S × Option (SeverityObservation S)
  top_severity_from scheme top best [] = (top, best)
  top_severity_from scheme top best (s ∷ rest) =
      let skip = top_severity_from scheme top best rest in
      if not (scheme == "") && not (equal_fold s.scheme scheme) then skip else elim s.score [
        | none ↦ skip
        | some v ↦
            let take = top_severity_from scheme v (some s) rest in if F.le top v then take else skip
      ]

  -- topSeverity
  unfoldable pub top_severity : Finding S → String → S × Option (SeverityObservation S)
  unfolding top_severity_from
  top_severity f scheme = top_severity_from scheme F.zero_score none f.severity

  abbrev pub is_nil : Option (SeverityObservation S) → Bool
  is_nil none = true
  is_nil (some s) = false

  -- The test of min_score against the result of topSeverity.
  unfoldable pub reaches : Option S → S × Option (SeverityObservation S) → Bool
  reaches none top = true
  reaches (some m) (score, none) = false
  reaches (some m) (score, some s) = elim s.score [ none ↦ false | some v ↦ F.le m score ]

  -- whenMatches
  unfoldable pub when_matches : FindingWhen S → Finding S → Bool
  unfolding assessment_is reaches
  when_matches w f =
      let top = top_severity f w.severity_scheme in
      if not (w.finding_type == "") && not (f.type == w.finding_type)
      then false
      else if not (w.assessment == "") && not (assessment_is w.assessment f.assessment)
      then false
      else if not (w.severity_scheme == "") && is_nil top.1
      then false
      else reaches w.min_score top

  -- renderMessage
  unfoldable pub render_message : String → String → String → S → String
  render_message tmpl finding_id result_id score =
      replace_all
        (replace_all (replace_all tmpl "{{finding_id}}" finding_id) "{{result_id}}" result_id)
        "{{score}}" (F.format_one score)

  -- The severity_ref of a reason: only an observation with a score is cited.
  unfoldable pub severity_ref : Option (SeverityObservation S) → Option (SeverityRef S)
  severity_ref none = none
  severity_ref (some s) = elim s.score [
    | none ↦ none
    | some v ↦ some (record { scheme = s.scheme; version = s.version; score = s.score })
  ]

  -- The reason that `matchFinding` builds for the rule that matches.
  unfoldable pub rule_match : FindingRule S → String → Finding S → MatchedRule S
  unfolding severity_ref render_message
  rule_match rule result_id f =
      let (score, sev) = top_severity f rule.when.severity_scheme in
      record {
        decision = rule.decision;
        reason = record {
          code = rule.reason_code;
          result_id = result_id;
          finding_id = f.id;
          severity_ref = severity_ref sev;
          message = render_message rule.message f.id result_id score;
        };
      }

  -- matchFinding: the first rule that matches; `none` is its `false`
  unfoldable pub match_finding : List (FindingRule S) → String → Finding S → Option (MatchedRule S)
  match_finding [] result_id f = none
  match_finding (rule ∷ rules) result_id f =
      if when_matches rule.when f
      then some (rule_match rule result_id f)
      else match_finding rules result_id f
