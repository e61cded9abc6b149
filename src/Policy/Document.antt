-- ===== src/Policy/Document.antt =====
-- extensions/policies/yaml/document.go: the policy document and `Validate`. Reading YAML is not
-- modelled; `parse_duration` stands for time.ParseDuration.
use scintx.Base.{
  ℕ, ◌+◌, String, Bool, true, false, not, ◌||◌, ◌&&◌, Option, none, some, List, [], ◌∷◌, Map, ◌==◌,
  if◌then◌else◌,
}
use scintx.Api.{Duration, PolicyDecisionValue, decision_value}

pub record Metadata : Type 0 where
  pub id : String
  pub version : String
  pub description : String

pub record FindingWhen (S : Type 0) : Type 0 where
  pub assessment : String
  pub severity_scheme : String
  pub min_score : Option S
  pub finding_type : String

pub record FindingRule (S : Type 0) : Type 0 where
  pub when : FindingWhen S
  pub decision : String
  pub reason_code : String
  pub message : String

pub record DeferSpec : Type 0 where
  pub resume_after : String

pub record Spec (S : Type 0) : Type 0 where
  pub on_timeout : String
  pub on_error : String
  pub on_missing_verdict : String
  pub verdicts : Map String
  pub findings : List (FindingRule S)
  pub defer : Option DeferSpec
  pub severity_consensus : String
  pub provider_priority : List String
  pub merge_conflicts : String

pub record Document (S : Type 0) : Type 0 where
  pub api_version : String
  pub kind : String
  pub metadata : Metadata
  pub spec : Spec S

pub data ValidationError : Type 0 where
  unsupported_api_version unsupported_kind : String → ValidationError
  id_required version_required : ValidationError
  invalid_decision : String → String → ValidationError  -- the field, the value
  invalid_verdict_decision : String → String → ValidationError  -- the verdict, the value
  invalid_rule_decision : ℕ → String → ValidationError
  reason_code_required : ℕ → ValidationError
  invalid_resume_after invalid_severity_consensus : String → ValidationError
  invalid_merge_conflicts : String → ValidationError

is_constant : PolicyDecisionValue → Bool
is_constant PolicyDecisionValue.allow = true
is_constant PolicyDecisionValue.review = true
is_constant PolicyDecisionValue.deny = true
is_constant PolicyDecisionValue.defer = true
is_constant (PolicyDecisionValue.other s) = false

unfoldable pub valid_decision : String → Bool
unfolding is_constant
valid_decision s = is_constant (decision_value s)

-- `a` if it is an error, else `b`: the order of the early returns.
abbrev pub first_error : Option ValidationError → Option ValidationError → Option ValidationError
first_error (some e) b = some e
first_error none b = b

abbrev pub fail_if : Bool → ValidationError → Option ValidationError
fail_if b e = if b then some e else none

-- One step of the loop over the three fields with a default.
unfoldable pub validate_field : String → String → Option ValidationError
validate_field name val =
    fail_if (not (val == "") && not (valid_decision val))
      (ValidationError.invalid_decision name val)

unfoldable pub validate_consensus : String → Option ValidationError
validate_consensus sc =
    fail_if (not (sc == "") && not (sc == "max" || sc == "mean" || sc == "trust_weighted"))
      (ValidationError.invalid_severity_consensus sc)

unfoldable pub validate_conflicts : String → Option ValidationError
validate_conflicts mc =
    fail_if (not (mc == "") && not (valid_decision mc)) (ValidationError.invalid_merge_conflicts mc)

unfoldable pub validate_verdicts : Map String → Option ValidationError
validate_verdicts [] = none
validate_verdicts ((k, v) ∷ m) =
    first_error (fail_if (not (valid_decision v)) (ValidationError.invalid_verdict_decision k v))
      (validate_verdicts m)

-- The loop over spec.findings, from index i.
unfoldable pub validate_rules : {S : Type 0} → ℕ → List (FindingRule S) → Option ValidationError
validate_rules i [] = none
validate_rules i (rule ∷ rules) =
    first_error
      (fail_if (not (valid_decision rule.decision))
        (ValidationError.invalid_rule_decision i rule.decision))
      (first_error (fail_if (rule.reason_code == "") (ValidationError.reason_code_required i))
        (validate_rules (i + 1) rules))

module _ (parse_duration : String → Option Duration) where
  unfoldable pub validate_defer : Option DeferSpec → Option ValidationError
  validate_defer none = none
  validate_defer (some d) =
      if d.resume_after == "" then none else elim (parse_duration d.resume_after) [
        | none ↦ some (ValidationError.invalid_resume_after d.resume_after)
        | some t ↦ none
      ]

module _ {S : Type 0} (parse_duration : String → Option Duration) where
  unfoldable pub validate_spec : Spec S → Option ValidationError
  validate_spec spec = first_error (validate_field "on_timeout" spec.on_timeout) (
      first_error (validate_field "on_error" spec.on_error) (
        first_error (validate_field "on_missing_verdict" spec.on_missing_verdict) (
          first_error (validate_verdicts spec.verdicts) (
            first_error (validate_rules 0 spec.findings) (
              first_error (validate_defer parse_duration spec.defer) (
                first_error (validate_consensus spec.severity_consensus)
                  (validate_conflicts spec.merge_conflicts)))))))

  -- (*Document).Validate; `none` is a nil error
  unfoldable pub validate : Document S → Option ValidationError
  validate d =
      if not (d.api_version == "scintx.policy/v1")
      then some (ValidationError.unsupported_api_version d.api_version)
      else if not (d.kind == "Policy")
      then some (ValidationError.unsupported_kind d.kind)
      else if d.metadata.id == ""
      then some ValidationError.id_required
      else if d.metadata.version == ""
      then some ValidationError.version_required
      else validate_spec d.spec
