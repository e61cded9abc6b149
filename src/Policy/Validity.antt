-- ===== src/Policy/Validity.antt =====
-- What `Validate` guarantees of a document that it accepts.
use scintx.Base.{
  ℕ, ◌+◌, String, true, Option, none, some, List, [], ◌∷◌, ◌++◌, map, lookup, Map, ◌≡◌, ◌≢◌, ◌⊎◌,
  inl, inr, refl, arith, All, eq_iff, Option-cases, values,
}
use mathlib.Core.List.{map-append}
use scintx.Api.{
  Score, Finding, Duration, PolicyDecisionValue, decision_value, ProviderResult, ExecutionStatus,
  Verdict, VerdictValue, verdict_string,
}
use scintx.Policy.Rank.{IsConstant, decision_or}
use scintx.Policy.Document.{
  Document, Spec, FindingRule, valid_decision, validate, validate_spec, validate_field,
  validate_defer, validate_consensus, validate_conflicts, first_error, validate_verdicts,
  validate_rules, ValidationError,
}
use scintx.Policy.Rules.{MatchedRule, match_finding, rule_match}
use scintx.Policy.Asks.{asks, asks_of, judged, matched, mapped, ruling, to_list}

valid_decision-IsConstant : (s : String) → valid_decision s ≡ true → IsConstant (decision_value s)
unfolding valid_decision decision_value
valid_decision-IsConstant s h = ground arith

-- An optional decision of the document: absent, or one of the four.
abbrev pub Optional : String → Type 0
Optional s = (s ≡ "") ⊎ (valid_decision s ≡ true)

-- Every decision that the document can lead to is one of the four.
pub record IsValid {S : Type 0} (spec : Spec S) : Type 0 where
  pub timeout : Optional spec.on_timeout
  pub error : Optional spec.on_error
  pub missing : Optional spec.on_missing_verdict
  pub verdicts : All (λ v. valid_decision v ≡ true) (values spec.verdicts)
  pub rules : All (λ r. valid_decision r.decision ≡ true) spec.findings
  pub conflicts : Optional spec.merge_conflicts

validate_verdicts-All :
    (m : Map String) → validate_verdicts m ≡ none → All (λ v. valid_decision v ≡ true) (values m)
unfolding validate_verdicts
validate_verdicts-All [] h = tt
validate_verdicts-All ((k, v) ∷ m) h = ground (arith, validate_verdicts-All m)

validate_rules-All :
    {S : Type 0} (i : ℕ) (rules : List (FindingRule S))
    → validate_rules i rules ≡ none
    → All (λ r. valid_decision r.decision ≡ true) rules
unfolding validate_rules
validate_rules-All i [] h = tt
validate_rules-All i (r ∷ rules) h = ground (arith, validate_rules-All (i + 1) rules)

first_error-none : (a b : Option ValidationError) → first_error a b ≡ none → (a ≡ none) × (b ≡ none)
first_error-none none b h = (refl, h)
first_error-none (some e) b h = cc

validate_field-Optional : (name val : String) → validate_field name val ≡ none → Optional val
unfolding validate_field
validate_field-Optional name val h = ground (arith, eq_iff val "")

validate_conflicts-Optional : (mc : String) → validate_conflicts mc ≡ none → Optional mc
unfolding validate_conflicts
validate_conflicts-Optional mc h = ground (arith, eq_iff mc "")

validate_spec-IsValid :
    {S : Type 0} (parse_duration : String → Option Duration) (spec : Spec S)
    → validate_spec parse_duration spec ≡ none
    → IsValid spec
unfolding validate_spec
validate_spec-IsValid parse_duration spec h =
    let (timeout, h₁) = first_error-none _ _ h in
    let (error, h₂) = first_error-none _ _ h₁ in
    let (missing, h₃) = first_error-none _ _ h₂ in
    let (verdicts, h₄) = first_error-none _ _ h₃ in
    let (rules, h₅) = first_error-none _ _ h₄ in
    let (defer, h₆) = first_error-none (validate_defer parse_duration spec.defer) _ h₅ in
    let (consensus, conflicts) =
      first_error-none (validate_consensus spec.severity_consensus)
        (validate_conflicts spec.merge_conflicts) h₆ in
    record {
      timeout = validate_field-Optional "on_timeout" _ timeout;
      error = validate_field-Optional "on_error" _ error;
      missing = validate_field-Optional "on_missing_verdict" _ missing;
      verdicts = validate_verdicts-All spec.verdicts verdicts;
      rules = validate_rules-All 0 spec.findings rules;
      conflicts = validate_conflicts-Optional _ conflicts;
    }

-- A document that `Validate` accepts has the supported version and kind, an id and a version, and
-- valid decisions only.
validate-IsValid :
    {S : Type 0} (parse_duration : String → Option Duration) (d : Document S)
    → validate parse_duration d ≡ none
    → (d.api_version ≡ "scintx.policy/v1")
      × (d.kind ≡ "Policy")
      × (d.metadata.id ≢ "")
      × (d.metadata.version ≢ "")
      × IsValid d.spec
unfolding validate
validate-IsValid parse_duration d h =
    let accepted : validate_spec parse_duration d.spec ≡ none = ground arith in
    (
      ground (arith, eq_iff d.api_version "scintx.policy/v1"),
      ground (arith, eq_iff d.kind "Policy"),
      λ e. ground (arith, eq_iff d.metadata.id ""),
      λ e. ground (arith, eq_iff d.metadata.version ""),
      validate_spec-IsValid parse_duration d.spec accepted,
    )

decision_or-IsConstant :
    (s : String) → Optional s → IsConstant (decision_or s PolicyDecisionValue.review)
unfolding decision_or
decision_or-IsConstant s (inl e) = rw e tt
decision_or-IsConstant s (inr v) = ground (arith, valid_decision-IsConstant s v)

lookup-valid :
    (k : String) (m : Map String) (v : String)
    → All (λ w. valid_decision w ≡ true) (values m)
    → lookup k m ≡ some v
    → valid_decision v ≡ true
unfolding lookup
lookup-valid k [] v a e = cc
lookup-valid k ((j, w) ∷ m) v a e = ground (arith, lookup-valid k m v a.1)

module _ {S : Type 0} ⦃F : Score S⦄ where
  match_finding-valid :
      (rules : List (FindingRule S)) (id : String) (f : Finding S) (m : MatchedRule S)
      → All (λ r. valid_decision r.decision ≡ true) rules
      → match_finding rules id f ≡ some m
      → valid_decision m.decision ≡ true
  unfolding match_finding rule_match
  match_finding-valid [] id f m a e = cc
  match_finding-valid (r ∷ rules) id f m a e = ground (arith, match_finding-valid rules id f m a.1)

abbrev pub Constants : List PolicyDecisionValue → Type 0
Constants = All IsConstant

Constants-append :
    (xs ys : List PolicyDecisionValue) → Constants xs → Constants ys → Constants (xs ++ ys)
Constants-append [] ys a b = b
Constants-append (x ∷ xs) ys a b = (a.0, Constants-append xs ys a.1 b)

module _ {S : Type 0} ⦃F : Score S⦄ (spec : Spec S) (valid : IsValid spec) where
  to_list-Constants :
      (o : Option (MatchedRule S))
      → ((m : MatchedRule S) → o ≡ some m → valid_decision m.decision ≡ true)
      → Constants (map ruling (to_list o))
  to_list-Constants none h = tt
  to_list-Constants (some m) h = (valid_decision-IsConstant m.decision (h m refl), tt)

  matched-Constants :
      (id : String) (fs : List (Finding S)) → Constants (map ruling (matched spec id fs))
  unfolding matched
  matched-Constants id [] = tt
  matched-Constants id (f ∷ fs) =
      let o = match_finding spec.findings id f in
      rw map-append (
        Constants-append (map ruling (to_list o)) (map ruling (matched spec id fs))
          (to_list-Constants o (λ m. match_finding-valid spec.findings id f m valid.rules))
          (matched-Constants id fs))

  judged-Constants :
      (v : VerdictValue) (r : ProviderResult S) → Constants (map ruling (judged v spec r))
  unfolding judged
  judged-Constants VerdictValue.warn r = matched-Constants r.id r.findings
  judged-Constants VerdictValue.fail r = matched-Constants r.id r.findings
  judged-Constants _ r = tt

  mapped-Constants : (v : Verdict) → Constants (mapped spec v)
  unfolding mapped
  mapped-Constants v = elim (Option-cases (lookup (verdict_string v.value) spec.verdicts)) [
    | inl e ↦ rw e tt
    | inr (m, e) ↦
        rw e (valid_decision-IsConstant m (lookup-valid _ spec.verdicts m valid.verdicts e), tt)
  ]

  asks_of-Constants :
      (s : ExecutionStatus) (v : Option Verdict) (r : ProviderResult S)
      → Constants (asks_of s v spec r)
  unfolding asks_of
  asks_of-Constants ExecutionStatus.completed none r = (decision_or-IsConstant _ valid.missing, tt)
  asks_of-Constants ExecutionStatus.completed (some v) r =
      Constants-append (mapped spec v) (map ruling (judged v.value spec r)) (mapped-Constants v)
        (judged-Constants v.value r)
  asks_of-Constants ExecutionStatus.timeout v r = (decision_or-IsConstant _ valid.timeout, tt)
  asks_of-Constants _ v r = (decision_or-IsConstant _ valid.error, tt)

-- Under a document that `Validate` accepts every decision that a result asks for is one of the
-- four constants, so none is ignored by the escalation.
pub validate-asks :
    {S : Type 0} ⦃F : Score S⦄ (parse_duration : String → Option Duration) (d : Document S)
    (r : ProviderResult S)
    → validate parse_duration d ≡ none
    → All IsConstant (asks d.spec r)
unfolding asks
validate-asks parse_duration d r h =
    asks_of-Constants d.spec (validate-IsValid parse_duration d h).4 r.execution.status r.verdict r
