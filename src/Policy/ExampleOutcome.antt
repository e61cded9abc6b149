-- ===== src/Policy/ExampleOutcome.antt =====
-- What the built-in policy of extensions/policies/example/policy.go decides.
use scintx.Base.{
  String, true, not, Option, none, some, List, [], ◌∷◌, flat_map, any, all, any-append, ◌≡◌, ◌↔◌,
  refl, sym, ◌∙◌, ap, arith, if◌then◌else◌, eq_iff, Option-cases, inl, inr,
}
use scintx.Api.{
  Time, Score, Submission, Finding, ProviderResult, ExecutionStatus, Verdict, VerdictValue,
  SeverityObservation, PolicyDecisionValue,
}
use scintx.Policy.Rank.{escalate, escalate_all, escalate_all-append}
use scintx.Policy.Evaluate.{Progress, start, raise}
use scintx.Policy.Outcome.{Joins, Joins-escalate_all, Joins-deny, Joins-allow, is_deny, raises}
use scintx.Policy.Example.{
  Engine, timeout_decision, is_affected, warn_findings, top_score, on_score, fail_findings,
  on_judgement, on_optional, on_result, walk, evaluate,
}
use scintx.Policy.Thresholds.{
  exceeds, is_critical, denied_by, denies, cleared_by, clears, at_least, at_least-top_score,
}

module _ {S : Type 0} ⦃F : Score S⦄ where
  abbrev finding_asks : Engine S → Finding S → List PolicyDecisionValue
  finding_asks engine f =
      if is_affected f.assessment
      then (if any (exceeds engine.deny_above_score) f.severity
          then PolicyDecisionValue.deny
          else PolicyDecisionValue.review)
        ∷ []
      else []

  abbrev judgement_asks : Engine S → VerdictValue → List (Finding S) → List PolicyDecisionValue
  judgement_asks engine VerdictValue.warn fs = PolicyDecisionValue.review ∷ []
  judgement_asks engine VerdictValue.fail fs = flat_map (finding_asks engine) fs
  judgement_asks engine VerdictValue.unknown fs = PolicyDecisionValue.defer ∷ []
  judgement_asks engine _ fs = []

  abbrev verdict_asks : Engine S → Option Verdict → List (Finding S) → List PolicyDecisionValue
  verdict_asks engine none fs = PolicyDecisionValue.review ∷ []
  verdict_asks engine (some v) fs = judgement_asks engine v.value fs

  -- The decisions that a result asks for.
  abbrev result_asks : Engine S → ExecutionStatus → ProviderResult S → List PolicyDecisionValue
  result_asks engine ExecutionStatus.completed r = verdict_asks engine r.verdict r.findings
  result_asks engine ExecutionStatus.timeout r = timeout_decision engine.timeout_behavior ∷ []
  result_asks engine _ r = PolicyDecisionValue.review ∷ []

  warn_findings-decision :
      (id : String) (fs : List (Finding S)) (p : Progress S)
      → (warn_findings id fs p).decision ≡ p.decision
  unfolding warn_findings
  warn_findings-decision id [] p = refl
  warn_findings-decision id (f ∷ fs) p = warn_findings-decision id fs _ ∙ ground arith

  on_score-decision :
      (engine : Engine S) (id : String) (f : Finding S) (top : S)
      (sev : Option (SeverityObservation S)) (p : Progress S)
      → (on_score engine id f (top, sev) p).decision
        ≡ escalate p.decision (
            if at_least engine.deny_above_score (top, sev)
            then PolicyDecisionValue.deny
            else PolicyDecisionValue.review)
  unfolding on_score raise
  on_score-decision engine id f top none p = refl
  on_score-decision engine id f top (some s) p = ground arith

  fail_findings-step :
      (engine : Engine S) (id : String) (f : Finding S) (p : Progress S)
      → (if is_affected f.assessment
          then on_score engine id f (top_score F.zero_score none f.severity) p
          else p).decision
        ≡ escalate_all p.decision (finding_asks engine f)
  unfolding escalate_all
  fail_findings-step engine id f p =
      let top = top_score F.zero_score none f.severity in
      ground (
        arith,
        on_score-decision engine id f top.0 top.1 p,
        at_least-top_score engine.deny_above_score F.zero_score none f.severity refl,
      )

  fail_findings-decision :
      (engine : Engine S) (id : String) (fs : List (Finding S)) (p : Progress S)
      → (fail_findings engine id fs p).decision
        ≡ escalate_all p.decision (flat_map (finding_asks engine) fs)
  unfolding fail_findings
  fail_findings-decision engine id [] p = unfold escalate_all in refl
  fail_findings-decision engine id (f ∷ fs) p =
      fail_findings-decision engine id fs _
      ∙ ap (λ d. escalate_all d (flat_map (finding_asks engine) fs))
          (fail_findings-step engine id f p)
      ∙ sym (
          escalate_all-append p.decision (finding_asks engine f)
            (flat_map (finding_asks engine) fs))

  on_judgement-decision :
      (engine : Engine S) (v : VerdictValue) (r : ProviderResult S) (p : Progress S)
      → (on_judgement engine v r p).decision
        ≡ escalate_all p.decision (judgement_asks engine v r.findings)
  unfolding on_judgement escalate_all raise
  on_judgement-decision engine VerdictValue.warn r p = warn_findings-decision r.id r.findings _
  on_judgement-decision engine VerdictValue.fail r p =
      fail_findings-decision engine r.id r.findings p
  on_judgement-decision engine _ r p = refl

  on_optional-decision :
      (engine : Engine S) (v : Option Verdict) (r : ProviderResult S) (p : Progress S)
      → (on_optional engine v r p).decision
        ≡ escalate_all p.decision (verdict_asks engine v r.findings)
  unfolding escalate_all raise
  on_optional-decision engine none r p = refl
  on_optional-decision engine (some v) r p = on_judgement-decision engine v.value r p

  on_result-decision :
      (engine : Engine S) (s : ExecutionStatus) (r : ProviderResult S) (p : Progress S)
      → (on_result engine s r p).decision ≡ escalate_all p.decision (result_asks engine s r)
  unfolding on_result escalate_all raise
  on_result-decision engine ExecutionStatus.completed r p =
      on_optional-decision engine r.verdict r p
  on_result-decision engine _ r p = refl

  abbrev asked : Engine S → List (ProviderResult S) → List PolicyDecisionValue
  asked engine = flat_map λ r. result_asks engine r.execution.status r

  walk-decision :
      (engine : Engine S) (rs : List (ProviderResult S)) (p : Progress S)
      → (walk engine rs p).decision ≡ escalate_all p.decision (asked engine rs)
  unfolding walk
  walk-decision engine [] p = unfold escalate_all in refl
  walk-decision engine (r ∷ rs) p =
      walk-decision engine rs _
      ∙ ap (λ d. escalate_all d (asked engine rs))
          (on_result-decision engine r.execution.status r p)
      ∙ sym (
          escalate_all-append p.decision (result_asks engine r.execution.status r)
            (asked engine rs))

  any-finding_asks-deny :
      (engine : Engine S) (fs : List (Finding S))
      → any is_deny (flat_map (finding_asks engine) fs) ≡ any (is_critical engine) fs
  any-finding_asks-deny engine [] = refl
  any-finding_asks-deny engine (f ∷ fs) = ground (arith, any-finding_asks-deny engine fs)

  any-finding_asks-raises :
      (engine : Engine S) (fs : List (Finding S))
      → any raises (flat_map (finding_asks engine) fs) ≡ any (λ f. is_affected f.assessment) fs
  any-finding_asks-raises engine [] = refl
  any-finding_asks-raises engine (f ∷ fs) = ground (arith, any-finding_asks-raises engine fs)

  judgement_asks-deny :
      (engine : Engine S) (v : Verdict) (fs : List (Finding S))
      → any is_deny (judgement_asks engine v.value fs) ≡ denied_by engine (some v) fs
  judgement_asks-deny engine v fs = ground (arith, any-finding_asks-deny engine fs)

  judgement_asks-raises :
      (engine : Engine S) (v : Verdict) (fs : List (Finding S))
      → any raises (judgement_asks engine v.value fs) ≡ not (cleared_by (some v) fs)
  judgement_asks-raises engine v fs = ground (arith, any-finding_asks-raises engine fs)

  result_asks-deny :
      (engine : Engine S) (s : ExecutionStatus) (r : ProviderResult S)
      → any is_deny (result_asks engine s r) ≡ denies engine s r
  unfolding timeout_decision
  result_asks-deny engine ExecutionStatus.completed r = elim (Option-cases r.verdict) [
    | inl e ↦ ground arith
    | inr (v, e) ↦ rw e (judgement_asks-deny engine v r.findings)
  ]
  result_asks-deny engine ExecutionStatus.timeout r =
      ground (arith, eq_iff engine.timeout_behavior "deny")
  result_asks-deny engine _ r = refl

  result_asks-raises :
      (engine : Engine S) (s : ExecutionStatus) (r : ProviderResult S)
      → any raises (result_asks engine s r) ≡ not (clears s r)
  unfolding timeout_decision
  result_asks-raises engine ExecutionStatus.completed r = elim (Option-cases r.verdict) [
    | inl e ↦ ground arith
    | inr (v, e) ↦ rw e (judgement_asks-raises engine v r.findings)
  ]
  result_asks-raises engine ExecutionStatus.timeout r = ground arith
  result_asks-raises engine _ r = refl

  asked-deny :
      (engine : Engine S) (rs : List (ProviderResult S))
      → any is_deny (asked engine rs) ≡ any (λ r. denies engine r.execution.status r) rs
  asked-deny engine [] = refl
  asked-deny engine (r ∷ rs) =
      any-append is_deny (result_asks engine r.execution.status r) (asked engine rs)
      ∙ rw (result_asks-deny engine r.execution.status r, asked-deny engine rs) refl

  asked-raises :
      (engine : Engine S) (rs : List (ProviderResult S))
      → any raises (asked engine rs) ≡ not (all (λ r. clears r.execution.status r) rs)
  asked-raises engine [] = refl
  asked-raises engine (r ∷ rs) =
      any-append raises (result_asks engine r.execution.status r) (asked engine rs)
      ∙ rw (result_asks-raises engine r.execution.status r, asked-raises engine rs) (ground arith)

module _ {S : Type 0} (random_hex : String) (now later : Time) ⦃F : Score S⦄ (engine : Engine S)
    (sub : Submission) (rs : List (ProviderResult S)) where
  evaluate-Joins : Joins (evaluate random_hex now later engine sub rs).decision (asked engine rs)
  unfolding evaluate
  evaluate-Joins = rw (walk-decision engine rs start) (Joins-escalate_all (asked engine rs))

  -- The built-in policy denies exactly when a provider that completed says fail and reports an
  -- affected finding with a score above 0 that reaches the threshold, or a provider timed out and
  -- the behaviour for timeouts is deny. It allows exactly when every provider completed and either
  -- passes, or fails without an affected finding, or has a verdict that the policy does not know.
  pub evaluate-verdict :
      let d = (evaluate random_hex now later engine sub rs).decision in
      ((d ≡ PolicyDecisionValue.deny) ↔ (any (λ r. denies engine r.execution.status r) rs ≡ true))
      × ((d ≡ PolicyDecisionValue.allow) ↔ (all (λ r. clears r.execution.status r) rs ≡ true))
  evaluate-verdict = (
    rw (sym (asked-deny engine rs)) (Joins-deny (asked engine rs) evaluate-Joins),
    ground (arith, Joins-allow (asked engine rs) evaluate-Joins, asked-raises engine rs),
  )
