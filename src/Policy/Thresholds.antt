-- ===== src/Policy/Thresholds.antt =====
-- extensions/policies/example/policy.go: the loop for the highest score against a direct reading,
-- and which results call for a denial and which for nothing.
use scintx.Base.{
  Bool, true, false, not, ◌&&◌, ◌||◌, Option, none, some, List, [], ◌∷◌, any, ◌≡◌, ◌∙◌, arith, ◌==◌,
  if◌then◌else◌, Bool-cases, Option-cases, inl, inr,
}
use scintx.Api.{
  Score, Finding, ProviderResult, ExecutionStatus, Verdict, VerdictValue, SeverityObservation,
}
use scintx.Policy.Example.{Engine, is_affected, top_score}

module _ {S : Type 0} ⦃F : Score S⦄ where
  abbrev pub above : S → Option S → Bool
  above m none = false
  above m (some v) = not (F.le v F.zero_score) && F.le m v

  -- A severity with a score above 0 that is at least m.
  abbrev pub exceeds : S → SeverityObservation S → Bool
  exceeds m s = above m s.score

  -- An affected finding with a severity at the threshold for a denial.
  abbrev pub is_critical : Engine S → Finding S → Bool
  is_critical engine f =
      is_affected f.assessment && any (exceeds engine.deny_above_score) f.severity

  abbrev pub denied_by : Engine S → Option Verdict → List (Finding S) → Bool
  denied_by engine none fs = false
  denied_by engine (some v) fs = elim v.value [
    | VerdictValue.fail ↦ any (is_critical engine) fs
    | _ ↦ false
  ]

  -- A result that calls for a denial.
  abbrev pub denies : Engine S → ExecutionStatus → ProviderResult S → Bool
  denies engine ExecutionStatus.completed r = denied_by engine r.verdict r.findings
  denies engine ExecutionStatus.timeout r = engine.timeout_behavior == "deny"
  denies engine _ r = false

  abbrev pub cleared_by : Option Verdict → List (Finding S) → Bool
  cleared_by none fs = false
  cleared_by (some v) fs = elim v.value [
    | VerdictValue.pass ↦ true
    | VerdictValue.warn ↦ false
    | VerdictValue.fail ↦ not (any (λ f. is_affected f.assessment) fs)
    | VerdictValue.unknown ↦ false
    | VerdictValue.other s ↦ true
  ]

  -- A result that calls for nothing: it completed, and it passes, or fails without an affected
  -- finding, or has a verdict that the policy does not know.
  abbrev pub clears : ExecutionStatus → ProviderResult S → Bool
  clears ExecutionStatus.completed r = cleared_by r.verdict r.findings
  clears _ r = false

  -- Whether the variables of the loop reach a threshold.
  abbrev pub at_least : S → S × Option (SeverityObservation S) → Bool
  at_least m (top, none) = false
  at_least m (top, some s) = F.le m top

  abbrev Tops : S × Option (SeverityObservation S) → Type 0
  Tops (top, none) = top ≡ F.zero_score
  Tops (top, some s) = F.le F.zero_score top ≡ true

  take_lem :
      (m top v : S) (sev : Option (SeverityObservation S)) (s : SeverityObservation S) (rest : Bool)
      → Tops (top, sev)
      → F.le v top ≡ false
      → (F.le F.zero_score v ≡ true)
        × ((F.le m v || rest) ≡ (at_least m (top, sev) || (above m (some v) || rest)))
  take_lem m top v none s rest t h = ground (arith, F.le_total top v)
  take_lem m top v (some b) s rest t h = ground (
    arith,
    F.le_total top v,
    F.le_trans F.zero_score top v,
    F.le_trans m top v,
    F.le_trans v F.zero_score top,
  )

  skip_lem :
      (m top v : S) (sev : Option (SeverityObservation S)) (rest : Bool)
      → Tops (top, sev)
      → F.le v top ≡ true
      → (at_least m (top, sev) || rest) ≡ (at_least m (top, sev) || (above m (some v) || rest))
  skip_lem m top v none rest t h = ground arith
  skip_lem m top v (some b) rest t h = ground (arith, F.le_trans m v top)

  top_score-step :
      (m top v : S) (sev : Option (SeverityObservation S)) (s : SeverityObservation S)
      (rest : List (SeverityObservation S))
      → Tops (top, sev)
      → ((top' : S) (sev' : Option (SeverityObservation S))
          → Tops (top', sev')
          → at_least m (top_score top' sev' rest)
            ≡ (at_least m (top', sev') || any (exceeds m) rest))
      → at_least m (if F.le v top then top_score top sev rest else top_score v (some s) rest)
        ≡ (at_least m (top, sev) || (above m (some v) || any (exceeds m) rest))
  top_score-step m top v sev s rest t ih = elim (Bool-cases (F.le v top)) [
    | inl h ↦ rw h (ih top sev t ∙ skip_lem m top v sev (any (exceeds m) rest) t h)
    | inr h ↦
        let q = take_lem m top v sev s (any (exceeds m) rest) t h in rw h (ih v (some s) q.0 ∙ q.1)
  ]

  pub at_least-top_score :
      (m : S) (top : S) (sev : Option (SeverityObservation S)) (l : List (SeverityObservation S))
      → Tops (top, sev)
      → at_least m (top_score top sev l) ≡ (at_least m (top, sev) || any (exceeds m) l)
  unfolding top_score
  at_least-top_score m top sev [] t = ground arith
  at_least-top_score m top sev (s ∷ rest) t = elim (Option-cases s.score) [
    | inl e ↦ ground (arith, at_least-top_score m top sev rest t)
    | inr (v, e) ↦
        rw e (
          top_score-step m top v sev s rest t
            λ top' sev' t'. at_least-top_score m top' sev' rest t')
  ]
