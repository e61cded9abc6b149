-- ===== src/Policy/MergedOutcome.antt =====
-- What `evaluateMergedDoc` decides.
use scintx.Base.{
  String, Option, none, some, List, [], ◌∷◌, ◌++◌, map, flat_map, ◌≡◌, refl, ◌∙◌, arith,
}
use scintx.Api.{
  Time, Duration, Score, MergedFinding, MergedResult, ProviderResult, ExecutionStatus, Verdict,
  PolicyDecisionValue, Submission,
}
use scintx.Policy.Rank.{decision_or, escalate_all, escalate_all-append}
use scintx.Policy.Document.{Document, Spec}
use scintx.Policy.Rules.{match_finding}
use scintx.Policy.Evaluate.{Progress, start, conclude}
use scintx.Policy.Asks.{mapped, to_list, ruling}
use scintx.Policy.Outcome.{Joins, Joins-escalate_all}
use scintx.Policy.Merged.{
  primary_source, execution_step, phase_executions, verdict_step, phase_verdicts, synthetic,
  merged_step, phase_findings, evaluate_merged_doc,
}

module _ {S : Type 0} where
  -- What the execution of one result asks for, its verdict aside.
  unfoldable pub execution_asks :
      ExecutionStatus → Option Verdict → Spec S → List PolicyDecisionValue
  execution_asks ExecutionStatus.completed none spec =
      decision_or spec.on_missing_verdict PolicyDecisionValue.review ∷ []
  execution_asks ExecutionStatus.completed (some v) spec = []
  execution_asks ExecutionStatus.timeout v spec =
      decision_or spec.on_timeout PolicyDecisionValue.review ∷ []
  execution_asks _ v spec = decision_or spec.on_error PolicyDecisionValue.review ∷ []

  -- What its verdict asks for.
  unfoldable pub verdict_asks : ExecutionStatus → Option Verdict → Spec S → List PolicyDecisionValue
  verdict_asks ExecutionStatus.completed (some v) spec = mapped spec v
  verdict_asks _ v spec = []

  -- A merged finding asks for the conflict decision if its sources disagree.
  unfoldable pub conflict_asks : List String → Spec S → List PolicyDecisionValue
  conflict_asks [] spec = []
  conflict_asks (c ∷ cs) spec = decision_or spec.merge_conflicts PolicyDecisionValue.review ∷ []

module _ {S : Type 0} ⦃F : Score S⦄ where
  -- And for the decision of the first rule that matches it.
  unfoldable pub finding_asks : Spec S → MergedFinding S → List PolicyDecisionValue
  unfolding conflict_asks
  finding_asks spec mf =
      conflict_asks mf.consensus.conflicts spec
      ++ map ruling (to_list (match_finding spec.findings (primary_source mf).0 (synthetic mf)))

  -- All that results and merged findings ask for.
  unfoldable pub merged_asks :
      Spec S → List (ProviderResult S) → List (MergedFinding S) → List PolicyDecisionValue
  unfolding execution_asks verdict_asks finding_asks
  merged_asks spec rs mfs =
      flat_map (λ r. execution_asks r.execution.status r.verdict spec) rs
      ++ (flat_map (λ r. verdict_asks r.execution.status r.verdict spec) rs
          ++ flat_map (finding_asks spec) mfs)

module _ {S : Type 0} (spec : Spec S) where
  execution_step-decision :
      (s : ExecutionStatus) (r : ProviderResult S) (p : Progress S)
      → (execution_step s spec r p).decision
        ≡ escalate_all p.decision (execution_asks s r.verdict spec)
  unfolding execution_step execution_asks escalate_all
  execution_step-decision s r p = ground arith

  phase_executions-decision :
      (rs : List (ProviderResult S)) (p : Progress S)
      → (phase_executions spec rs p).decision
        ≡ escalate_all p.decision
            (flat_map (λ r. execution_asks r.execution.status r.verdict spec) rs)
  unfolding phase_executions escalate_all
  phase_executions-decision [] p = refl
  phase_executions-decision (r ∷ rs) p =
      phase_executions-decision rs _
      ∙ rw (execution_step-decision r.execution.status r p, ← escalate_all-append)

  verdict_step-asks :
      (s : ExecutionStatus) (v : Option Verdict) (d : PolicyDecisionValue)
      → verdict_step s v spec d ≡ escalate_all d (verdict_asks s v spec)
  unfolding verdict_step verdict_asks escalate_all mapped
  verdict_step-asks s v d = ground arith

  phase_verdicts-decision :
      (rs : List (ProviderResult S)) (p : Progress S)
      → (phase_verdicts spec rs p).decision
        ≡ escalate_all p.decision
            (flat_map (λ r. verdict_asks r.execution.status r.verdict spec) rs)
  unfolding phase_verdicts escalate_all
  phase_verdicts-decision [] p = refl
  phase_verdicts-decision (r ∷ rs) p =
      phase_verdicts-decision rs _
      ∙ rw (verdict_step-asks r.execution.status r.verdict p.decision, ← escalate_all-append)

module _ {S : Type 0} ⦃F : Score S⦄ (spec : Spec S) where
  merged_step-decision :
      (mf : MergedFinding S) (p : Progress S)
      → (merged_step spec mf p).decision ≡ escalate_all p.decision (finding_asks spec mf)
  unfolding merged_step finding_asks escalate_all
  merged_step-decision mf p = ground arith

  phase_findings-decision :
      (mfs : List (MergedFinding S)) (p : Progress S)
      → (phase_findings spec mfs p).decision
        ≡ escalate_all p.decision (flat_map (finding_asks spec) mfs)
  unfolding phase_findings escalate_all
  phase_findings-decision [] p = refl
  phase_findings-decision (mf ∷ mfs) p =
      phase_findings-decision mfs _ ∙ rw (merged_step-decision mf p, ← escalate_all-append)

module _ {S : Type 0} (parse_duration : String → Option Duration) (random_hex : String)
    (now later : Time) ⦃F : Score S⦄ (doc : Document S) (sub : Submission)
    (rs : List (ProviderResult S)) (merged : MergedResult S) where
  -- The decision over merged findings is the highest-ranked of all that the executions, the
  -- verdicts, the conflicts and the rules ask for.
  pub evaluate_merged_doc-asks :
      Joins
        (evaluate_merged_doc parse_duration random_hex now later doc sub rs merged).decision
        (merged_asks doc.spec rs merged.findings)
  unfolding evaluate_merged_doc conclude merged_asks
  evaluate_merged_doc-asks =
      rw
        (
          phase_findings-decision doc.spec merged.findings,
          phase_verdicts-decision doc.spec rs,
          phase_executions-decision doc.spec rs start,
          ← escalate_all-append,
          ← escalate_all-append,
        )
        (Joins-escalate_all _)
