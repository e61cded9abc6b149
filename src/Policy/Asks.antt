-- ===== src/Policy/Asks.antt =====
-- What one provider result asks of the policy, written without a loop over a state: the decisions
-- that it asks for and the reasons that it gives. `Outcome` shows that `evaluateDoc` joins these.
use scintx.Base.{
  String, Option, none, some, List, [], ◌∷◌, ◌++◌, map, lookup, flat_map, ◌≡◌, refl, ◌∙◌, arith,
}
use mathlib.Core.List.{append-nil, append_assoc, map-append}
use scintx.Api.{
  Score, Finding, ProviderResult, ExecutionStatus, Verdict, VerdictValue, verdict_string,
  DecisionReason, PolicyDecisionValue, decision_value,
}
use scintx.Policy.Rank.{decision_or, escalate_all, escalate_all-append}
use scintx.Policy.Document.{Spec}
use scintx.Policy.Rules.{MatchedRule, match_finding}
use scintx.Policy.Evaluate.{
  Progress, baseline, error_message, result_reason, apply_match, walk_findings, on_value,
  on_verdict, on_status, walk_results,
}

abbrev pub to_list : {A : Type 0} → Option A → List A
to_list none = []
to_list (some a) = a ∷ []

-- What the verdicts map of the policy says of a verdict.
unfoldable pub mapped : {S : Type 0} → Spec S → Verdict → List PolicyDecisionValue
mapped spec v = to_list (elim (lookup (verdict_string v.value) spec.verdicts) [
  | none ↦ none
  | some m ↦ some (decision_value m)
])

module _ {S : Type 0} where
  abbrev pub ruling : MatchedRule S → PolicyDecisionValue
  ruling m = decision_value m.decision

  abbrev pub grounds : MatchedRule S → DecisionReason S
  grounds m = m.reason

module _ {S : Type 0} ⦃F : Score S⦄ where
  -- The first matching rule of each finding.
  unfoldable pub matched : Spec S → String → List (Finding S) → List (MatchedRule S)
  matched spec id = flat_map λ f. to_list (match_finding spec.findings id f)

  -- Findings count under a warn or a fail verdict only.
  unfoldable pub judged : VerdictValue → Spec S → ProviderResult S → List (MatchedRule S)
  unfolding matched
  judged VerdictValue.warn spec r = matched spec r.id r.findings
  judged VerdictValue.fail spec r = matched spec r.id r.findings
  judged _ spec r = []

  unfoldable pub asks_of :
      ExecutionStatus → Option Verdict → Spec S → ProviderResult S → List PolicyDecisionValue
  unfolding judged mapped
  asks_of ExecutionStatus.completed none spec r =
      decision_or spec.on_missing_verdict PolicyDecisionValue.review ∷ []
  asks_of ExecutionStatus.completed (some v) spec r =
      mapped spec v ++ map ruling (judged v.value spec r)
  asks_of ExecutionStatus.timeout v spec r =
      decision_or spec.on_timeout PolicyDecisionValue.review ∷ []
  asks_of _ v spec r = decision_or spec.on_error PolicyDecisionValue.review ∷ []

  unfoldable pub cites_of :
      ExecutionStatus → Option Verdict → Spec S → ProviderResult S → List (DecisionReason S)
  unfolding judged
  cites_of ExecutionStatus.completed none spec r =
      result_reason "missing_verdict" r.id "Provider completed but returned no verdict" ∷ []
  cites_of ExecutionStatus.completed (some v) spec r = map grounds (judged v.value spec r)
  cites_of ExecutionStatus.timeout v spec r =
      result_reason "required_provider_timeout" r.id
        "Provider invocation timed out; required by policy"
      ∷ []
  cites_of _ v spec r = result_reason "provider_error" r.id (error_message r.execution.error) ∷ []

  -- The decisions that a result asks for.
  unfoldable pub asks : Spec S → ProviderResult S → List PolicyDecisionValue
  unfolding asks_of
  asks spec r = asks_of r.execution.status r.verdict spec r

  -- The reasons that a result gives.
  unfoldable pub cites : Spec S → ProviderResult S → List (DecisionReason S)
  unfolding cites_of
  cites spec r = cites_of r.execution.status r.verdict spec r

-- The state after decisions and reasons have been taken in.
abbrev pub join_in :
    {S : Type 0} → Progress S → List PolicyDecisionValue → List (DecisionReason S) → Progress S
join_in p ds rs = record { decision = escalate_all p.decision ds; reasons = p.reasons ++ rs }

join_in-append :
    {S : Type 0} (p : Progress S) (ds es : List PolicyDecisionValue)
    (rs ts : List (DecisionReason S))
    → join_in (join_in p ds rs) es ts ≡ join_in p (ds ++ es) (rs ++ ts)
join_in-append p ds es rs ts =
    rw (escalate_all-append p.decision ds es, append_assoc p.reasons rs ts)

module _ {S : Type 0} ⦃F : Score S⦄ where
  apply_match-join_in :
      (m : Option (MatchedRule S)) (p : Progress S)
      → apply_match m p ≡ join_in p (map ruling (to_list m)) (map grounds (to_list m))
  unfolding apply_match escalate_all
  apply_match-join_in none p = simp append-nil
  apply_match-join_in (some m) p = refl

  walk_findings-matched :
      (spec : Spec S) (id : String) (fs : List (Finding S)) (p : Progress S)
      → walk_findings spec id fs p
        ≡ join_in p (map ruling (matched spec id fs)) (map grounds (matched spec id fs))
  unfolding walk_findings matched escalate_all
  walk_findings-matched spec id [] p = simp append-nil
  walk_findings-matched spec id (f ∷ fs) p =
      let m = match_finding spec.findings id f in
      let rest = matched spec id fs in
      rw (apply_match-join_in m p, map-append, map-append)
        (walk_findings-matched spec id fs _
          ∙ join_in-append p (map ruling (to_list m)) (map ruling rest) (map grounds (to_list m))
              (map grounds rest))

  on_value-judged :
      (v : VerdictValue) (spec : Spec S) (r : ProviderResult S) (p : Progress S)
      → on_value v spec r p
        ≡ join_in p (map ruling (judged v spec r)) (map grounds (judged v spec r))
  unfolding on_value judged escalate_all
  on_value-judged VerdictValue.warn spec r p = walk_findings-matched spec r.id r.findings p
  on_value-judged VerdictValue.fail spec r p = walk_findings-matched spec r.id r.findings p
  on_value-judged _ spec r p = simp append-nil

  baseline-mapped :
      (spec : Spec S) (v : Verdict) (d : PolicyDecisionValue)
      → baseline spec v d ≡ escalate_all d (mapped spec v)
  unfolding baseline mapped escalate_all
  baseline-mapped spec v d = ground arith

  on_verdict-asks :
      (v : Option Verdict) (spec : Spec S) (r : ProviderResult S) (p : Progress S)
      → on_verdict v spec r p
        ≡ join_in p
            (asks_of ExecutionStatus.completed v spec r)
            (cites_of ExecutionStatus.completed v spec r)
  unfolding on_verdict asks_of cites_of escalate_all
  on_verdict-asks none spec r p = refl
  on_verdict-asks (some v) spec r p =
      on_value-judged v.value spec r _ ∙ rw (baseline-mapped spec v p.decision, escalate_all-append)

  on_status-asks :
      (s : ExecutionStatus) (spec : Spec S) (r : ProviderResult S) (p : Progress S)
      → on_status s spec r p ≡ join_in p (asks_of s r.verdict spec r) (cites_of s r.verdict spec r)
  unfolding on_status asks_of cites_of escalate_all
  on_status-asks ExecutionStatus.completed spec r p = on_verdict-asks r.verdict spec r p
  on_status-asks _ spec r p = refl

  -- The loop over the results joins what each result asks for, in order.
  pub walk_results-asks :
      (spec : Spec S) (rs : List (ProviderResult S)) (p : Progress S)
      → walk_results spec rs p ≡ join_in p (flat_map (asks spec) rs) (flat_map (cites spec) rs)
  unfolding walk_results asks cites escalate_all
  walk_results-asks spec [] p = simp append-nil
  walk_results-asks spec (r ∷ rs) p = rw (on_status-asks r.execution.status spec r p) (
      walk_results-asks spec rs _
      ∙ join_in-append p (asks spec r) (flat_map (asks spec) rs) (cites spec r)
          (flat_map (cites spec) rs))
