-- ===== src/Policy/Outcome.antt =====
-- What `evaluateDoc` decides.
use scintx.Base.{
  ◌≤◌, String, Option, none, List, [], ◌∷◌, flat_map, ◌≡◌, ◌↔◌, ◌≢◌, refl, arith, Bool, true, false,
  any, eq_iff,
}
use scintx.Api.{Time, Duration, Submission, Score, ProviderResult, PolicyDecisionValue}
use scintx.Policy.Rank.{
  rank, escalate_all, top_rank, rank-escalate_all, escalate_all-IsConstant, IsConstant,
}
use scintx.Policy.Document.{Document}
use scintx.Policy.Evaluate.{start, conclude, evaluate_doc}
use scintx.Policy.Asks.{asks, cites, walk_results-asks}

-- A decision that the escalation can produce: a constant, of the highest rank asked for.
unfoldable pub Joins : PolicyDecisionValue → List PolicyDecisionValue → Type 0
Joins d ds = IsConstant d × (rank d ≡ top_rank ds)

pub Joins-escalate_all :
    (ds : List PolicyDecisionValue) → Joins (escalate_all PolicyDecisionValue.allow ds) ds
unfolding Joins rank
Joins-escalate_all ds = (
  escalate_all-IsConstant PolicyDecisionValue.allow ds tt,
  omega (arith, rank-escalate_all PolicyDecisionValue.allow ds),
)

abbrev pub is_deny : PolicyDecisionValue → Bool
is_deny PolicyDecisionValue.deny = true
is_deny _ = false

-- Defer, review or deny.
abbrev pub raises : PolicyDecisionValue → Bool
raises PolicyDecisionValue.defer = true
raises PolicyDecisionValue.review = true
raises PolicyDecisionValue.deny = true
raises _ = false

top_rank-le : (ds : List PolicyDecisionValue) → top_rank ds ≤ 3
unfolding top_rank rank
top_rank-le [] = omega arith
top_rank-le (d ∷ ds) = ground (arith, top_rank-le ds)

top_rank-deny : (ds : List PolicyDecisionValue) → (top_rank ds ≡ 3) ↔ (any is_deny ds ≡ true)
unfolding top_rank rank
top_rank-deny [] = ground arith
top_rank-deny (d ∷ ds) = ground (arith, top_rank-deny ds, top_rank-le ds)

top_rank-raises : (ds : List PolicyDecisionValue) → (top_rank ds ≡ 0) ↔ (any raises ds ≡ false)
unfolding top_rank rank
top_rank-raises [] = ground arith
top_rank-raises (d ∷ ds) = ground (arith, top_rank-raises ds)

-- The join is a denial exactly when one decision is, and an allowance exactly when no decision
-- ranks above it.
pub Joins-deny :
    {d : PolicyDecisionValue} (ds : List PolicyDecisionValue)
    → Joins d ds
    → (d ≡ PolicyDecisionValue.deny) ↔ (any is_deny ds ≡ true)
unfolding Joins rank
Joins-deny {d} ds j = ground (arith, top_rank-deny ds)

pub Joins-allow :
    {d : PolicyDecisionValue} (ds : List PolicyDecisionValue)
    → Joins d ds
    → (d ≡ PolicyDecisionValue.allow) ↔ (any raises ds ≡ false)
unfolding Joins rank
Joins-allow {d} ds j = ground (arith, top_rank-raises ds)

module _ {S : Type 0} (parse_duration : String → Option Duration) (random_hex : String)
    (now later : Time) ⦃F : Score S⦄ (doc : Document S) (sub : Submission)
    (rs : List (ProviderResult S)) where
  -- The decision is the highest-ranked of all that the results ask for, and the reasons are those
  -- that the results give, in the order of the results.
  pub evaluate_doc-asks :
      let dec = evaluate_doc parse_duration random_hex now later doc sub rs in
      Joins dec.decision (flat_map (asks doc.spec) rs)
      × (dec.reasons ≡ flat_map (cites doc.spec) rs)
  unfolding evaluate_doc conclude
  evaluate_doc-asks =
      rw (walk_results-asks doc.spec rs start)
        (Joins-escalate_all (flat_map (asks doc.spec) rs), refl)

  -- The decision is deny exactly when some result asks for deny, and allow exactly when none asks
  -- for more than allow.
  pub evaluate_doc-verdict :
      let dec = evaluate_doc parse_duration random_hex now later doc sub rs in
      ((dec.decision ≡ PolicyDecisionValue.deny)
        ↔ (any is_deny (flat_map (asks doc.spec) rs) ≡ true))
      × ((dec.decision ≡ PolicyDecisionValue.allow)
          ↔ (any raises (flat_map (asks doc.spec) rs) ≡ false))
  evaluate_doc-verdict = (
    Joins-deny (flat_map (asks doc.spec) rs) evaluate_doc-asks.0,
    Joins-allow (flat_map (asks doc.spec) rs) evaluate_doc-asks.0,
  )

  -- A submission is deferred exactly when a time to resume it is set, and then the event that
  -- resumes it is named; otherwise none is.
  evaluate_doc-resume :
      let dec = evaluate_doc parse_duration random_hex now later doc sub rs in
      ((dec.decision ≡ PolicyDecisionValue.defer) ↔ (dec.resume_at ≢ none))
      × ((dec.decision ≡ PolicyDecisionValue.defer)
          ↔ (dec.resume_on ≡ "org.eclipse.scintx.submission.resume"))
  unfolding evaluate_doc conclude
  evaluate_doc-resume = (
    (λ e n. ground arith, λ n. ground arith),
    (λ e. ground arith, λ e. ground (arith, eq_iff "" "org.eclipse.scintx.submission.resume")),
  )
