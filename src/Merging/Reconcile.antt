-- ===== src/Merging/Reconcile.antt =====
-- `reconcileAssessment`: one assessment from those of all sources.
use scintx.Base.{
  String, Bool, true, false, ◌&&◌, ◌||◌, Option, none, some, List, [], ◌∷◌, if◌then◌else◌,
}
use scintx.Api.{Assessment, AssessmentStatus}
use scintx.Merging.Identifiers.{SourcePair}

pub record Observation : Type 0 where
  pub result_id : String
  pub status : AssessmentStatus

abbrev pub is_affected : AssessmentStatus → Bool
is_affected AssessmentStatus.affected = true
is_affected _ = false

abbrev pub is_investigated : AssessmentStatus → Bool
is_investigated AssessmentStatus.under_investigation = true
is_investigated _ = false

abbrev pub is_not_affected : AssessmentStatus → Bool
is_not_affected AssessmentStatus.not_affected = true
is_not_affected _ = false

-- The variables of the loop over the observations.
pub record Tally : Type 0 where
  pub has_affected : Bool
  pub has_under_investigation : Bool
  pub all_not_affected : Bool

-- The switch of the loop.
unfoldable pub count_status : AssessmentStatus → Tally → Tally
count_status AssessmentStatus.affected t = record t {
  has_affected = true;
  all_not_affected = false;
}
count_status AssessmentStatus.under_investigation t = record t {
  has_under_investigation = true;
  all_not_affected = false;
}
count_status AssessmentStatus.not_affected t = t
count_status _ t = record t { all_not_affected = false }

unfoldable pub tally : List Observation → Tally → Tally
unfolding count_status
tally [] t = t
tally (o ∷ obs) t = tally obs (count_status o.status t)

-- The result ids of the observations that say not_affected.
unfoldable pub dissenters : List Observation → List String
dissenters [] = []
dissenters (o ∷ obs) =
    let rest = dissenters obs in if is_not_affected o.status then o.result_id ∷ rest else rest

-- The final switch, and the conflicts.
unfoldable pub settle : Tally → List Observation → AssessmentStatus × List String
unfolding dissenters
settle t obs =
    if t.has_affected && t.all_not_affected
    then (AssessmentStatus.affected, [])
    else if t.has_affected
    then (AssessmentStatus.affected, dissenters obs)
    else if t.has_under_investigation
    then (AssessmentStatus.under_investigation, [])
    else if t.all_not_affected
    then (AssessmentStatus.not_affected, [])
    else (AssessmentStatus.under_investigation, [])

abbrev with_assessment : String → Option Assessment → List Observation → List Observation
with_assessment id none rest = rest
with_assessment id (some a) rest = record { result_id = id; status = a.status } ∷ rest

abbrev passes : (AssessmentStatus → Bool) → Option Assessment → Bool
passes test none = false
passes test (some a) = test a.status

abbrev context : Option Assessment → String × String
context none = ("", "")
context (some a) = (a.justification, a.detail)

abbrev as_assessment : AssessmentStatus → String × String → Assessment
as_assessment s (justification, detail) = record {
  status = s;
  justification = justification;
  detail = detail;
}

abbrev pub start_tally : Tally
start_tally = record {
  has_affected = false;
  has_under_investigation = false;
  all_not_affected = true;
}

module _ {S : Type 0} where
  -- The first loop: the sources that give an assessment.
  unfoldable pub observed : List (SourcePair S) → List Observation
  observed [] = []
  observed (p ∷ pairs) = with_assessment p.result.id p.finding.assessment (observed pairs)

  -- Justification and detail of the first source whose status passes the test.
  unfoldable pub first_context : (AssessmentStatus → Bool) → List (SourcePair S) → String × String
  first_context test [] = ("", "")
  first_context test (p ∷ pairs) =
      if passes test p.finding.assessment
      then context p.finding.assessment
      else first_context test pairs

  -- Justification and detail, which a common not_affected takes from elsewhere.
  abbrev pick_context : AssessmentStatus → List (SourcePair S) → String × String
  pick_context AssessmentStatus.not_affected pairs = first_context is_not_affected pairs
  pick_context _ pairs = first_context (λ s. is_affected s || is_investigated s) pairs

  abbrev reconcile_observed :
      List Observation → List (SourcePair S) → Option Assessment × List String
  reconcile_observed [] pairs = (none, [])
  reconcile_observed (o ∷ obs) pairs =
      let (status, conflicts) = settle (tally (o ∷ obs) start_tally) (o ∷ obs) in
      (some (as_assessment status (pick_context status pairs)), conflicts)

  -- reconcileAssessment
  unfoldable pub reconcile_assessment : List (SourcePair S) → Option Assessment × List String
  unfolding observed first_context settle tally
  reconcile_assessment pairs = reconcile_observed (observed pairs) pairs
