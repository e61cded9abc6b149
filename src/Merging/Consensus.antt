-- ===== src/Merging/Consensus.antt =====
-- What `reconcileAssessment` settles on.
use scintx.Base.{Bool, Option, none, some, List, [], ◌∷◌, any, all, if◌then◌else◌}
use scintx.Api.{Assessment, AssessmentStatus}
use scintx.Merging.Reconcile.{Observation, is_affected, is_investigated, is_not_affected}

abbrev pub says : (AssessmentStatus → Bool) → Observation → Bool
says test o = test o.status

-- The lattice: affected wins, then an investigation, then a common not_affected; any other mixture
-- is under investigation.
abbrev pub consensus : List Observation → AssessmentStatus
consensus obs =
    if any (says is_affected) obs
    then AssessmentStatus.affected
    else if any (says is_investigated) obs
    then AssessmentStatus.under_investigation
    else if all (says is_not_affected) obs
    then AssessmentStatus.not_affected
    else AssessmentStatus.under_investigation

abbrev pub status_of : Option Assessment → Option AssessmentStatus
status_of none = none
status_of (some a) = some a.status

abbrev pub consensus_of : List Observation → Option AssessmentStatus
consensus_of [] = none
consensus_of (o ∷ obs) = some (consensus (o ∷ obs))
