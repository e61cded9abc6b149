-- ===== src/Api/Findings.antt =====
-- api/types.go: artifacts, identifiers, severities, assessments and findings.
use scintx.Base.{ℕ, String, Bool, true, Option, List, Map, ◌≡◌, ◌⊎◌}
use scintx.Api.Values.{Json, Extensions, Time}

-- What the program uses of float64. JSON carries no NaN, so the order is total.
pub record Score (S : Type 0) : Type 0 where
  pub zero_score : S
  pub one_score : S
  pub le : S → S → Bool
  pub add : S → S → S
  pub mul : S → S → S
  pub div : S → S → S
  pub of_ℕ : ℕ → S
  pub format_one : S → String  -- fmt "%.1f"
  pub le_refl : (a : S) → le a a ≡ true
  pub le_trans : (a b c : S) → le a b ≡ true → le b c ≡ true → le a c ≡ true
  pub le_total : (a b : S) → (le a b ≡ true) ⊎ (le b a ≡ true)

pub record ResourceReference : Type 0 where
  pub uri : String
  pub media_type : String
  pub digests : Map String
  pub format : String
  pub format_version : String
  pub expires_at : String
  pub extensions : Extensions

pub record ArtifactRef : Type 0 where
  pub purl : Option String
  pub digests : Map String
  pub content_ref : Option ResourceReference

pub record Artifact : Type 0 where
  pub purl : Option String
  pub digests : Map String
  pub content_ref : Option ResourceReference
  pub sbom_refs : List ResourceReference
  pub provenance_refs : List ResourceReference
  pub extensions : Extensions
  pub content : List ℕ

pub data IdentifierRelation : Type 0 where
  none alias upstream related unset : IdentifierRelation

pub record TypedIdentifier : Type 0 where
  pub scheme : String
  pub value : String
  pub relation : IdentifierRelation

pub data SubjectOrigin : Type 0 where
  submitted_artifact component unset : SubjectOrigin

-- `other` stands for a string that is none of the constants.
pub data AssessmentStatus : Type 0 where
  affected not_affected fixed under_investigation unknown : AssessmentStatus
  other : String → AssessmentStatus

-- string(status)
pub assessment_string : AssessmentStatus → String
assessment_string AssessmentStatus.affected = "affected"
assessment_string AssessmentStatus.not_affected = "not_affected"
assessment_string AssessmentStatus.fixed = "fixed"
assessment_string AssessmentStatus.under_investigation = "under_investigation"
assessment_string AssessmentStatus.unknown = "unknown"
assessment_string (AssessmentStatus.other s) = s

pub record Assessment : Type 0 where
  pub status : AssessmentStatus
  pub justification : String
  pub detail : String

pub record CweRef : Type 0 where
  pub scheme : String
  pub id : String

pub record DerivationInfo : Type 0 where
  pub method : String

pub record SeverityObservation (S : Type 0) : Type 0 where
  pub scheme : String
  pub version : String
  pub score : Option S
  pub level : String
  pub vector : String
  pub source : String
  pub derivation : Option DerivationInfo

pub record Metric (S : Type 0) : Type 0 where
  pub scheme : String
  pub value : Json
  pub version : String
  pub percentile : Option S
  pub observed_at : Option Time
  pub extensions : Extensions

pub record Remediation : Type 0 where
  pub summary : String
  pub detail : String
  pub references : List String

pub record Finding (S : Type 0) : Type 0 where
  pub id : String
  pub type : String
  pub title : String
  pub description : String
  pub identifiers : List TypedIdentifier
  pub subjects : List ArtifactRef
  pub subject_origin : SubjectOrigin
  pub subject_path : List String
  pub severity : List (SeverityObservation S)
  pub weaknesses : List CweRef
  pub assessment : Option Assessment
  pub references : List String
  pub evidence : List ResourceReference
  pub remediation : Option Remediation
  pub fingerprints : Map String
  pub metrics : List (Metric S)
  pub extensions : Extensions
