-- ===== src/Api/Results.antt =====
-- api/types.go: provider results and verdicts; api/merged.go: merged findings.
use scintx.Base.{ℕ, String, Bool, Option, List}
use scintx.Api.Values.{Extensions, Time}
use scintx.Api.Findings.{
  TypedIdentifier, SeverityObservation, Assessment, Finding, ResourceReference,
}

pub data ExecutionStatus : Type 0 where
  completed error timeout : ExecutionStatus
  other : String → ExecutionStatus

pub data VerdictValue : Type 0 where
  pass warn fail unknown : VerdictValue
  other : String → VerdictValue

-- string(value)
pub verdict_string : VerdictValue → String
verdict_string VerdictValue.pass = "pass"
verdict_string VerdictValue.warn = "warn"
verdict_string VerdictValue.fail = "fail"
verdict_string VerdictValue.unknown = "unknown"
verdict_string (VerdictValue.other s) = s

pub data VerdictOrigin : Type 0 where
  provider adapter : VerdictOrigin

pub record VerdictDerivationEntry : Type 0 where
  pub finding_id : String
  pub weight : String

pub record VerdictDerivation : Type 0 where
  pub driven_by : List VerdictDerivationEntry
  pub summary : String

pub record Verdict : Type 0 where
  pub value : VerdictValue
  pub origin : VerdictOrigin
  pub rule : String
  pub derivation : Option VerdictDerivation

pub data ProviderErrorCode : Type 0 where
  transport_error provider_5xx provider_4xx normalization_error : ProviderErrorCode
  semantic_error unsupported_version timeout : ProviderErrorCode

pub record ProviderError : Type 0 where
  pub code : ProviderErrorCode
  pub message : String
  pub detail : Extensions

pub record Execution : Type 0 where
  pub status : ExecutionStatus
  pub started_at : Time
  pub finished_at : Time
  pub error : Option ProviderError

pub record CacheInfo : Type 0 where
  pub hit : Bool
  pub original_result_id : String
  pub valid_until : Option Time
  pub freshness_basis : String

pub record ProviderRef : Type 0 where
  pub id : String
  pub version : String

pub record ProviderResult (S : Type 0) : Type 0 where
  pub id : String
  pub schema_version : String
  pub submission_id : String
  pub provider : ProviderRef
  pub capabilities : List String
  pub capability_manifest_digest : String
  pub execution : Execution
  pub verdict : Option Verdict
  pub findings : List (Finding S)
  pub raw_result : Option ResourceReference
  pub cache : Option CacheInfo
  pub extensions : Extensions

pub record FindingSource : Type 0 where
  pub provider_id : String
  pub result_id : String
  pub finding_id : String

pub record SeverityConsensus : Type 0 where
  pub strategy : String
  pub source_count : ℕ
  pub conflicts : List String

pub record MergedFinding (S : Type 0) : Type 0 where
  pub correlation_key : String
  pub type : String
  pub title : String
  pub identifiers : List TypedIdentifier
  pub sources : List FindingSource
  pub severity : List (SeverityObservation S)
  pub assessment : Option Assessment
  pub consensus : SeverityConsensus

pub record MergedResult (S : Type 0) : Type 0 where
  pub id : String
  pub submission_id : String
  pub input_result_ids : List String
  pub findings : List (MergedFinding S)
  pub merged_at : Time
