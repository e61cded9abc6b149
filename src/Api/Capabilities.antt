-- ===== src/Api/Capabilities.antt =====
-- api/types.go: what a provider advertises, and the answer of matching.
use scintx.Base.{String, Bool, List, Map}
use scintx.Api.Values.{Extensions, Time}
use scintx.Api.Results.{ProviderRef}

-- `other` stands for a string that is none of the constants.
pub data RequirementKind : Type 0 where
  purl digest content sbom provenance : RequirementKind
  other : String → RequirementKind

-- string(kind)
pub kind_string : RequirementKind → String
kind_string RequirementKind.purl = "purl"
kind_string RequirementKind.digest = "digest"
kind_string RequirementKind.content = "content"
kind_string RequirementKind.sbom = "sbom"
kind_string RequirementKind.provenance = "provenance"
kind_string (RequirementKind.other s) = s

pub record Requirement : Type 0 where
  pub kind : RequirementKind
  pub types : List String
  pub algorithms : List String
  pub formats : Map (List String)

pub record InputProfile : Type 0 where
  pub id : String
  pub requires : List Requirement

pub record Capability : Type 0 where
  pub id : String
  pub version : String
  pub input_profiles : List InputProfile
  pub finding_types : List String
  pub native_output_formats : List String
  pub limits : Extensions
  pub cost_hint : String
  pub latency_hint : String

pub record ProviderCapabilities : Type 0 where
  pub schema_version : String
  pub provider : ProviderRef
  pub manifest_version : String
  pub manifest_digest : String
  pub updated_at : Time
  pub capabilities : List Capability
  pub accepts_adjudications : Bool
  pub extensions : Extensions

pub data CompatibilityReasonCode : Type 0 where
  missing_required_input unsupported_purl_type unsupported_digest_algorithm :
      CompatibilityReasonCode
  unsupported_sbom_format size_exceeded no_matching_profile : CompatibilityReasonCode

pub record CompatibilityReason : Type 0 where
  pub code : CompatibilityReasonCode
  pub input : String
  pub detail : String

pub record CompatibilityResult : Type 0 where
  pub provider_id : String
  pub capability : String
  pub eligible : Bool
  pub reasons : List CompatibilityReason
