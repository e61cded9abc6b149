-- ===== src/Matching.antt =====
-- api/matching.go: whether an artifact meets what a capability requires. The canonical form of a
-- purl (`none` for its error) and the type of a canonical purl are arguments.
pub mod Eligible
use scintx.Base.{
  String, ◌^^◌, Bool, true, false, not, ◌&&◌, ◌||◌, Option, none, some, List, [], ◌∷◌, ◌++◌,
  flat_map, is_empty, any, Map, contains, lookup, keys, ◌==◌, if◌then◌else◌,
}
use scintx.Api.{
  Artifact, ResourceReference, RequirementKind, kind_string, Requirement, InputProfile, Capability,
  CompatibilityReasonCode, CompatibilityReason, CompatibilityResult,
}

abbrev or_nothing : Option String → String
or_nothing none = ""
or_nothing (some s) = s

abbrev holds_version : String → Option (List String) → Bool
holds_version v none = false
holds_version v (some versions) = contains v versions

-- The body of the loops over SBOM and provenance references: any format if none is named.
unfoldable pub accepts : Map (List String) → ResourceReference → Bool
accepts formats ref =
    is_empty formats || holds_version ref.format_version (lookup ref.format formats)

abbrev is_missing : Option ResourceReference → Bool
is_missing none = true
is_missing (some r) = false

abbrev pub no_profile : String → CompatibilityReason
no_profile detail = record {
  code = CompatibilityReasonCode.no_matching_profile;
  input = "";
  detail = detail;
}

abbrev pub or_default : List CompatibilityReason → List CompatibilityReason
or_default [] = no_profile "" ∷ []
or_default (r ∷ rs) = r ∷ rs

module _ (canonical_purl : String → Option String) (purl_type : String → String) where
  -- A canonical purl against the types that a requirement names.
  unfoldable pub check_type : List String → Option String → Bool × String
  check_type types none = (false, "invalid purl")
  check_type types (some cp) =
      if not (is_empty types) && not (contains (purl_type cp) types)
      then (false, "unsupported purl type: " ^^ purl_type cp)
      else (true, "")

  -- The switch of requirementSatisfied.
  unfoldable pub check_kind : RequirementKind → Artifact → Requirement → Bool × String
  unfolding check_type accepts
  check_kind RequirementKind.purl artifact req =
      if or_nothing artifact.purl == ""
      then (false, "missing purl")
      else check_type req.types (canonical_purl (or_nothing artifact.purl))
  check_kind RequirementKind.digest artifact req =
      if is_empty artifact.digests
      then (false, "missing digests")
      else if not (is_empty req.algorithms)
          && not (any (λ a. contains a (keys artifact.digests)) req.algorithms)
      then (false, "no supported digest algorithm")
      else (true, "")
  check_kind RequirementKind.content artifact req =
      if is_missing artifact.content_ref then (false, "missing content") else (true, "")
  check_kind RequirementKind.sbom artifact req =
      if is_empty artifact.sbom_refs
      then (false, "missing sbom")
      else if any (accepts req.formats) artifact.sbom_refs
      then (true, "")
      else (false, "no matching sbom format/version")
  check_kind RequirementKind.provenance artifact req =
      if is_empty artifact.provenance_refs
      then (false, "missing provenance")
      else if any (accepts req.formats) artifact.provenance_refs
      then (true, "")
      else (false, "no matching provenance format/version")
  check_kind (RequirementKind.other s) artifact req = (false, "unknown requirement kind")

  -- requirementSatisfied
  unfoldable pub requirement_satisfied : Artifact → Requirement → Bool × String
  unfolding check_kind
  requirement_satisfied artifact req = check_kind req.kind artifact req

  -- profileSatisfied
  unfoldable pub profile_satisfied : Artifact → List Requirement → Bool × String
  profile_satisfied artifact [] = (true, "")
  profile_satisfied artifact (req ∷ reqs) =
      if not (requirement_satisfied artifact req).0
      then (false, (requirement_satisfied artifact req).1)
      else profile_satisfied artifact reqs

  -- The first loop of CapabilityEligible: whether it returns.
  unfoldable pub some_profile : Artifact → List InputProfile → Bool
  unfolding profile_satisfied
  some_profile artifact [] = false
  some_profile artifact (p ∷ ps) =
      if (profile_satisfied artifact p.requires).0 then true else some_profile artifact ps

  -- The inner loop that collects the reasons.
  unfoldable pub unmet : Artifact → List Requirement → List CompatibilityReason
  unmet artifact [] = []
  unmet artifact (req ∷ reqs) =
      let rest = unmet artifact reqs in
      if not (requirement_satisfied artifact req).0
      then record {
        code = CompatibilityReasonCode.missing_required_input;
        input = kind_string req.kind;
        detail = (requirement_satisfied artifact req).1;
      }
        ∷ rest
      else rest

  -- CapabilityEligible
  unfoldable pub capability_eligible : Artifact → Capability → CompatibilityResult
  unfolding some_profile unmet
  capability_eligible artifact c =
      let eligible = some_profile artifact c.input_profiles in
      record {
        provider_id = "";
        capability = c.id ^^ ":" ^^ c.version;
        eligible = eligible;
        reasons =
            if eligible
            then []
            else or_default (flat_map (λ p. unmet artifact p.requires) c.input_profiles);
      }

  -- MatchingCapability
  unfoldable pub matching_capability :
      Artifact → List Capability → String → Option Capability × Option CompatibilityResult
  unfolding capability_eligible
  matching_capability artifact [] requested = (
    none,
    some (record {
      provider_id = "";
      capability = requested;
      eligible = false;
      reasons = no_profile "capability not advertised" ∷ [];
    }),
  )
  matching_capability artifact (c ∷ cs) requested =
      if not (c.id == requested)
      then matching_capability artifact cs requested
      else if (capability_eligible artifact c).eligible
      then (some c, none)
      else (none, some (capability_eligible artifact c))
