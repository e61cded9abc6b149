-- ===== src/Tests/Matched.antt =====
-- Matching, at an npm package and a capability that wants one.
use scintx.Base.{String, false, Option, none, some, [], ◌∷◌, ◌==◌, ◌≡◌, ◌≢◌, refl, if◌then◌else◌}
use scintx.Api.{Capability, RequirementKind, Fields}
use scintx.Matching.{
  requirement_satisfied, capability_eligible, matching_capability, some_profile, profile_satisfied,
  check_kind, check_type,
}
use scintx.Matching.Eligible.{
  failures, capability_eligible-unmet, Matched, matching_capability-Matched,
}
use scintx.Tests.Samples.{submission}

abbrev canonical : String → Option String
canonical s = if s == "" then none else some s

abbrev type_of : String → String
type_of s = if s == "pkg:npm/left-pad@1.3.0" then "npm" else ""

abbrev wants : String → Capability
wants type = record {
  id = "vuln";
  version = "1";
  input_profiles =
      record {
        id = "by_purl";
        requires =
            record { kind = RequirementKind.purl; types = type ∷ []; algorithms = []; formats = [] }
            ∷ [];
      }
      ∷ [];
  finding_types = [];
  native_output_formats = [];
  limits = Fields.end;
  cost_hint = "";
  latency_hint = "";
}

refused_pypi :
    (capability_eligible canonical type_of submission.artifact (wants "pypi")).eligible ≡ false
unfolding capability_eligible some_profile profile_satisfied requirement_satisfied check_kind
    check_type
refused_pypi = refl

pypi-listed : (wants "pypi").input_profiles ≢ []
pypi-listed e = cc

capability_eligible-unmet_example :
    ((capability_eligible canonical type_of submission.artifact (wants "pypi")).reasons
      ≡ failures canonical type_of submission.artifact (wants "pypi"))
    × (failures canonical type_of submission.artifact (wants "pypi") ≢ [])
capability_eligible-unmet_example =
    capability_eligible-unmet canonical type_of submission.artifact (wants "pypi") pypi-listed
      refused_pypi

matching_capability-Matched_example :
    Matched canonical type_of submission.artifact (wants "npm" ∷ wants "pypi" ∷ []) "vuln" (
      matching_capability canonical type_of submission.artifact
        (wants "npm" ∷ wants "pypi" ∷ [])
        "vuln")
matching_capability-Matched_example =
    matching_capability-Matched canonical type_of submission.artifact
      (wants "npm" ∷ wants "pypi" ∷ []) "vuln"
