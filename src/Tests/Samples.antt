-- ===== src/Tests/Samples.antt =====
-- Sample policies, provider results and merged findings, with whole numbers for scores.
use scintx.Base.{
  ℕ, ◌+◌, ◌*◌, String, Option, none, some, List, [], ◌∷◌, ◌==◌, leb, nat_eq, if◌then◌else◌, arith,
}
use scintx.Api.{
  Score, Fields, Duration, Submission, SubmissionStatus, ProviderResult, ExecutionStatus, Verdict,
  VerdictValue, VerdictOrigin, Finding, SubjectOrigin, SeverityObservation, MergedFinding,
  MergedResult,
}
use scintx.Policy.Document.{Document, Spec, FindingRule, FindingWhen}

instance abbrev pub whole_scores : Score ℕ
whole_scores = record {
  zero_score = 0;
  one_score = 1;
  le = leb;
  add = λ a b. a + b;
  mul = λ a b. a * b;
  div = λ a b. if nat_eq b 0 then 0 else if leb b a then 1 else 0;
  of_ℕ = λ n. n;
  format_one = λ n. if nat_eq n 0 then "0.0" else if nat_eq n 9 then "9.0" else "?";
  le_refl = λ a. ground arith;
  le_trans = λ a b c p q. ground arith;
  le_total = λ a b. ground arith;
}

-- Only hours are read.
abbrev pub hours : String → Option Duration
hours s = if s == "2h" then some (Duration.ahead 7_200_000_000_000) else none

abbrev pub submission : Submission
submission = record {
  id = "sub_1";
  schema_version = "1.0.0";
  artifact = record {
    purl = some "pkg:npm/left-pad@1.3.0";
    digests = [];
    content_ref = none;
    sbom_refs = [];
    provenance_refs = [];
    extensions = Fields.end;
    content = 1 ∷ 2 ∷ [];
  };
  requested_capabilities = [];
  provider_selectors = Fields.end;
  policy_ref = none;
  status = SubmissionStatus.accepted;
  completion_reason = none;
  created_at = 5;
  completed_at = none;
  result_ids = [];
  decision_id = none;
  resume_at = none;
  extensions = Fields.end;
}

abbrev pub observation : SeverityObservation ℕ
observation = record {
  scheme = "CVSS";
  version = "3.1";
  score = some 9;
  level = "critical";
  vector = "";
  source = "";
  derivation = none;
}

abbrev pub finding : Finding ℕ
finding = record {
  id = "f1";
  type = "vulnerability";
  title = "";
  description = "";
  identifiers = [];
  subjects = [];
  subject_origin = SubjectOrigin.unset;
  subject_path = [];
  severity = observation ∷ [];
  weaknesses = [];
  assessment = none;
  references = [];
  evidence = [];
  remediation = none;
  fingerprints = [];
  metrics = [];
  extensions = Fields.end;
}

abbrev pub critical : FindingWhen ℕ
critical = record {
  assessment = "";
  severity_scheme = "cvss";
  min_score = some 7;
  finding_type = "vulnerability";
}

abbrev pub deny_critical : FindingRule ℕ
deny_critical = record {
  when = critical;
  decision = "deny";
  reason_code = "critical_severity";
  message = "{{finding_id}} scores {{score}}";
}

abbrev pub spec : Spec ℕ
spec = record {
  on_timeout = "";
  on_error = "";
  on_missing_verdict = "";
  verdicts = ("warn", "review") ∷ [];
  findings = deny_critical ∷ [];
  defer = none;
  severity_consensus = "max";
  provider_priority = [];
  merge_conflicts = "";
}

abbrev pub document : Document ℕ
document = record {
  api_version = "scintx.policy/v1";
  kind = "Policy";
  metadata = record { id = "default"; version = "1"; description = "" };
  spec = spec;
}

abbrev pub result : String → ExecutionStatus → Option Verdict → List (Finding ℕ) → ProviderResult ℕ
result id status verdict findings = record {
  id = id;
  schema_version = "1.0.0";
  submission_id = "sub_1";
  provider = record { id = "p1"; version = "1" };
  capabilities = [];
  capability_manifest_digest = "";
  execution = record { status = status; started_at = 0; finished_at = 0; error = none };
  verdict = verdict;
  findings = findings;
  raw_result = none;
  cache = none;
  extensions = Fields.end;
}

abbrev pub judgement : VerdictValue → Option Verdict
judgement v =
    some (record { value = v; origin = VerdictOrigin.provider; rule = ""; derivation = none })

abbrev pub passing : ProviderResult ℕ
passing = result "r1" ExecutionStatus.completed (judgement VerdictValue.pass) []

abbrev pub failing : ProviderResult ℕ
failing = result "r2" ExecutionStatus.completed (judgement VerdictValue.fail) (finding ∷ [])

abbrev pub late : ProviderResult ℕ
late = result "r3" ExecutionStatus.timeout none []

abbrev pub merged_finding : MergedFinding ℕ
merged_finding = record {
  correlation_key = "k";
  type = "vulnerability";
  title = "";
  identifiers = [];
  sources = record { provider_id = "p1"; result_id = "r1"; finding_id = "f1" } ∷ [];
  severity = observation ∷ [];
  assessment = none;
  consensus = record { strategy = "max"; source_count = 1; conflicts = [] };
}

abbrev pub merged : MergedResult ℕ
merged = record {
  id = "mrg_1";
  submission_id = "sub_1";
  input_result_ids = "r1" ∷ [];
  findings = merged_finding ∷ [];
  merged_at = 0;
}
