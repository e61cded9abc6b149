-- ===== src/Tests/Lifecycle.antt =====
-- The orchestrator, at one provider, a policy that allows, and a consumer that then denies.
use scintx.Base.{ℕ, String, ◌^^◌, true, none, some, List, [], ◌∷◌, lookup, ◌≡◌, refl}
use scintx.Api.{
  Capability, Fields, Time, Duration, Submission, SubmissionStatus, PolicyDecision,
  PolicyDecisionValue, AdjudicateRequest,
}
use scintx.Store.{MemoryStore, new_memory_store}
use scintx.Orchestrator.Events.{Gateway, Outside}
use scintx.Orchestrator.Results.{Provider, assessed}
use scintx.Orchestrator.Process.{Orchestrator, evaluated, Interrupts, process}
use scintx.Orchestrator.Settled.{Ends, process-Ends}
use scintx.Orchestrator.Resolve.{adjudicate}
use scintx.Orchestrator.Resolved.{Resolvable, Done, adjudicate-Done}
use scintx.Tests.Samples.{submission, passing}

abbrev pub out : Outside
out = record { source = "scintx"; random_hex = λ n. "0a"; now = λ n. n }

abbrev vuln : Capability
vuln = record {
  id = "vuln";
  version = "1";
  input_profiles = record { id = "any"; requires = [] } ∷ [];
  finding_types = [];
  native_output_formats = [];
  limits = Fields.end;
  cost_hint = "";
  latency_hint = "";
}

abbrev provider : Provider ℕ
provider = record {
  id = "p1";
  capabilities = record {
    schema_version = "1.0.0";
    provider = record { id = "p1"; version = "1" };
    manifest_version = "1";
    manifest_digest = "";
    updated_at = 0;
    capabilities = vuln ∷ [];
    accepts_adjudications = true;
    extensions = Fields.end;
  };
  assess = λ n artifact capability. assessed passing;
  receives = true;
}

abbrev allowing : PolicyDecision ℕ
allowing = record {
  id = "dec_1";
  submission_id = "sub_1";
  decision = PolicyDecisionValue.allow;
  policy = record { id = "default"; version = "1"; digest = "" };
  evaluated_at = 3;
  input_result_ids = "r1" ∷ [];
  reasons = [];
  resume_at = none;
  resume_on = "";
  extensions = Fields.end;
}

abbrev pub orchestrator : Orchestrator ℕ
orchestrator = record {
  providers = provider ∷ [];
  policy = record { evaluate = λ n sub results. evaluated allowing; evaluate_merged = none };
  cache_get = λ n key. none;
  cache_ttl = Duration.ahead 3_600_000_000_000;
  aggregator = none;
  hash = λ s. s;
  adj_forward = "p1" ∷ [];
  schedule = λ sels. sels;
}

abbrev pub wanted : Submission
wanted = record submission { requested_capabilities = "vuln" ∷ []; policy_ref = some "default" }

abbrev empty : MemoryStore ℕ
empty = new_memory_store

abbrev pub gateway : Submission → List (String × PolicyDecision ℕ) → Gateway ℕ
gateway sub decisions = record {
  store = record empty { submissions = ("sub_1", sub) ∷ []; decisions = decisions };
  seq = 0;
  draws = 0;
}

abbrev pub uninterrupted : Interrupts
uninterrupted = record { at_start = none; before_complete = none; after_wait = none }

pub wanted-stored : lookup "sub_1" (gateway wanted []).store.submissions ≡ some wanted
unfolding lookup
wanted-stored = refl

process-Ends_example :
    Ends "sub_1" (process out orchestrator uninterrupted "sub_1" (gateway wanted []))
process-Ends_example =
    process-Ends out orchestrator uninterrupted "sub_1" wanted (gateway wanted []) wanted-stored
      refl

abbrev decided : Submission
decided = record submission { status = SubmissionStatus.completed; decision_id = some "dec_1" }

abbrev request : AdjudicateRequest
request = record {
  decision = PolicyDecisionValue.deny;
  actor = "security@example.org";
  rationale = "";
  source = "registry";
  expires_at = none;
  extensions = Fields.end;
}

abbrev after : Gateway ℕ
after = gateway decided (("dec_1", allowing) ∷ [])

abbrev format_time : Time → String
format_time t = "2026-01-01T00:00:00Z"

after-Resolvable : Resolvable "sub_1" request after
unfolding lookup
after-Resolvable = record {
  final = refl;
  sub = decided;
  at = refl;
  named = refl;
  completed = refl;
  prior_id = "dec_1";
  linked = refl;
  nonempty = refl;
  prior = allowing;
  prior_at = refl;
}

id-unused : lookup ("dec_" ^^ out.random_hex after.draws) after.store.decisions ≡ none
unfolding lookup
id-unused = refl

adjudicate-Done_example :
    Done "sub_1" request after-Resolvable.prior after
      (adjudicate out format_time orchestrator "sub_1" request after)
adjudicate-Done_example =
    adjudicate-Done out format_time orchestrator "sub_1" request after after-Resolvable id-unused
