-- ===== src/Server/Reads.antt =====
-- The handlers of internal/server/server.go that read the store, and those for artifacts.
use scintx.Base.{ℕ, String, ◌^^◌, Option, none, some, List, [], ◌∷◌, map, keep, ◌==◌, if◌then◌else◌}
use scintx.Api.{ResourceReference, Fields}
use scintx.Store.{MemoryStore, ProviderEntry, get_submission}
use scintx.Store.Records.{
  get_results_for_submission, get_merged_result_for_submission, get_result, get_decision,
  all_providers, get_capabilities, put_artifact, has_artifact, all_events,
}
use scintx.Orchestrator.Results.{blob_urn}
use scintx.Server.Answers.{
  ProviderSummary, Body, no_body, submission, results, merged, result, decision, providers,
  capabilities, artifact_ref, events, Response, write_json, write_problem,
}

abbrev summary : ProviderEntry → ProviderSummary
summary p = record {
  id = p.id;
  name = p.name;
  capabilities = map (λ c. c.id ^^ (":" ^^ c.version)) p.capabilities.capabilities;
}

-- What reading the body of an upload yields, within its limit.
pub data Upload : Type 0 where
  too_large unreadable : String → Upload
  content : List ℕ → Upload

module _ {S : Type 0} where
  abbrev or_missing : {A : Type 0} → String → (A → Body S) → Option A → Response S
  or_missing detail body none = write_problem 404 "not_found" detail
  or_missing detail body (some a) = write_json 200 (body a)

  -- getSubmission
  unfoldable pub read_submission : String → MemoryStore S → Response S
  unfolding get_submission
  read_submission id s = or_missing "submission not found" submission (get_submission id s)

  -- listSubmissionResults
  unfoldable pub list_submission_results : String → MemoryStore S → Response S
  unfolding get_submission get_results_for_submission
  list_submission_results id s = elim (get_submission id s) [
    | none ↦ write_problem 404 "not_found" "submission not found"
    | some sub ↦ write_json 200 (results (get_results_for_submission id s))
  ]

  -- getMergedResult
  unfoldable pub read_merged_result : String → MemoryStore S → Response S
  unfolding get_submission get_merged_result_for_submission
  read_merged_result id s = elim (get_submission id s) [
    | none ↦ write_problem 404 "not_found" "submission not found"
    | some sub ↦
        or_missing
          ("no merged result for submission "
            ^^ (id ^^ "; aggregation may not be enabled or no findings were returned"))
          merged (get_merged_result_for_submission id s)
  ]

  -- getResult
  unfoldable pub read_result : String → MemoryStore S → Response S
  unfolding get_result
  read_result id s = or_missing "result not found" result (get_result id s)

  -- getDecision
  unfoldable pub read_decision : String → MemoryStore S → Response S
  unfolding get_decision
  read_decision id s = or_missing "decision not found" decision (get_decision id s)

  -- listProviders
  unfoldable pub list_providers : MemoryStore S → Response S
  unfolding all_providers
  list_providers s = write_json 200 (providers (map summary (all_providers s)))

  -- getProviderCapabilities
  unfoldable pub read_provider_capabilities : String → MemoryStore S → Response S
  unfolding get_capabilities
  read_provider_capabilities id s =
      or_missing "provider not found" capabilities (get_capabilities id s)

  -- checkArtifact
  unfoldable pub check_artifact : String → MemoryStore S → Response S
  unfolding has_artifact
  check_artifact digest s = write_json (if has_artifact digest s then 200 else 404) no_body

  -- listEvents; an empty subject asks for all
  unfoldable pub list_events : String → MemoryStore S → Response S
  unfolding all_events
  list_events subject s = write_json 200 (
      events
        (if subject == "" then all_events s else keep (λ e. e.subject == subject) (all_events s)))

  -- uploadArtifact; `sha256` is the digest in hexadecimal digits
  unfoldable pub upload_artifact :
      (List ℕ → String) → String → Upload → MemoryStore S → MemoryStore S × Response S
  unfolding put_artifact blob_urn
  upload_artifact sha256 media_type (too_large detail) s =
      (s, write_problem 413 "artifact_too_large" detail)
  upload_artifact sha256 media_type (unreadable detail) s =
      (s, write_problem 400 "invalid_request" ("failed to read artifact body: " ^^ detail))
  upload_artifact sha256 media_type (content body) s =
      let digest = "sha256:" ^^ sha256 body in
      let ref : ResourceReference = record {
        uri = blob_urn digest;
        media_type = media_type;
        digests = ("sha256", sha256 body) ∷ [];
        format = "";
        format_version = "";
        expires_at = "";
        extensions = Fields.end;
      } in
      (
        put_artifact digest body s,
        write_json 201 (
            artifact_ref (record {
              purl = none;
              digests = ("sha256", sha256 body) ∷ [];
              content_ref = some ref;
            })),
      )
