-- ===== src/Server/Submissions.antt =====
-- `createSubmission` of internal/server/server.go, with internal/scintx/fingerprint.go. Between the
-- reservation and the commit the pool is free for others: `between` is what they do to it. The
-- context of the request is done, or not, when Reserve reads it (`done`).
use scintx.Base.{
  ℕ, suc, String, ◌^^◌, Bool, true, false, not, ◌&&◌, Option, none, some, List, [], ◌∷◌, is_empty,
  ◌==◌, if◌then◌else◌, sort,
}
use scintx.Api.{Artifact, Fields, Submission, SubmissionStatus}
use scintx.Store.{
  MemoryStore, Stored, ignored, refused, replayed, created, put_submission_idempotent,
  abandon_submission,
}
use scintx.LocalPool.{Pool, PoolError, Token, fresh_token, reserve, commit, release}
use scintx.Purl.{canonical_purl}
use scintx.Orchestrator.Events.{Gateway, Outside}
use scintx.Server.Answers.{
  Response, Front, Decoded, malformed, decoded, submission, write_problem, dispatch_problem,
}

-- createSubmissionRequest; the key is read from a header
pub record CreateSubmissionRequest : Type 0 where
  pub schema_version : String
  pub artifact : Artifact
  pub requested_capabilities : List String
  pub policy_ref : Option String

-- idempotencyPayload
pub record IdempotencyPayload : Type 0 where
  pub schema_version : String
  pub artifact : Artifact
  pub requested_capabilities : List String
  pub policy_ref : Option String

abbrev or_braces : Option String → String
or_braces none = "{}"
or_braces (some json) = json

-- RequestFingerprint; `marshal` stands for json.Marshal and `hash` for SHA-256
unfoldable pub request_fingerprint :
    (IdempotencyPayload → Option String)
    → (String → String)
    → String
    → Artifact
    → List String
    → Option String
    → String
request_fingerprint marshal hash schema_version artifact caps policy_ref = hash (
    or_braces (
      marshal (record {
        schema_version = schema_version;
        artifact = artifact;
        requested_capabilities = sort caps;
        policy_ref = policy_ref;
      })))

-- The artifact that is submitted, or the title and the detail of a problem.
pub data Checked : Type 0 where
  unacceptable : String → String → Checked
  acceptable : Artifact → Checked

abbrev is_none : {A : Type 0} → Option A → Bool
is_none none = true
is_none (some a) = false

abbrev with_purl : Artifact → Option String → Option String → Checked
with_purl artifact none canonical = acceptable artifact
with_purl artifact (some purl) none = unacceptable "invalid_purl" ("invalid purl: " ^^ purl)
with_purl artifact (some purl) (some canonical) =
    acceptable (record artifact { purl = some canonical })

abbrev canonical_of : Option String → Option String
canonical_of none = none
canonical_of (some purl) = canonical_purl purl

-- The three tests of the artifact.
unfoldable pub check_submitted : Artifact → Checked
unfolding canonical_purl
check_submitted artifact =
    if is_none artifact.purl && (is_empty artifact.digests && is_none artifact.content_ref)
    then unacceptable "invalid_artifact"
        "artifact must have at least one of purl, digests, or content_ref+digests"
    else if not (is_none artifact.content_ref) && is_empty artifact.digests
    then unacceptable "invalid_artifact" "content_ref without digests is not allowed in v1"
    else with_purl artifact artifact.purl (canonical_of artifact.purl)

abbrev busy : String
busy = "worker pool at capacity; retry later"

module _ {S : Type 0} where
  -- The answer 202, with the place of the submission.
  abbrev pub accepted_response : Submission → Response S
  accepted_response sub = record {
    status = 202;
    headers = ("Location", "/v1/submissions/" ^^ sub.id) ∷ [];
    body = submission sub;
  }

  abbrev pub with_store : MemoryStore S → Pool → Gateway S → Front S
  with_store s p g = record { gateway = record g { store = s }; pool = some p }

  -- After Commit: an error gives up the submission, and then the reservation.
  unfoldable pub on_committed :
      String
      → Submission
      → MemoryStore S
      → Gateway S
      → Pool × Token × Option PoolError
      → Front S × Response S
  unfolding abandon_submission release dispatch_problem
  on_committed key sub s g (p, t, none) = (with_store s p g, accepted_response sub)
  on_committed key sub s g (p, t, some e) =
      (with_store (abandon_submission sub.id key s).0 (release p t).0 g, dispatch_problem busy e)

  -- After PutSubmissionIdempotent: a refusal and a replay free the reservation. It ignores only a
  -- missing submission, which is not passed here.
  unfoldable pub on_stored :
      String → (Pool → Pool) → Pool → Gateway S → MemoryStore S × Stored → Front S × Response S
  unfolding commit release on_committed
  on_stored key between p g (s, created sub) =
      on_committed key sub s g (commit sub.id (between p) fresh_token)
  on_stored key between p g (s, replayed sub) =
      (with_store s (release (between p) fresh_token).0 g, accepted_response sub)
  on_stored key between p g (s, refused e) = (
    with_store s (release (between p) fresh_token).0 g,
    write_problem 409 "idempotency_conflict" "Idempotency-Key reused with a different request body",
  )
  on_stored key between p g (s, ignored) =
      (with_store s (release (between p) fresh_token).0 g, write_problem 500 "store_error" "")

  -- After Reserve.
  unfoldable pub on_reserved :
      String
      → String
      → (Pool → Pool)
      → Submission
      → Gateway S
      → Pool × Option PoolError
      → Front S × Response S
  unfolding put_submission_idempotent on_stored dispatch_problem
  on_reserved key fingerprint between sub g (p, some e) =
      (with_store g.store p g, dispatch_problem busy e)
  on_reserved key fingerprint between sub g (p, none) =
      on_stored key between p g (put_submission_idempotent key fingerprint (some sub) g.store)

abbrev pub new_submission : Outside → CreateSubmissionRequest → String → Artifact → ℕ → Submission
new_submission out req schema_version artifact n = record {
  id = "sub_" ^^ out.random_hex n;
  schema_version = schema_version;
  artifact = artifact;
  requested_capabilities = req.requested_capabilities;
  provider_selectors = Fields.end;
  policy_ref = req.policy_ref;
  status = SubmissionStatus.accepted;
  completion_reason = none;
  created_at = out.now n;
  completed_at = none;
  result_ids = [];
  decision_id = none;
  resume_at = none;
  extensions = Fields.end;
}

module _ {S : Type 0} (out : Outside) (marshal : IdempotencyPayload → Option String)
    (hash : String → String) where
  -- From the checked artifact on.
  unfoldable pub on_checked :
      Bool
      → (Pool → Pool)
      → String
      → CreateSubmissionRequest
      → Front S
      → Checked
      → Option Pool
      → Front S × Response S
  unfolding reserve on_reserved request_fingerprint
  on_checked done between key req f (unacceptable title detail) pool =
      (f, write_problem 422 title detail)
  on_checked done between key req f (acceptable artifact) none =
      (f, write_problem 500 "dispatch_error" "worker pool not configured")
  on_checked done between key req f (acceptable artifact) (some p) =
      let version : String = if req.schema_version == "" then "1.0.0" else req.schema_version in
      on_reserved key
        (request_fingerprint marshal hash version artifact req.requested_capabilities
          req.policy_ref)
        between (new_submission out req version artifact f.gateway.draws)
        (record f.gateway { draws = suc f.gateway.draws }) (reserve done p)

  -- createSubmission
  unfoldable pub create_submission :
      Bool
      → (Pool → Pool)
      → String
      → Decoded CreateSubmissionRequest
      → Front S
      → Front S × Response S
  unfolding check_submitted on_checked
  create_submission done between key (malformed detail) f =
      (f, write_problem 400 "invalid_request" detail)
  create_submission done between key (decoded req) f =
      on_checked done between key req f (check_submitted req.artifact) f.pool
