-- ===== src/Server/Answers.antt =====
-- The answers of the handlers of internal/server/server.go. The body that json.Encoder writes is the
-- value that it is given.
use scintx.Base.{ℕ, String, Option, List, [], ◌∷◌}
use scintx.Api.{
  ArtifactRef, Submission, ProviderResult, MergedResult, PolicyDecision, ProviderCapabilities,
  CloudEvent,
}
use scintx.LocalPool.{PoolError, Pool}
use scintx.Orchestrator.Events.{Gateway}

-- providerSummary
pub record ProviderSummary : Type 0 where
  pub id : String
  pub name : String
  pub capabilities : List String

pub data Body (S : Type 0) : Type 0 where
  no_body : Body S
  problem : String → String → Body S
  submission : Submission → Body S
  results : List (ProviderResult S) → Body S
  merged : MergedResult S → Body S
  result : ProviderResult S → Body S
  decision : PolicyDecision S → Body S
  providers : List ProviderSummary → Body S
  capabilities : ProviderCapabilities → Body S
  artifact_ref : ArtifactRef → Body S
  events : List CloudEvent → Body S

pub record Response (S : Type 0) : Type 0 where
  pub status : ℕ
  pub headers : List (String × String)
  pub body : Body S

-- What the server works on; `none` where no worker pool is configured.
pub record Front (S : Type 0) : Type 0 where
  pub gateway : Gateway S
  pub pool : Option Pool

-- What reading and decoding the body of a request yields.
pub data Decoded (A : Type 0) : Type 0 where
  malformed : String → Decoded A
  decoded : A → Decoded A

module _ {S : Type 0} where
  -- writeJSON
  abbrev pub write_json : ℕ → Body S → Response S
  write_json status body = record { status = status; headers = []; body = body }

  -- writeProblem, whose type is made of the title
  abbrev pub write_problem : ℕ → String → String → Response S
  write_problem status title detail = write_json status (problem title detail)

  -- writeBackpressure
  abbrev pub write_backpressure : String → Response S
  write_backpressure detail = record {
    status = 429;
    headers = ("Retry-After", "2") ∷ [];
    body = problem "capacity_exceeded" detail;
  }

  -- The answer to an error of Reserve, Commit or Submit.
  unfoldable pub dispatch_problem : String → PoolError → Response S
  dispatch_problem detail PoolError.backpressure = write_backpressure detail
  dispatch_problem detail PoolError.pool_closed =
      write_problem 503 "shutting_down" "server is shutting down; retry later"
  dispatch_problem detail PoolError.context_done =
      write_problem 503 "shutting_down" "server is shutting down; retry later"
  dispatch_problem detail PoolError.token_used =
      write_problem 500 "dispatch_error" "admit token already used"
