-- ===== src/Server/Resuming.antt =====
-- `resumeSubmission` and `adjudicateSubmission` of internal/server/server.go.
use scintx.Base.{String, ◌^^◌, Bool, Option, none, some}
use scintx.Api.{Time, Submission, AdjudicateRequest}
use scintx.Store.{get_submission}
use scintx.LocalPool.{Pool, PoolError, submit}
use scintx.Orchestrator.Events.{Gateway, Outside, submission_status_string}
use scintx.Orchestrator.Process.{
  Orchestrator, MarkError, not_deferred, mark_for_resume, unmark_resume,
}
use scintx.Orchestrator.Resolve.{
  AdjudicateError, invalid_decision, invalid_status, no_prior_decision, prior_decision_missing,
  Adjudicated, rejected, recorded, adjudicate,
}
use scintx.Server.Answers.{
  Response, Front, Decoded, malformed, decoded, submission, decision, write_json, write_problem,
  dispatch_problem,
}

abbrev mark_detail : MarkError → String
mark_detail MarkError.not_found = "submission not found"
mark_detail (not_deferred s) =
    "submission is not deferred (status=" ^^ (submission_status_string s ^^ ")")

module _ {S : Type 0} where
  abbrev pub shown : Option Submission → Response S
  shown none = write_problem 500 "store_error" "resume enqueued but submission missing"
  shown (some sub) = write_json 202 (submission sub)

  -- After Submit: an error makes the submission deferred again.
  unfoldable pub on_submitted : String → Gateway S → Pool × Option PoolError → Front S × Response S
  unfolding unmark_resume get_submission dispatch_problem
  on_submitted id g (p, none) =
      (record { gateway = g; pool = some p }, shown (get_submission id g.store))
  on_submitted id g (p, some e) = (
    record { gateway = unmark_resume id g; pool = some p },
    dispatch_problem "worker pool at capacity; retry resume later" e,
  )

  -- After MarkForResume.
  unfoldable pub on_marked :
      Bool → String → Option Pool → Gateway S × Option MarkError → Front S × Response S
  unfolding submit on_submitted unmark_resume submission_status_string
  on_marked done id pool (g, some e) =
      (record { gateway = g; pool = pool }, write_problem 409 "resume_failed" (mark_detail e))
  on_marked done id none (g, none) = (
    record { gateway = unmark_resume id g; pool = none },
    write_problem 500 "dispatch_error" "worker pool not configured",
  )
  on_marked done id (some p) (g, none) = on_submitted id g (submit done id p)

  -- resumeSubmission
  unfoldable pub resume_submission : Bool → String → Front S → Front S × Response S
  unfolding mark_for_resume on_marked
  resume_submission done id f = on_marked done id f.pool (mark_for_resume id f.gateway)

  -- The answer to an error of Adjudicate.
  unfoldable pub adjudicate_problem : AdjudicateError → Response S
  unfolding submission_status_string
  adjudicate_problem AdjudicateError.not_found =
      write_problem 404 "not_found" "submission not found"
  adjudicate_problem invalid_decision =
      write_problem 422 "invalid_adjudication" "adjudication decision must be allow or deny"
  adjudicate_problem (invalid_status s) = write_problem 409 "adjudicate_conflict" (
      "submission cannot be adjudicated in its current state: status="
      ^^ (submission_status_string s ^^ " (need completed)"))
  adjudicate_problem no_prior_decision =
      write_problem 409 "adjudicate_conflict"
        "submission cannot be adjudicated in its current state: no prior policy decision to resolve"
  adjudicate_problem prior_decision_missing =
      write_problem 409 "adjudicate_conflict"
        "submission cannot be adjudicated in its current state: prior decision missing"

  abbrev adjudicated_response : Adjudicated S → Response S
  adjudicated_response (rejected e) = adjudicate_problem e
  adjudicated_response (recorded dec calls) = write_json 201 (decision dec)

  -- adjudicateSubmission
  unfoldable pub adjudicate_submission :
      Outside
      → (Time → String)
      → Orchestrator S
      → String
      → Decoded AdjudicateRequest
      → Front S
      → Front S × Response S
  unfolding adjudicate adjudicate_problem
  adjudicate_submission out format_time o id (malformed detail) f =
      (f, write_problem 400 "invalid_request" detail)
  adjudicate_submission out format_time o id (decoded req) f =
      let (g, answer) = adjudicate out format_time o id req f.gateway in
      (record f { gateway = g }, adjudicated_response answer)
