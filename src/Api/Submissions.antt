-- ===== src/Api/Submissions.antt =====
-- api/types.go: submissions and the events about them.
use scintx.Base.{ℕ, String, Option, List}
use scintx.Api.Values.{Extensions, Time}
use scintx.Api.Findings.{Artifact}

pub data SubmissionStatus : Type 0 where
  accepted running completed failed deferred : SubmissionStatus

pub data CompletionReason : Type 0 where
  decision_produced findings_only deferred failed : CompletionReason
  all_providers_ineligible interrupted capacity_exceeded : CompletionReason

pub record Submission : Type 0 where
  pub id : String
  pub schema_version : String
  pub artifact : Artifact
  pub requested_capabilities : List String
  pub provider_selectors : Extensions
  pub policy_ref : Option String
  pub status : SubmissionStatus
  pub completion_reason : Option CompletionReason
  pub created_at : Time
  pub completed_at : Option Time
  pub result_ids : List String
  pub decision_id : Option String
  pub resume_at : Option Time
  pub extensions : Extensions

pub record CloudEvent : Type 0 where
  pub spec_version : String
  pub id : String
  pub source : String
  pub type : String
  pub subject : String
  pub time : Time
  pub data_content_type : String
  pub data_schema : String
  pub payload : Extensions
  pub sequence : Option ℕ
