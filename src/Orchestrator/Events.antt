-- ===== src/Orchestrator/Events.antt =====
-- internal/scintx/events.go, and the state that the orchestrator works on. Random ids and readings
-- of the clock are taken one by one: `draws` counts those that have been taken.
use scintx.Base.{ℕ, suc, ◌+◌, String, ◌^^◌, some, ltb, if◌then◌else◌}
use scintx.Api.{
  Time, Json, Fields, CloudEvent, SubmissionStatus, CompletionReason, PolicyDecisionValue,
  ExecutionStatus,
}
use scintx.Store.{MemoryStore}
use scintx.Store.Records.{append_event}

pub record Gateway (S : Type 0) : Type 0 where
  pub store : MemoryStore S
  pub seq : ℕ
  pub draws : ℕ

-- The outside: the n-th random text in hexadecimal digits and the n-th reading of the clock.
pub record Outside : Type 0 where
  pub source : String
  pub random_hex : ℕ → String
  pub now : ℕ → Time

abbrev pub max_int32 : ℕ
max_int32 = 2_147_483_647

-- The counter after the next event, which is the sequence number of that event.
unfoldable pub next_seq : ℕ → ℕ
next_seq seq = if ltb max_int32 (seq + 1) then 1 else seq + 1

module _ {S : Type 0} (out : Outside) where
  -- Emit
  unfoldable pub emit : String → String → Fields → Gateway S → Gateway S
  unfolding next_seq append_event
  emit type subject payload g =
      let event : CloudEvent = record {
        spec_version = "1.0";
        id = "evt_" ^^ out.random_hex g.draws;
        source = out.source;
        type = type;
        subject = subject;
        time = out.now g.draws;
        data_content_type = "application/json";
        data_schema = "";
        payload = payload;
        sequence = some (next_seq g.seq);
      } in
      record g { store = append_event event g.store; seq = next_seq g.seq; draws = suc g.draws }

abbrev pub text_field : String → String → Fields → Fields
text_field k v rest = Fields.field k (Json.text v) rest

-- string(status), string(reason), string(decision)
unfoldable pub submission_status_string : SubmissionStatus → String
submission_status_string SubmissionStatus.accepted = "accepted"
submission_status_string SubmissionStatus.running = "running"
submission_status_string SubmissionStatus.completed = "completed"
submission_status_string SubmissionStatus.failed = "failed"
submission_status_string SubmissionStatus.deferred = "deferred"

unfoldable pub completion_reason_string : CompletionReason → String
completion_reason_string CompletionReason.decision_produced = "decision_produced"
completion_reason_string CompletionReason.findings_only = "findings_only"
completion_reason_string CompletionReason.deferred = "deferred"
completion_reason_string CompletionReason.failed = "failed"
completion_reason_string CompletionReason.all_providers_ineligible = "all_providers_ineligible"
completion_reason_string CompletionReason.interrupted = "interrupted"
completion_reason_string CompletionReason.capacity_exceeded = "capacity_exceeded"

unfoldable pub decision_string : PolicyDecisionValue → String
decision_string PolicyDecisionValue.allow = "allow"
decision_string PolicyDecisionValue.review = "review"
decision_string PolicyDecisionValue.deny = "deny"
decision_string PolicyDecisionValue.defer = "defer"
decision_string (PolicyDecisionValue.other s) = s

unfoldable pub execution_status_string : ExecutionStatus → String
execution_status_string ExecutionStatus.completed = "completed"
execution_status_string ExecutionStatus.error = "error"
execution_status_string ExecutionStatus.timeout = "timeout"
execution_status_string (ExecutionStatus.other s) = s
