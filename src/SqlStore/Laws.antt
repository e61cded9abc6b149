-- ===== src/SqlStore/Laws.antt =====
-- What internal/store/sql_ops.go relies on in encoding/json: a value that is written is read back,
-- a submission without the bytes of its artifact's content, which are not serialised.
use scintx.Base.{some, ◌≡◌}
use scintx.Api.{
  Submission, ProviderResult, MergedResult, PolicyDecision, CloudEvent, ProviderCapabilities,
}
use scintx.Store.{clone}
use scintx.SqlStore.{Codecs}

pub record Faithful {S B : Type 0} (json : Codecs S B) : Type 0 where
  pub submission :
      (s : Submission) → json.submission.decode (json.submission.encode s) ≡ some (clone s)
  pub not_serialised :
      (s : Submission) → json.submission.encode (clone s) ≡ json.submission.encode s
  pub result : (r : ProviderResult S) → json.result.decode (json.result.encode r) ≡ some r
  pub merged_result :
      (r : MergedResult S) → json.merged_result.decode (json.merged_result.encode r) ≡ some r
  pub decision : (d : PolicyDecision S) → json.decision.decode (json.decision.encode d) ≡ some d
  pub event : (e : CloudEvent) → json.event.decode (json.event.encode e) ≡ some e
  pub capabilities :
      (c : ProviderCapabilities) → json.capabilities.decode (json.capabilities.encode c) ≡ some c
