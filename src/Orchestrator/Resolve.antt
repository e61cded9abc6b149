-- ===== src/Orchestrator/Resolve.antt =====
-- `Adjudicate` of internal/scintx/orchestrator.go: a final resolution that a consumer shares.
-- The text of a time, time.Format with RFC3339Nano, is an argument.
use scintx.Base.{
  ℕ, suc, String, ◌^^◌, Bool, true, false, not, ◌||◌, Option, none, some, List, [], ◌∷◌, ◌==◌,
  if◌then◌else◌,
}
use scintx.Api.{
  Time, Fields, Submission, SubmissionStatus, PolicyDecision, PolicyDecisionValue,
  AdjudicateRequest,
}
use scintx.Store.{get_submission, put_submission}
use scintx.Store.Records.{get_decision, put_decision}
use scintx.Orchestrator.Events.{Gateway, Outside, emit, text_field, decision_string}
use scintx.Orchestrator.Forward.{AdjudicationFeedback, forward_adjudication}
use scintx.Orchestrator.Process.{Orchestrator, save}

-- ErrAdjudicateInvalidDecision, ErrAdjudicateNotFound, and the three uses of
-- ErrAdjudicateInvalidState
pub data AdjudicateError : Type 0 where
  invalid_decision not_found : AdjudicateError
  invalid_status : SubmissionStatus → AdjudicateError
  no_prior_decision prior_decision_missing : AdjudicateError

-- What Adjudicate returns, with the calls that forward the resolution.
pub data Adjudicated (S : Type 0) : Type 0 where
  rejected : AdjudicateError → Adjudicated S
  recorded : PolicyDecision S → List (String × AdjudicationFeedback) → Adjudicated S

-- The test on the decision that is shared.
abbrev pub is_final : PolicyDecisionValue → Bool
is_final PolicyDecisionValue.allow = true
is_final PolicyDecisionValue.deny = true
is_final _ = false

abbrev pub is_completed : SubmissionStatus → Bool
is_completed SubmissionStatus.completed = true
is_completed _ = false

abbrev pub has_field : String → Fields → Bool
has_field k Fields.end = false
has_field k (Fields.field j v rest) = j == k || has_field k rest

abbrev text_unless_empty : String → String → Fields → Fields
text_unless_empty k v rest = if v == "" then rest else text_field k v rest

-- The loop over the request's extensions, which never replaces a field that is set.
unfoldable pub add_fields : Fields → Fields → Fields
add_fields ext Fields.end = ext
add_fields ext (Fields.field k v rest) =
    add_fields (if has_field k ext then ext else Fields.field k v ext) rest

abbrev expiry : (Time → String) → Option Time → Fields → Fields
expiry format_time none rest = rest
expiry format_time (some t) rest = text_field "expires_at" (format_time t) rest

-- firstResultID, with "none" for the empty id
unfoldable pub first_result_id : List String → String
first_result_id [] = "none"
first_result_id (id ∷ ids) = if id == "" then "none" else id

-- adjudicationMessage
unfoldable pub adjudication_message : AdjudicateRequest → String
unfolding decision_string
adjudication_message req =
    if not (req.rationale == "")
    then req.rationale
    else if not (req.source == "")
    then "Consumer resolution from " ^^ (req.source ^^ (": " ^^ decision_string req.decision))
    else "Consumer shared final resolution: " ^^ decision_string req.decision

module _ {S : Type 0} (out : Outside) (format_time : Time → String) where
  unfoldable pub adjudication_extensions : AdjudicateRequest → PolicyDecision S → Fields
  unfolding decision_string add_fields
  adjudication_extensions req prior =
      add_fields
        (expiry format_time req.expires_at (
          text_unless_empty "source" req.source (
            text_unless_empty "rationale" req.rationale (
              text_unless_empty "actor" req.actor (
                text_field "prior_decision" (decision_string prior.decision) (
                  text_field "prior_decision_id" prior.id
                    (text_field "origin" "consumer" Fields.end)))))))
        req.extensions

  -- The decision that Adjudicate makes of the request.
  unfoldable pub adjudicated_decision :
      ℕ → Submission → AdjudicateRequest → PolicyDecision S → PolicyDecision S
  unfolding first_result_id adjudication_message adjudication_extensions
  adjudicated_decision n sub req prior = record {
    id = "dec_" ^^ out.random_hex n;
    submission_id = sub.id;
    decision = req.decision;
    policy = prior.policy;
    evaluated_at = out.now n;
    input_result_ids = prior.input_result_ids;
    reasons =
        (record {
          code = "consumer_adjudication";
          result_id = first_result_id prior.input_result_ids;
          finding_id = "";
          severity_ref = none;
          message = adjudication_message req;
        })
        ∷ [];
    resume_at = none;
    resume_on = "";
    extensions = adjudication_extensions req prior;
  }

  module _ (o : Orchestrator S) where
    -- From the new decision on.
    unfoldable pub record_resolution :
        Submission → AdjudicateRequest → PolicyDecision S → Gateway S → Gateway S × Adjudicated S
    unfolding adjudicated_decision put_decision put_submission emit decision_string
        forward_adjudication
    record_resolution sub req prior g =
        let dec = adjudicated_decision g.draws sub req prior in
        let linked : Submission = record sub { decision_id = some dec.id } in
        let stored : Gateway S = record g {
          store = put_decision (some dec) g.store;
          draws = suc g.draws;
        } in
        (
          emit out "org.eclipse.scintx.policy-decision.resolved.v1" sub.id
              (text_field "submission_id" sub.id (
                text_field "decision_id" dec.id (
                  text_field "decision" (decision_string dec.decision) (
                    text_field "prior_decision_id" prior.id (
                      text_field "prior_decision" (decision_string prior.decision) (
                        text_field "source" req.source
                          (text_field "actor" req.actor Fields.end)))))))
              (save out linked stored),
          recorded dec (forward_adjudication o.adj_forward o.providers linked dec.decision),
        )

    unfoldable pub adjudicate_prior :
        Submission → AdjudicateRequest → Option String → Gateway S → Gateway S × Adjudicated S
    unfolding record_resolution get_decision
    adjudicate_prior sub req none g = (g, rejected no_prior_decision)
    adjudicate_prior sub req (some id) g =
        if id == "" then (g, rejected no_prior_decision) else elim (get_decision id g.store) [
          | none ↦ (g, rejected prior_decision_missing)
          | some prior ↦ record_resolution sub req prior g
        ]

    -- Adjudicate
    unfoldable pub adjudicate : String → AdjudicateRequest → Gateway S → Gateway S × Adjudicated S
    unfolding adjudicate_prior get_submission
    adjudicate sub_id req g =
        if is_final req.decision
        then elim (get_submission sub_id g.store) [
          | none ↦ (g, rejected not_found)
          | some sub ↦
              if is_completed sub.status
              then adjudicate_prior sub req sub.decision_id g
              else (g, rejected (invalid_status sub.status))
        ]
        else (g, rejected invalid_decision)
