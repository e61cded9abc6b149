-- ===== src/Orchestrator/Process.antt =====
-- `Process`, `complete`, `failInterrupted`, `MarkForResume` and `UnmarkResume`, over the in-memory
-- store, whose methods report no failure. The goroutines of the fan-out run in any order, which
-- `schedule` chooses; each is one step, so only the order of the events is less free than it is.
use scintx.Base.{
  ℕ, suc, String, ◌^^◌, Bool, true, false, not, Option, none, some, List, [], ◌∷◌, ◌++◌, ◌==◌,
  if◌then◌else◌,
}
use scintx.Api.{
  Time, Duration, Json, Fields, Artifact, ResourceReference, Submission, SubmissionStatus,
  CompletionReason, ProviderResult, MergedResult, PolicyDecision, PolicyDecisionValue,
}
use scintx.Store.{MemoryStore, put_submission, get_submission, claim_resume, release_resume}
use scintx.Store.Records.{put_result, put_merged_result, put_decision, get_results_for_submission}
use scintx.Orchestrator.Events.{
  Gateway, Outside, emit, text_field, submission_status_string, completion_reason_string,
  decision_string, execution_status_string,
}
use scintx.Orchestrator.Results.{
  Provider, SelectedProvider, CacheGet, local_blob_digest, hydrate_local_blob, canonical_artifact,
  select, result_cache_key, materialize_cached_result, or_failed, is_hit, event_type,
}

-- What Evaluate and EvaluateMerged return.
pub data Evaluated (S : Type 0) : Type 0 where
  evaluated : PolicyDecision S → Evaluated S
  evaluation_failed : String → Evaluated S

-- api.PolicyEngine, with EvaluateMerged if it is merge-aware; the numbers tell calls apart.
pub record PolicyEngine (S : Type 0) : Type 0 where
  pub evaluate : ℕ → Submission → List (ProviderResult S) → Evaluated S
  pub evaluate_merged :
      Option (ℕ → Submission → List (ProviderResult S) → MergedResult S → Evaluated S)

-- Orchestrator; an aggregator may report an error, which is `none`.
pub record Orchestrator (S : Type 0) : Type 0 where
  pub providers : List (Provider S)
  pub policy : PolicyEngine S
  pub cache_get : CacheGet S
  pub cache_ttl : Duration
  pub aggregator : Option (ℕ → List (ProviderResult S) → Option (MergedResult S))
  pub hash : String → String
  pub adj_forward : List String
  pub schedule : List (SelectedProvider S) → List (SelectedProvider S)

-- The error of the context at its three readings in Process, if it is done by then.
pub record Interrupts : Type 0 where
  pub at_start : Option String
  pub before_complete : Option String
  pub after_wait : Option String

pub data ProcessError : Type 0 where
  interrupted_by policy_failed : String → ProcessError
  submission_not_found submission_disappeared blob_missing : ProcessError

abbrev pub Outcome : Type 0 → Type 0
Outcome S = Gateway S × Option ProcessError

abbrev pub is_settled : SubmissionStatus → Bool
is_settled SubmissionStatus.completed = true
is_settled SubmissionStatus.failed = true
is_settled SubmissionStatus.deferred = true
is_settled _ = false

abbrev merged_id : Option String → Option String → Option String
merged_id none old = old
merged_id (some d) old = some d

abbrev decision_field : Option String → Fields
decision_field none = Fields.end
decision_field (some d) = text_field "decision_id" d Fields.end

abbrev missing_digest : Option String → String
missing_digest none = ""
missing_digest (some digest) = digest

-- The error of hydrateLocalBlob.
abbrev missing_message : Option ResourceReference → String
missing_message none = ""
missing_message (some ref) =
    "local blob " ^^ (missing_digest (local_blob_digest ref.uri) ^^ " is missing from the store")

module _ {S : Type 0} (out : Outside) where
  abbrev pub save : Submission → Gateway S → Gateway S
  save sub g = record g { store = put_submission (some sub) g.store }

  -- complete
  unfoldable pub complete : Submission → CompletionReason → Option String → Gateway S → Gateway S
  unfolding emit put_submission completion_reason_string
  complete sub reason decision_id g =
      let done : Submission = record sub {
        status = SubmissionStatus.completed;
        completion_reason = some reason;
        completed_at = some (out.now g.draws);
        decision_id = merged_id decision_id sub.decision_id;
      } in
      emit out "org.eclipse.scintx.submission.completed.v1" sub.id
        (text_field "submission_id" sub.id (
          text_field "completion_reason" (completion_reason_string reason)
            (decision_field decision_id)))
        (save done (record g { draws = suc g.draws }))

  -- The failure of a submission whose blob is missing or whose policy reports an error.
  unfoldable pub fail : Submission → String → Gateway S → Gateway S
  unfolding emit put_submission
  fail sub message g =
      let failed : Submission = record sub {
        status = SubmissionStatus.failed;
        completion_reason = some CompletionReason.failed;
        completed_at = some (out.now g.draws);
      } in
      emit out "org.eclipse.scintx.submission.failed.v1" sub.id
        (text_field "submission_id" sub.id (text_field "error" message Fields.end))
        (save failed (record g { draws = suc g.draws }))

  -- The end of failInterrupted, for a submission that no other path has ended.
  unfoldable pub interrupt : Submission → String → Gateway S → Gateway S
  unfolding emit put_submission completion_reason_string
  interrupt sub cause g =
      let failed : Submission = record sub {
        status = SubmissionStatus.failed;
        completion_reason = some CompletionReason.interrupted;
        completed_at = some (out.now g.draws);
      } in
      emit out "org.eclipse.scintx.submission.failed.v1" sub.id
        (text_field "submission_id" sub.id (
          text_field "error" cause (
            text_field "completion_reason" (completion_reason_string CompletionReason.interrupted)
              Fields.end)))
        (save failed (record g { draws = suc g.draws }))

  -- failInterrupted
  unfoldable pub fail_interrupted : String → String → Gateway S → Gateway S
  unfolding interrupt get_submission
  fail_interrupted sub_id cause g = elim (get_submission sub_id g.store) [
    | none ↦ g
    | some sub ↦ if is_settled sub.status then g else interrupt sub cause g
  ]

  module _ (o : Orchestrator S) where
    -- The result of one selected provider: from the cache, or by Assess.
    unfoldable pub obtain : SelectedProvider S → Submission → Artifact → ℕ → ProviderResult S
    unfolding result_cache_key materialize_cached_result or_failed
    obtain sel sub artifact n =
        elim (o.cache_get n (result_cache_key o.hash sel.impl.id sel.capability.id artifact)) [
          | some cached ↦
              materialize_cached_result (out.random_hex n) (out.now n) cached sub.id o.cache_ttl
          | none ↦
              record (or_failed (out.random_hex n) (out.now n)
                (sel.impl.assess n artifact sel.capability)) { submission_id = sub.id }
        ]

    -- One goroutine of the fan-out, with the ids that have been appended so far. What it puts into
    -- the cache shows in what `cache_get` answers later, and nowhere in the gateway.
    unfoldable pub assess_one :
        Submission
        → Artifact
        → SelectedProvider S
        → Gateway S × List String
        → Gateway S × List String
    unfolding emit obtain put_result execution_status_string
    assess_one sub artifact sel (g, ids) =
        let begun =
          emit out "org.eclipse.scintx.provider.invocation.started.v1" sub.id
            (text_field "submission_id" sub.id (
              text_field "provider_id" sel.impl.id
                (text_field "capability" sel.capability.id Fields.end)))
            g in
        let res = obtain sel sub artifact begun.draws in
        let stored : Gateway S = record begun {
          store = put_result (some res) begun.store;
          draws = suc begun.draws;
        } in
        (
          emit out (event_type res.execution.status) sub.id
              (text_field "submission_id" sub.id (
                text_field "result_id" res.id (
                  text_field "provider_id" sel.impl.id (
                    text_field "execution_status" (execution_status_string res.execution.status)
                      (Fields.field "cache_hit" (Json.boolean (is_hit res.cache)) Fields.end)))))
              stored,
          ids ++ res.id ∷ [],
        )

    unfoldable pub fan_out :
        Submission
        → Artifact
        → List (SelectedProvider S)
        → Gateway S × List String
        → Gateway S × List String
    unfolding assess_one
    fan_out sub artifact [] acc = acc
    fan_out sub artifact (sel ∷ sels) acc =
        fan_out sub artifact sels (assess_one sub artifact sel acc)

    -- The optional aggregation; a failure leaves no merged result.
    unfoldable pub try_aggregate :
        Submission → List (ProviderResult S) → Gateway S → Gateway S × Option (MergedResult S)
    unfolding put_merged_result
    try_aggregate sub results g = elim o.aggregator [
      | none ↦ (g, none)
      | some aggregate ↦ elim (aggregate g.draws results) [
        | none ↦ (record g { draws = suc g.draws }, none)
        | some m ↦
            let own : MergedResult S = record m { submission_id = sub.id } in
            (
              record g { store = put_merged_result (some own) g.store; draws = suc g.draws },
              some own,
            )
      ]
    ]

    -- EvaluateMerged where there is a merged result and the engine is merge-aware, else Evaluate.
    unfoldable pub decide :
        ℕ → Submission → List (ProviderResult S) → Option (MergedResult S) → Evaluated S
    decide n sub results none = o.policy.evaluate n sub results
    decide n sub results (some m) = elim o.policy.evaluate_merged [
      | none ↦ o.policy.evaluate n sub results
      | some evaluate_merged ↦ evaluate_merged n sub results m
    ]

    abbrev resume_time : Option Time → Option Time → Option Time
    resume_time none old = old
    resume_time (some t) old = some t

    abbrev decision_payload : Submission → PolicyDecision S → Fields
    decision_payload sub dec = text_field "submission_id" sub.id (
        text_field "decision_id" dec.id
          (text_field "decision" (decision_string dec.decision) Fields.end))

    -- A deferral, with the decision stored and linked, or the end of the submission.
    unfoldable pub settle :
        PolicyDecisionValue → Submission → PolicyDecision S → Gateway S → Gateway S
    unfolding complete emit put_submission decision_string
    settle PolicyDecisionValue.defer sub dec g =
        let waiting : Submission = record sub {
          status = SubmissionStatus.deferred;
          completion_reason = some CompletionReason.deferred;
          resume_at = resume_time dec.resume_at sub.resume_at;
        } in
        emit out "org.eclipse.scintx.submission.deferred.v1" sub.id (decision_payload sub dec)
          (save waiting g)
    settle _ sub dec g = complete sub CompletionReason.decision_produced (some dec.id) (
        emit out "org.eclipse.scintx.policy-decision.created.v1" sub.id (decision_payload sub dec)
          g)

    -- From the decision on.
    unfoldable pub record_decision : Submission → PolicyDecision S → Gateway S → Gateway S
    unfolding settle put_decision
    record_decision sub dec g =
        settle dec.decision (record sub { decision_id = some dec.id }) dec
          (record g { store = put_decision (some dec) g.store })

    abbrev pub conclude_with : Submission → Evaluated S → Gateway S → Outcome S
    conclude_with sub (evaluated dec) g = (record_decision sub dec g, none)
    conclude_with sub (evaluation_failed message) g =
        (fail sub message g, some (policy_failed message))

    abbrev pub has_policy : Option String → Bool
    has_policy none = false
    has_policy (some ref) = not (ref == "")

    abbrev pub evaluate_with :
        Submission → List (ProviderResult S) → Gateway S × Option (MergedResult S) → Outcome S
    evaluate_with sub results (g, merged) =
        conclude_with sub (decide g.draws sub results merged) (record g { draws = suc g.draws })

    -- From the second GetSubmission on.
    unfoldable pub evaluate_results : String → List String → Gateway S → Outcome S
    unfolding complete fail record_decision decide try_aggregate get_submission put_submission
        get_results_for_submission
    evaluate_results sub_id result_ids g = elim (get_submission sub_id g.store) [
      | none ↦ (g, some submission_disappeared)
      | some found ↦
          let sub : Submission = record found { result_ids = result_ids } in
          let saved = save sub g in
          let results = get_results_for_submission sub.id saved.store in
          if not (has_policy sub.policy_ref)
          then (complete sub CompletionReason.findings_only none saved, none)
          else evaluate_with sub results (try_aggregate sub results saved)
    ]

    abbrev pub or_interrupted : String → Option String → Gateway S → Outcome S → Outcome S
    or_interrupted sub_id none g k = k
    or_interrupted sub_id (some cause) g k =
        (fail_interrupted sub_id cause g, some (interrupted_by cause))

    -- From the selection of the providers on.
    unfoldable pub run_providers :
        Interrupts
        → String
        → Submission
        → Artifact
        → List (SelectedProvider S)
        → Gateway S
        → Outcome S
    unfolding complete fail_interrupted fan_out evaluate_results
    run_providers stops sub_id sub artifact [] g =
        or_interrupted sub_id stops.before_complete g
          (complete sub CompletionReason.all_providers_ineligible none g, none)
    run_providers stops sub_id sub artifact (sel ∷ sels) g =
        let (done, ids) = fan_out sub artifact (o.schedule (sel ∷ sels)) (g, []) in
        or_interrupted sub_id stops.after_wait done (evaluate_results sub_id ids done)

    abbrev pub with_artifact :
        Interrupts → String → Submission → Option Artifact → Gateway S → Outcome S
    with_artifact stops sub_id sub none g =
        (fail sub (missing_message sub.artifact.content_ref) g, some blob_missing)
    with_artifact stops sub_id sub (some artifact) g =
        run_providers stops sub_id sub artifact
          (select o.providers artifact sub.requested_capabilities) g

    -- From the first PutSubmission on.
    unfoldable pub process_found : Interrupts → String → Submission → Gateway S → Outcome S
    unfolding run_providers fail emit put_submission submission_status_string hydrate_local_blob
        canonical_artifact select
    process_found stops sub_id found g =
        let sub : Submission = record found { status = SubmissionStatus.running } in
        let begun =
          emit out "org.eclipse.scintx.submission.created.v1" sub.id
            (text_field "submission_id" sub.id
              (text_field "status" (submission_status_string sub.status) Fields.end))
            (save sub g) in
        with_artifact stops sub_id sub
          (hydrate_local_blob (canonical_artifact sub.artifact) begun.store) begun

    -- Process
    unfoldable pub process : Interrupts → String → Gateway S → Outcome S
    unfolding process_found fail_interrupted get_submission
    process stops sub_id g =
        or_interrupted sub_id stops.at_start g (elim (get_submission sub_id g.store) [
          | none ↦ (g, some submission_not_found)
          | some found ↦ process_found stops sub_id found g
        ])

-- What MarkForResume returns as its error.
pub data MarkError : Type 0 where
  not_found : MarkError
  not_deferred : SubmissionStatus → MarkError

abbrev pub mark_error : Option Submission → MarkError
mark_error none = not_found
mark_error (some sub) = not_deferred sub.status

module _ {S : Type 0} where
  abbrev pub marked :
      String → Gateway S → MemoryStore S × Option Submission → Gateway S × Option MarkError
  marked sub_id g (store, some sub) = (record g { store = store }, none)
  marked sub_id g (store, none) =
      (record g { store = store }, some (mark_error (get_submission sub_id store)))

  -- MarkForResume
  unfoldable pub mark_for_resume : String → Gateway S → Gateway S × Option MarkError
  unfolding claim_resume get_submission
  mark_for_resume sub_id g = marked sub_id g (claim_resume sub_id g.store)

  -- UnmarkResume
  unfoldable pub unmark_resume : String → Gateway S → Gateway S
  unfolding release_resume
  unmark_resume sub_id g = record g { store = release_resume sub_id g.store }
