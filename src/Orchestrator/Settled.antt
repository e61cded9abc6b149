-- ===== src/Orchestrator/Settled.antt =====
-- What `Process` leaves behind: a submission that has reached an end, on every path.
use scintx.Base.{
  String, Bool, true, false, Option, none, some, List, [], ◌∷◌, lookup, insert, lookup-insert,
  eq_iff, ◌≡◌, ◌⊎◌, inl, inr, refl, sym, subst, arith, Bool-cases,
}
use scintx.Api.{
  Artifact, Submission, SubmissionStatus, CompletionReason, PolicyDecision, PolicyDecisionValue,
  ProviderResult,
}
use scintx.Store.{clone, get_submission, put_submission}
use scintx.Store.Records.{put_result, put_merged_result, append_event, get_results_for_submission}
use scintx.Orchestrator.Events.{Gateway, Outside, emit}
use scintx.Orchestrator.Results.{SelectedProvider}
use scintx.Orchestrator.Process.{
  Orchestrator, Interrupts, ProcessError, interrupted_by, policy_failed, submission_not_found,
  submission_disappeared, blob_missing, Outcome, is_settled, Evaluated, evaluated,
  evaluation_failed, save, complete, fail, interrupt, fail_interrupted, assess_one, fan_out,
  try_aggregate, decide, settle, record_decision, conclude_with, evaluate_with, or_interrupted,
  has_policy, evaluate_results, run_providers, with_artifact, process_found, process,
}

-- The submission is stored under its id, and its status is so.
pub record Stands {S : Type 0} (id : String) (P : SubmissionStatus → Type 0) (g : Gateway S)
    : Type 0 where
  pub stored : Submission
  pub at : lookup id g.store.submissions ≡ some stored
  pub named : stored.id ≡ id
  pub status : P stored.status

-- How the error of Process fits the status that the submission ends in.
abbrev pub Fits : Option ProcessError → SubmissionStatus → Type 0
Fits none s = (s ≡ SubmissionStatus.completed) ⊎ (s ≡ SubmissionStatus.deferred)
Fits (some (interrupted_by cause)) s = is_settled s ≡ true
Fits (some (policy_failed message)) s = s ≡ SubmissionStatus.failed
Fits (some blob_missing) s = s ≡ SubmissionStatus.failed
Fits (some submission_not_found) s = ⊥
Fits (some submission_disappeared) s = ⊥

abbrev pub is_defer : PolicyDecisionValue → Bool
is_defer PolicyDecisionValue.defer = true
is_defer _ = false

abbrev pub settled_as : PolicyDecisionValue → SubmissionStatus
settled_as PolicyDecisionValue.defer = SubmissionStatus.deferred
settled_as _ = SubmissionStatus.completed

settled_as-Fits : (d : PolicyDecisionValue) (s : SubmissionStatus) → s ≡ settled_as d → Fits none s
settled_as-Fits PolicyDecisionValue.defer s h = inr h
settled_as-Fits PolicyDecisionValue.allow s h = inl h
settled_as-Fits _ s h = inl h

abbrev pub Ends : {S : Type 0} → String → Outcome S → Type 0
Ends id r = Stands id (Fits r.1) r.0

module _ {S : Type 0} (out : Outside) (id : String) where
  -- A submission that has just been put stands.
  put-Stands :
      (P : SubmissionStatus → Type 0) (sub : Submission) (g g' : Gateway S)
      → g'.store.submissions ≡ insert sub.id (clone sub) g.store.submissions
      → sub.id ≡ id
      → P sub.status
      → Stands id P g'
  unfolding clone
  put-Stands P sub g g' e n p = record {
    stored = clone sub;
    at =
        rw e (
          ground
            (arith, lookup-insert sub.id id (clone sub) g.store.submissions, eq_iff sub.id id));
    named = n;
    status = p;
  }

  moved-Stands :
      (P : SubmissionStatus → Type 0) (g g' : Gateway S)
      → g'.store.submissions ≡ g.store.submissions
      → Stands id P g
      → Stands id P g'
  moved-Stands P g g' e v = record {
    stored = v.stored;
    at = rw e v.at;
    named = v.named;
    status = v.status;
  }

  weaken-Stands :
      (P Q : SubmissionStatus → Type 0) (g : Gateway S)
      → ((s : SubmissionStatus) → P s → Q s)
      → Stands id P g
      → Stands id Q g
  weaken-Stands P Q g f v = record {
    stored = v.stored;
    at = v.at;
    named = v.named;
    status = f v.stored.status v.status;
  }

  complete-Stands :
      (sub : Submission) (reason : CompletionReason) (d : Option String) (g : Gateway S)
      → sub.id ≡ id
      → Stands id (λ s. s ≡ SubmissionStatus.completed) (complete out sub reason d g)
  unfolding complete emit append_event put_submission clone
  complete-Stands sub reason d g n =
      put-Stands _
        (record sub {
          status = SubmissionStatus.completed;
          completion_reason = some reason;
          completed_at = some (out.now g.draws);
          decision_id = _;
        })
        g _ refl n refl

  fail-Stands :
      (sub : Submission) (message : String) (g : Gateway S)
      → sub.id ≡ id
      → Stands id (λ s. s ≡ SubmissionStatus.failed) (fail out sub message g)
  unfolding fail emit append_event put_submission clone
  fail-Stands sub message g n =
      put-Stands _
        (record sub {
          status = SubmissionStatus.failed;
          completion_reason = some CompletionReason.failed;
          completed_at = some (out.now g.draws);
        })
        g _ refl n refl

  interrupt-Stands :
      (sub : Submission) (cause : String) (g : Gateway S)
      → sub.id ≡ id
      → Stands id (λ s. is_settled s ≡ true) (interrupt out sub cause g)
  unfolding interrupt emit append_event put_submission clone
  interrupt-Stands sub cause g n =
      put-Stands _
        (record sub {
          status = SubmissionStatus.failed;
          completion_reason = some CompletionReason.interrupted;
          completed_at = some (out.now g.draws);
        })
        g _ refl n refl

  fail_interrupted-Stands :
      (cause : String) (g : Gateway S)
      → Stands id (λ s. Unit {0}) g
      → Stands id (λ s. is_settled s ≡ true) (fail_interrupted out id cause g)
  unfolding clone
  fail_interrupted-Stands cause g v = elim (Bool-cases (is_settled v.stored.status)) [
    | inl h ↦
        let q : fail_interrupted out id cause g ≡ g =
          unfold fail_interrupted in rw (fail_interrupted, v.at, h) in
        subst (Stands id (λ s. is_settled s ≡ true)) (sym q)
          (record { stored = v.stored; at = v.at; named = v.named; status = h })
    | inr h ↦
        let q : fail_interrupted out id cause g ≡ interrupt out (clone v.stored) cause g =
          unfold fail_interrupted in rw (fail_interrupted, v.at, h) in
        subst (Stands id (λ s. is_settled s ≡ true)) (sym q)
          (interrupt-Stands (clone v.stored) cause g v.named)
  ]

  fan_out-submissions :
      (o : Orchestrator S) (sub : Submission) (artifact : Artifact)
      (sels : List (SelectedProvider S)) (g : Gateway S) (ids : List String)
      → (fan_out out o sub artifact sels (g, ids)).0.store.submissions ≡ g.store.submissions
  unfolding fan_out assess_one emit append_event put_result
  fan_out-submissions o sub artifact [] g ids = refl
  fan_out-submissions o sub artifact (sel ∷ sels) g ids =
      fan_out-submissions o sub artifact sels _ _

  try_aggregate-submissions :
      (o : Orchestrator S) (sub : Submission) (results : List (ProviderResult S)) (g : Gateway S)
      → (try_aggregate out o sub results g).0.store.submissions ≡ g.store.submissions
  unfolding try_aggregate put_merged_result
  try_aggregate-submissions o sub results g = ground arith

  settle-Stands :
      (o : Orchestrator S) (d : PolicyDecisionValue) (sub : Submission) (dec : PolicyDecision S)
      (g : Gateway S)
      → sub.id ≡ id
      → Stands id (λ s. s ≡ settled_as d) (settle out o d sub dec g)
  unfolding settle emit append_event put_submission clone
  settle-Stands o PolicyDecisionValue.defer sub dec g n =
      put-Stands _
        (record sub {
          status = SubmissionStatus.deferred;
          completion_reason = some CompletionReason.deferred;
          resume_at = _;
        })
        g _ refl n refl
  settle-Stands o PolicyDecisionValue.allow sub dec g n =
      complete-Stands sub CompletionReason.decision_produced (some dec.id) _ n
  settle-Stands o _ sub dec g n =
      complete-Stands sub CompletionReason.decision_produced (some dec.id) _ n

  conclude_with-Ends :
      (o : Orchestrator S) (sub : Submission) (e : Evaluated S) (g : Gateway S)
      → sub.id ≡ id
      → Ends id (conclude_with out o sub e g)
  unfolding record_decision
  conclude_with-Ends o sub (evaluated dec) g n =
      weaken-Stands _ _ _ (λ s h. settled_as-Fits dec.decision s h)
        (settle-Stands o dec.decision (record sub { decision_id = some dec.id }) dec _ n)
  conclude_with-Ends o sub (evaluation_failed message) g n = fail-Stands sub message g n

  evaluate_results-Ends :
      (o : Orchestrator S) (ids : List String) (g : Gateway S)
      → Stands id (λ s. Unit {0}) g
      → Ends id (evaluate_results out o id ids g)
  unfolding clone
  evaluate_results-Ends o ids g v =
      let sub : Submission = record (clone v.stored) { result_ids = ids } in
      let saved = save out sub g in
      let results = get_results_for_submission sub.id saved.store in
      let tried = try_aggregate out o sub results saved in
      elim (Bool-cases (has_policy out o sub.policy_ref)) [
        | inl h ↦
            let q : evaluate_results out o id ids g ≡ evaluate_with out o sub results tried =
              unfold evaluate_results in rw (evaluate_results, v.at, h) in
            subst (Ends id) (sym q)
              (conclude_with-Ends o sub (decide out o tried.0.draws sub results tried.1) _ v.named)
        | inr h ↦
            let q : evaluate_results out o id ids g
                ≡ (complete out sub CompletionReason.findings_only none saved, none) =
              unfold evaluate_results in rw (evaluate_results, v.at, h) in
            subst (Ends id) (sym q) (
              weaken-Stands _ _ _ (λ s p. inl p)
                (complete-Stands sub CompletionReason.findings_only none saved v.named))
      ]

  or_interrupted-Ends :
      (o : Orchestrator S) (stop : Option String) (g : Gateway S) (k : Outcome S)
      → Stands id (λ s. Unit {0}) g
      → Ends id k
      → Ends id (or_interrupted out o id stop g k)
  or_interrupted-Ends o none g k v e = e
  or_interrupted-Ends o (some cause) g k v e = fail_interrupted-Stands cause g v

  run_providers-Ends :
      (o : Orchestrator S) (stops : Interrupts) (sub : Submission) (artifact : Artifact)
      (sels : List (SelectedProvider S)) (g : Gateway S)
      → sub.id ≡ id
      → Stands id (λ s. Unit {0}) g
      → Ends id (run_providers out o stops id sub artifact sels g)
  unfolding run_providers
  run_providers-Ends o stops sub artifact [] g n v =
      or_interrupted-Ends o stops.before_complete g _ v (
        weaken-Stands _ _ _ (λ s p. inl p)
          (complete-Stands sub CompletionReason.all_providers_ineligible none g n))
  run_providers-Ends o stops sub artifact (sel ∷ sels) g n v =
      let after = fan_out out o sub artifact (o.schedule (sel ∷ sels)) (g, []) in
      let w =
        moved-Stands _ g after.0 (fan_out-submissions o sub artifact (o.schedule (sel ∷ sels)) g [])
          v in
      or_interrupted-Ends o stops.after_wait after.0 _ w (evaluate_results-Ends o after.1 after.0 w)

  with_artifact-Ends :
      (o : Orchestrator S) (stops : Interrupts) (sub : Submission) (artifact : Option Artifact)
      (g : Gateway S)
      → sub.id ≡ id
      → Stands id (λ s. Unit {0}) g
      → Ends id (with_artifact out o stops id sub artifact g)
  with_artifact-Ends o stops sub none g n v = fail-Stands sub _ g n
  with_artifact-Ends o stops sub (some artifact) g n v =
      run_providers-Ends o stops sub artifact _ g n v

  process_found-Ends :
      (o : Orchestrator S) (stops : Interrupts) (sub : Submission) (g : Gateway S)
      → sub.id ≡ id
      → Ends id (process_found out o stops id sub g)
  unfolding process_found emit append_event put_submission clone
  process_found-Ends o stops sub g n =
      with_artifact-Ends o stops (record sub { status = SubmissionStatus.running }) _ _ n
        (put-Stands _ (record sub { status = SubmissionStatus.running }) g _ refl n tt)

module _ {S : Type 0} (out : Outside) (o : Orchestrator S) where
  -- Whatever the providers, the cache, the policy and the aggregator answer, in whatever order the
  -- providers finish and wherever the context is cancelled, a stored submission has reached an end
  -- when `Process` returns, and the error fits it: without an error it is completed or deferred,
  -- after an error of the policy or for a missing blob it is failed, and after an interruption it
  -- is one of these three. It is never left running, and it never disappears.
  pub process-Ends :
      (stops : Interrupts) (id : String) (sub : Submission) (g : Gateway S)
      → lookup id g.store.submissions ≡ some sub
      → sub.id ≡ id
      → Ends id (process out o stops id g)
  unfolding process clone
  process-Ends stops id sub g at n =
      let here : Stands id (λ s. Unit {0}) g = record {
        stored = sub;
        at = at;
        named = n;
        status = tt;
      } in
      or_interrupted-Ends out id o stops.at_start g _ here
        (rw (get_submission, at) (process_found-Ends out id o stops (clone sub) g n))
