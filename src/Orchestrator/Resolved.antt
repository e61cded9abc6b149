-- ===== src/Orchestrator/Resolved.antt =====
-- What `Adjudicate` of internal/scintx/orchestrator.go leaves behind.
use scintx.Base.{
  Map, String, ◌^^◌, true, false, none, some, lookup, insert, lookup-insert, ◌==◌, eq_iff, ◌≡◌,
  refl, sym, subst, arith,
}
use scintx.Api.{Time, Submission, SubmissionStatus, PolicyDecision, AdjudicateRequest}
use scintx.Store.{clone, get_submission, put_submission}
use scintx.Store.Records.{get_decision, put_decision, append_event}
use scintx.Orchestrator.Events.{Gateway, Outside, emit}
use scintx.Orchestrator.Process.{Orchestrator}
use scintx.Orchestrator.Resolve.{
  Adjudicated, rejected, recorded, is_final, adjudicated_decision, record_resolution,
  adjudicate_prior, adjudicate,
}

-- The request is allow or deny, and the submission is stored, completed and has a stored decision.
pub record Resolvable {S : Type 0} (id : String) (req : AdjudicateRequest) (g : Gateway S)
    : Type 0 where
  pub final : is_final req.decision ≡ true
  pub sub : Submission
  pub at : lookup id g.store.submissions ≡ some sub
  pub named : sub.id ≡ id
  pub completed : sub.status ≡ SubmissionStatus.completed
  pub prior_id : String
  pub linked : sub.decision_id ≡ some prior_id
  pub nonempty : (prior_id == "") ≡ false
  pub prior : PolicyDecision S
  pub prior_at : lookup prior_id g.store.decisions ≡ some prior

-- The new decision says what the request says, about the results of the prior one; it is stored,
-- the submission points at it and stays completed, and every earlier decision is as it was.
pub record Resolves {S : Type 0} (id : String) (req : AdjudicateRequest) (prior : PolicyDecision S)
    (g : Gateway S) (dec : PolicyDecision S) (g' : Gateway S) : Type 0 where
  pub says : dec.decision ≡ req.decision
  pub results : dec.input_result_ids ≡ prior.input_result_ids
  pub policy : dec.policy ≡ prior.policy
  pub stored : lookup dec.id g'.store.decisions ≡ some dec
  pub kept :
      (j : String) (d : PolicyDecision S)
      → lookup j g.store.decisions ≡ some d
      → lookup j g'.store.decisions ≡ some d
  pub sub : Submission
  pub at : lookup id g'.store.submissions ≡ some sub
  pub completed : sub.status ≡ SubmissionStatus.completed
  pub points : sub.decision_id ≡ some dec.id

-- What it is for Adjudicate to have done that.
abbrev pub Done :
    {S : Type 0}
    → String
    → AdjudicateRequest
    → PolicyDecision S
    → Gateway S
    → Gateway S × Adjudicated S
    → Type 0
Done id req prior g (g', rejected e) = ⊥
Done id req prior g (g', recorded dec calls) = Resolves id req prior g dec g'

kept_lem :
    {S : Type 0} (new : String) (dec : PolicyDecision S) (m : Map (PolicyDecision S))
    → lookup new m ≡ none
    → (j : String) (d : PolicyDecision S) → lookup j m ≡ some d
    → lookup j (insert new dec m) ≡ some d
kept_lem new dec m fresh j d h = ground (arith, lookup-insert new j dec m, eq_iff new j)

module _ {S : Type 0} (out : Outside) (format_time : Time → String) (o : Orchestrator S) where
  record_resolution-Done :
      (id : String) (req : AdjudicateRequest) (sub : Submission) (prior : PolicyDecision S)
      (g : Gateway S)
      → lookup ("dec_" ^^ out.random_hex g.draws) g.store.decisions ≡ none
      → sub.id ≡ id
      → sub.status ≡ SubmissionStatus.completed
      → Done id req prior g (record_resolution out format_time o sub req prior g)
  unfolding record_resolution adjudicated_decision put_decision put_submission emit append_event
      clone
  record_resolution-Done id req sub prior g fresh n c =
      let dec = adjudicated_decision out format_time g.draws sub req prior in
      record {
        says = refl;
        results = refl;
        policy = refl;
        stored =
            ground (arith, lookup-insert dec.id dec.id dec g.store.decisions, eq_iff dec.id dec.id);
        kept = kept_lem dec.id dec g.store.decisions fresh;
        sub = clone (record sub { decision_id = some dec.id });
        at = ground (
          arith,
          lookup-insert sub.id id (clone (record sub { decision_id = some dec.id }))
              g.store.submissions,
          eq_iff sub.id id,
        );
        completed = c;
        points = refl;
      }

  -- A final allow or deny about a submission that is completed with a stored decision, where the
  -- random id of the new decision is not in use, is always recorded: the new decision takes the
  -- value from the request and the policy and the results from the prior one, it is stored, the
  -- submission stays completed and points at it, and every earlier decision is kept unchanged.
  pub adjudicate-Done :
      (id : String) (req : AdjudicateRequest) (g : Gateway S) (r : Resolvable id req g)
      → lookup ("dec_" ^^ out.random_hex g.draws) g.store.decisions ≡ none
      → Done id req r.prior g (adjudicate out format_time o id req g)
  unfolding clone
  adjudicate-Done id req g r fresh =
      let q : adjudicate out format_time o id req g
          ≡ record_resolution out format_time o (clone r.sub) req r.prior g =
        unfold adjudicate in
        unfold adjudicate_prior in
        unfold get_submission in
        unfold get_decision in rw (r.final, r.at, r.completed, r.linked, r.nonempty, r.prior_at) in
      subst (Done id req r.prior g) (sym q)
        (record_resolution-Done id req (clone r.sub) r.prior g fresh r.named r.completed)
