-- ===== src/QueuePool/Finishes.antt =====
-- What a claimed job of internal/workers/queue.go comes to.
use scintx.Base.{
  false, ℕ, String, true, not, ◌&&◌, Option, none, some, lookup, lookup-insert, lookup-delete, ◌==◌,
  eq_iff, ◌≡◌, ◌≢◌, ◌⊎◌, inl, inr, refl, sym, subst, ltb, arith, Bool-cases, Option-cases,
}
use scintx.Api.{Time, Submission, SubmissionStatus, CompletionReason}
use scintx.Jobs.{Jobs, MemJob, is_leased, complete_job}
use scintx.Store.{clone, get_submission, put_submission}
use scintx.Orchestrator.Events.{Gateway, Outside}
use scintx.Orchestrator.Process.{
  Orchestrator, Interrupts, ProcessError, interrupted_by, policy_failed, submission_not_found,
  submission_disappeared, blob_missing, is_settled, process,
}
use scintx.Orchestrator.Settled.{Stands, Fits, process-Ends}
use scintx.QueuePool.{
  QueuePool, is_final, end_job, fail_attempts, Ended, returned, panicked, run_found, run_claimed,
}

-- The job is gone, or another worker has leased it since.
abbrev pub Released : String → String → Jobs → Type 0
Released owner id jobs =
    (lookup id jobs ≡ none)
    ⊎ ((j : MemJob) × (lookup id jobs ≡ some j)
        × (is_leased j.status ≡ true)
        × (j.lease_owner ≢ owner))

complete_job-Released :
    (id owner : String) (jobs : Jobs) → Released owner id (complete_job id owner jobs).0
unfolding complete_job
complete_job-Released id owner jobs = elim (Option-cases (lookup id jobs)) [
  | inl e ↦ rw (complete_job, e) (inl e)
  | inr (j, e) ↦
      elim (Bool-cases (is_leased j.status && not (j.lease_owner == owner) && not (owner == ""))) [
        | inl h ↦
            rw (complete_job, e, h)
              (inr (j, e, ground arith, ground (arith, eq_iff j.lease_owner owner)))
        | inr h ↦
            rw (complete_job, e, h) (inl (ground (arith, lookup-delete id id jobs, eq_iff id id)))
      ]
]

settled_lem : (e : Option ProcessError) (s : SubmissionStatus) → Fits e s → is_settled s ≡ true
settled_lem none s f = ground arith
settled_lem (some (interrupted_by cause)) s f = f
settled_lem (some (policy_failed message)) s f = ground arith
settled_lem (some blob_missing) s f = ground arith
settled_lem (some submission_not_found) s f = absurd f
settled_lem (some submission_disappeared) s f = absurd f

module _ {S : Type 0} (id owner : String) where
  -- The submission has reached an end, and the worker has let go of the job.
  abbrev pub Finished : (SubmissionStatus → Type 0) → Gateway S → Type 0
  Finished P g = Stands id P g × Released owner id g.store.jobs

  end_job-Finished :
      (P : SubmissionStatus → Type 0) (g g' : Gateway S)
      → g'.store.submissions ≡ g.store.submissions
      → Stands id P g
      → Finished P (end_job id owner g')
  end_job-Finished P g g' e v = (
    record { stored = v.stored; at = rw e v.at; named = v.named; status = v.status },
    complete_job-Released id owner g'.store.jobs,
  )

-- Process, which panics where `crash` says so, and leaves the state that it says.
abbrev pub process_or_panic :
    {S : Type 0}
    → Outside
    → Orchestrator S
    → Interrupts
    → (Gateway S → Option (Gateway S))
    → String
    → Gateway S
    → Ended S
process_or_panic out o stops crash id g = ended (crash g) (process out o stops id g).0
  where
    ended : {S : Type 0} → Option (Gateway S) → Gateway S → Ended S
    ended none g = returned g
    ended (some g) after = panicked g

module _ {S : Type 0} (out : Outside) (o : Orchestrator S) (stops : Interrupts)
    (crash : Gateway S → Option (Gateway S)) (now : Time) (meanwhile : Gateway S → Gateway S)
    (p : QueuePool) where
  abbrev pub processing : String → Gateway S → Ended S
  processing id g = process_or_panic out o stops crash id g

  -- The others keep the end that a submission has reached.
  abbrev pub Keeps : String → Type 0
  Keeps id =
      (g : Gateway S)
      → Stands id (λ s. is_settled s ≡ true) g
      → Stands id (λ s. is_settled s ≡ true) (meanwhile g)

  -- What becomes of a claimed job: it is finished, or its call panicked, in an attempt within
  -- the limit, and then the worker changes neither the job nor the submission.
  abbrev pub Handled : String → String → ℕ → Gateway S → Gateway S → Type 0
  Handled owner id attempts g g' =
      Finished id owner (λ s. is_settled s ≡ true) g'
      ⊎ ((left : Gateway S) × (crash g ≡ some left)
          × (ltb p.cfg.max_attempts attempts ≡ false)
          × (g' ≡ meanwhile left))

  run_found-Handled :
      (owner id : String) (attempts : ℕ) (sub : Submission) (g : Gateway S)
      → Keeps id
      → lookup id g.store.submissions ≡ some sub
      → sub.id ≡ id
      → Handled owner id attempts g
          (run_found now processing meanwhile p owner id attempts g (some (clone sub)))
  unfolding put_submission clone
  run_found-Handled owner id attempts sub g keeps at n = elim (Bool-cases (is_final sub.status)) [
    | inl h ↦ rw h (
        inl (
          end_job-Finished id owner _ g g refl
            (record { stored = sub; at = at; named = n; status = ground arith })))
    | inr h ↦ elim (Bool-cases (ltb p.cfg.max_attempts attempts)) [
      | inl m ↦
          rw (h, m)
            (inl (
              end_job-Finished id owner _ (fail_attempts now (clone sub) g) _ refl (record {
                stored = clone (record sub {
                  status = SubmissionStatus.failed;
                  completion_reason = some CompletionReason.failed;
                  completed_at = some now;
                });
                at = ground (
                  arith,
                  lookup-insert sub.id id
                      (clone (record sub {
                        status = SubmissionStatus.failed;
                        completion_reason = some CompletionReason.failed;
                        completed_at = some now;
                      }))
                      g.store.submissions,
                  eq_iff sub.id id,
                );
                named = n;
                status = refl;
              })))
      | inr m ↦ elim (Option-cases (crash g)) [
        | inr (left, c) ↦ rw (h, m, c) (inr (left, refl, refl, refl))
        | inl c ↦
            let r = process out o stops id g in
            let v = process-Ends out o stops id sub g at n in
            let kept = keeps r.0 (record {
              stored = v.stored;
              at = v.at;
              named = v.named;
              status = settled_lem r.1 v.stored.status v.status;
            }) in
            rw (h, m, c)
              (inl (end_job-Finished id owner _ (meanwhile r.0) (meanwhile r.0) refl kept))
      ]
    ]
  ]

  -- Where the heartbeats and the other workers keep the end that a submission has reached: when a
  -- worker has run the claimed job of a stored submission, however often it was claimed before, the
  -- submission is completed, failed or deferred, and the job is gone unless another worker has leased
  -- it since; or the process function panicked, in an attempt within the limit, and the worker leaves
  -- the job, its lease and the submission as they are then.
  pub run_claimed-Handled :
      (owner id : String) (attempts : ℕ) (sub : Submission) (g : Gateway S)
      → Keeps id
      → lookup id g.store.submissions ≡ some sub
      → sub.id ≡ id
      → Handled owner id attempts g (run_claimed now processing meanwhile p owner id attempts g)
  unfolding run_claimed clone
  run_claimed-Handled owner id attempts sub g keeps at n =
      let q : get_submission id g.store ≡ some (clone sub) = rw (get_submission, at) refl in
      subst
        (λ m.
          Handled owner id attempts g (run_found now processing meanwhile p owner id attempts g m))
        (sym q) (run_found-Handled owner id attempts sub g keeps at n)
