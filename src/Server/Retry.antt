-- ===== src/Server/Retry.antt =====
-- What `resumeSubmission` of internal/server/server.go leaves behind.
use scintx.Base.{
  String, Bool, Option, none, some, lookup, insert, lookup-insert, eq_iff, ◌≡◌, inl, inr, refl, sym,
  ap, subst, ◌∙◌, ◌≢◌, eq_refl, arith, Bool-cases, Option-cases,
}
use scintx.Api.{Submission, SubmissionStatus, CompletionReason}
use scintx.Store.{MemoryStore, clone, get_submission, is_deferred, claim_resume, release_resume}
use scintx.Store.Resume.{claim_resume-taken, claim_resume-refused, release_resume-taken}
use scintx.LocalPool.{Pool, PoolError, submit}
use scintx.Orchestrator.Events.{Gateway}
use scintx.Orchestrator.Process.{MarkError, mark_for_resume, unmark_resume, marked, mark_error}
use scintx.Server.Answers.{Body, Front, submission, dispatch_problem}
use scintx.Server.Resuming.{shown, on_submitted, on_marked, resume_submission}

-- The status that a stored submission has.
abbrev pub status_at : {S : Type 0} → String → MemoryStore S → Option SubmissionStatus
status_at id s = elim (lookup id s.submissions) [ none ↦ none | some sub ↦ some sub.status ]

-- A submission in the answer is running, and the pool has taken it. With any other answer its status is
-- as it was.
abbrev pub Resumes : {S : Type 0} → Bool → String → Front S → Front S → Body S → Type 0
Resumes done id f f' (submission sub) =
    (sub.status ≡ SubmissionStatus.running)
    × (status_at id f.gateway.store ≡ some SubmissionStatus.deferred)
    × (status_at id f'.gateway.store ≡ some SubmissionStatus.running)
    × ((p : Pool) × (f.pool ≡ some p)
        × (f'.pool ≡ some (submit done id p).0)
        × ((submit done id p).1 ≡ none))
Resumes done id f f' _ = status_at id f'.gateway.store ≡ status_at id f.gateway.store

module _ {S : Type 0} (id : String) where
  status_lem :
      (s : MemoryStore S) (sub : Submission)
      → lookup id s.submissions ≡ some sub
      → status_at id s ≡ some sub.status
  status_lem s sub e = rw (status_at, e) refl

  -- The store once a deferred submission has been claimed.
  abbrev claimed : Submission → MemoryStore S → MemoryStore S
  claimed sub s = record s {
    submissions = insert id (record sub { status = SubmissionStatus.running }) s.submissions;
  }

  claimed-lookup :
      (sub : Submission) (s : MemoryStore S)
      → lookup id (claimed sub s).submissions
        ≡ some (record sub { status = SubmissionStatus.running })
  claimed-lookup sub s = ground (
    arith,
    lookup-insert id id (record sub { status = SubmissionStatus.running }) s.submissions,
    eq_iff id id,
  )

  mark-taken :
      (g : Gateway S) (sub : Submission)
      → lookup id g.store.submissions ≡ some sub
      → sub.status ≡ SubmissionStatus.deferred
      → mark_for_resume id g ≡ (record g { store = claimed sub g.store }, none)
  unfolding mark_for_resume
  mark-taken g sub e d = ap (marked id g) (claim_resume-taken id sub g.store e d)

  mark-refused :
      (g : Gateway S) (sub : Submission)
      → lookup id g.store.submissions ≡ some sub
      → sub.status ≢ SubmissionStatus.deferred
      → (x : MarkError) × (mark_for_resume id g ≡ (g, some x))
  unfolding mark_for_resume get_submission
  mark-refused g sub e d = (
    mark_error (get_submission id g.store),
    ap (marked id g) (claim_resume-refused id sub g.store e d),
  )

  mark-missing :
      (g : Gateway S)
      → lookup id g.store.submissions ≡ none
      → (x : MarkError) × (mark_for_resume id g ≡ (g, some x))
  unfolding mark_for_resume claim_resume get_submission
  mark-missing g e =
      let q : claim_resume id g.store ≡ (g.store, none) = rw (claim_resume, e) refl in
      (mark_error (get_submission id g.store), ap (marked id g) q)

  -- Giving a claim up makes the submission deferred again.
  unmark_lem :
      (sub : Submission) (g : Gateway S)
      → lookup id g.store.submissions ≡ some sub
      → sub.status ≡ SubmissionStatus.deferred
      → status_at id (unmark_resume id (record g { store = claimed sub g.store })).store
        ≡ status_at id g.store
  unfolding unmark_resume
  unmark_lem sub g e d =
      let again : Submission = record sub {
        status = SubmissionStatus.deferred;
        completion_reason = some CompletionReason.deferred;
        completed_at = none;
      } in
      let q : lookup id (release_resume id (claimed sub g.store)).submissions ≡ some again =
        rw
          (
            release_resume-taken id (record sub { status = SubmissionStatus.running })
                (claimed sub g.store) (claimed-lookup sub g.store) refl,
            lookup-insert,
            eq_refl id,
          )
          refl in
      status_lem (release_resume id (claimed sub g.store)) again q
      ∙ sym (ap some d)
      ∙ sym (status_lem g.store sub e)

module _ {S : Type 0} (done : Bool) (id : String) where
  problem_lem :
      (f f' : Front S) (detail : String) (e : PoolError)
      → status_at id f'.gateway.store ≡ status_at id f.gateway.store
      → Resumes done id f f' (dispatch_problem detail e).body
  unfolding dispatch_problem
  problem_lem f f' detail PoolError.backpressure h = h
  problem_lem f f' detail _ h = h

  on_submitted-Resumes :
      (f : Front S) (sub : Submission) (p : Pool)
      → f.pool ≡ some p
      → lookup id f.gateway.store.submissions ≡ some sub
      → sub.status ≡ SubmissionStatus.deferred
      → (r : Pool × Option PoolError) → submit done id p ≡ r
      → let (f', answer) =
          on_submitted id (record f.gateway { store = claimed id sub f.gateway.store }) r in
        Resumes done id f f' answer.body
  unfolding on_submitted
  on_submitted-Resumes f sub p k e d (q, some x) r =
      problem_lem f
        (record {
          gateway = unmark_resume id (record f.gateway { store = claimed id sub f.gateway.store });
          pool = some q;
        })
        _ x (unmark_lem id sub f.gateway e d)
  on_submitted-Resumes f sub p k e d (q, none) r =
      let running : Submission = record sub { status = SubmissionStatus.running } in
      let at = claimed-lookup id sub f.gateway.store in
      let g : get_submission id (claimed id sub f.gateway.store) ≡ some (clone running) =
        rw (get_submission, at) refl in
      let w : Front S = record {
        gateway = record f.gateway { store = claimed id sub f.gateway.store };
        pool = some q;
      } in
      subst (λ o. Resumes done id f w (shown o).body) (sym g)
        (
          refl,
          status_lem id f.gateway.store sub e ∙ ap some d,
          status_lem id (claimed id sub f.gateway.store) running at,
          (p, k, ap (λ t. some t.0) (sym r), ap (λ t. t.1) r),
        )

  on_marked-Resumes :
      (f : Front S) (sub : Submission)
      → lookup id f.gateway.store.submissions ≡ some sub
      → sub.status ≡ SubmissionStatus.deferred
      → (pool : Option Pool) → f.pool ≡ pool
      → let (f', answer) =
          on_marked done id pool
            (record f.gateway { store = claimed id sub f.gateway.store }, none) in
        Resumes done id f f' answer.body
  unfolding on_marked
  on_marked-Resumes f sub e d none k = unmark_lem id sub f.gateway e d
  on_marked-Resumes f sub e d (some p) k =
      on_submitted-Resumes f sub p k e d (submit done id p) refl

  marked-Resumes :
      (f : Front S) (x : MarkError)
      → mark_for_resume id f.gateway ≡ (f.gateway, some x)
      → let (f', answer) = on_marked done id f.pool (mark_for_resume id f.gateway) in
        Resumes done id f f' answer.body
  unfolding on_marked
  marked-Resumes f x q =
      subst (λ m. let (f', answer) = on_marked done id f.pool m in Resumes done id f f' answer.body)
        (sym q) refl

  -- A resume is answered with the submission only if it was deferred: then it is running and the
  -- pool has taken it. With any other answer, also where the pool refuses it after the claim, its
  -- status is as it was, so a later resume may succeed.
  pub resume_submission-Resumes :
      (f : Front S)
      → let (f', answer) = resume_submission done id f in Resumes done id f f' answer.body
  unfolding resume_submission
  resume_submission-Resumes f = elim (Option-cases (lookup id f.gateway.store.submissions)) [
    | inl e ↦ let (x, q) = mark-missing id f.gateway e in marked-Resumes f x q
    | inr (sub, e) ↦ elim (Bool-cases (is_deferred sub.status)) [
      | inl h ↦
          let d : sub.status ≡ SubmissionStatus.deferred = ground arith in
          subst
            (λ m. let (f', answer) = on_marked done id f.pool m in Resumes done id f f' answer.body)
            (sym (mark-taken id f.gateway sub e d)) (on_marked-Resumes f sub e d f.pool refl)
      | inr h ↦
          let d : sub.status ≢ SubmissionStatus.deferred = ground arith in
          let (x, q) = mark-refused id f.gateway sub e d in marked-Resumes f x q
    ]
  ]
