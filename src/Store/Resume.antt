-- ===== src/Store/Resume.antt =====
-- Resuming a deferred submission: deferred, then running, then deferred again if it is not admitted.
use scintx.Base.{String, none, some, lookup, insert, lookup-insert, eq_refl, ◌≡◌, ◌≢◌, refl, arith}
use scintx.Api.{Submission, SubmissionStatus, CompletionReason}
use scintx.Store.{MemoryStore, clone, claim_resume, release_resume}

module _ {S : Type 0} (id : String) (sub : Submission) where
  -- A claim of a submission that is not deferred is refused and changes nothing.
  pub claim_resume-refused :
      (s : MemoryStore S)
      → lookup id s.submissions ≡ some sub
      → sub.status ≢ SubmissionStatus.deferred
      → claim_resume id s ≡ (s, none)
  unfolding claim_resume
  claim_resume-refused s at n = rw (at, claim_resume) (ground arith)

  pub claim_resume-taken :
      (s : MemoryStore S)
      → lookup id s.submissions ≡ some sub
      → sub.status ≡ SubmissionStatus.deferred
      → claim_resume id s ≡ (
        record s {
          submissions = insert id (record sub { status = SubmissionStatus.running }) s.submissions;
        },
        some (clone (record sub { status = SubmissionStatus.running })),
      )
  unfolding claim_resume
  claim_resume-taken s at d = rw (at, claim_resume, d)

  pub release_resume-taken :
      (s : MemoryStore S)
      → lookup id s.submissions ≡ some sub
      → sub.status ≡ SubmissionStatus.running
      → release_resume id s ≡ record s {
        submissions =
            insert id
              (record sub {
                status = SubmissionStatus.deferred;
                completion_reason = some CompletionReason.deferred;
                completed_at = none;
              })
              s.submissions;
      }
  unfolding release_resume
  release_resume-taken s at r = rw (at, release_resume, r)

-- Of two callers that claim a deferred submission only the first succeeds: it reads as running
-- then, and a second claim is refused. Once the claim is released it is deferred again, with no
-- completion time.
pub claim_resume-once :
    {S : Type 0} (id : String) (sub : Submission) (s : MemoryStore S)
    → lookup id s.submissions ≡ some sub
    → sub.status ≡ SubmissionStatus.deferred
    → let s' = (claim_resume id s).0 in
      ((claim_resume id s).1 ≡ some (clone (record sub { status = SubmissionStatus.running })))
      × (claim_resume id s' ≡ (s', none))
      × (lookup id (release_resume id s').submissions
          ≡ some (record sub {
            status = SubmissionStatus.deferred;
            completion_reason = some CompletionReason.deferred;
            completed_at = none;
          }))
claim_resume-once id sub s at d =
    let running : Submission = record sub { status = SubmissionStatus.running } in
    let s₁ : MemoryStore _ = record s { submissions = insert id running s.submissions } in
    let found : lookup id s₁.submissions ≡ some running = rw (lookup-insert, eq_refl id) refl in
    (
      rw (claim_resume-taken id sub s at d) refl,
      rw (claim_resume-taken id sub s at d) (claim_resume-refused id running s₁ found (λ e. cc)),
      rw
          (
            claim_resume-taken id sub s at d,
            release_resume-taken id running s₁ found refl,
            lookup-insert,
            eq_refl id,
          )
          refl,
    )
