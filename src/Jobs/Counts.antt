-- ===== src/Jobs/Counts.antt =====
-- The count that the admission of new work is limited by.
use scintx.Base.{
  suc, String, none, some, [], ◌∷◌, length, lookup, insert, lookup-insert, eq_refl, eq_iff,
  if◌then◌else◌, ◌≡◌, ◌≢◌, refl, arith,
}
use scintx.Api.{Time}
use scintx.Jobs.{MemJob, Jobs, JobError, has_key, new_job, enqueue_job, pending_job_count}

pending_job_count-length : (jobs : Jobs) → pending_job_count jobs ≡ length jobs
unfolding pending_job_count
pending_job_count-length [] = refl
pending_job_count-length ((k, j) ∷ m) = ground (arith, pending_job_count-length m)

length-insert :
    (k : String) (j : MemJob) (m : Jobs)
    → length (insert k j m) ≡ (if has_key (lookup k m) then length m else suc (length m))
unfolding insert lookup
length-insert k j [] = refl
length-insert k j ((i, w) ∷ m) = ground (arith, length-insert k j m)

-- Queueing an id that is already queued or leased changes nothing and reports no error; a new id
-- adds one to the pending count; the empty id is refused.
pub enqueue_job-count :
    (now : Time) (id : String) (jobs : Jobs)
    → (id ≡ "" → enqueue_job now id jobs ≡ (jobs, some JobError.empty_submission_id))
      × (id ≢ "" → lookup id jobs ≢ none → enqueue_job now id jobs ≡ (jobs, none))
      × (id ≢ ""
          → lookup id jobs ≡ none
          → pending_job_count (enqueue_job now id jobs).0 ≡ suc (pending_job_count jobs))
unfolding enqueue_job
enqueue_job-count now id jobs = (
  λ e. ground (arith, eq_iff id ""),
  λ n p. ground (arith, eq_iff id ""),
  λ n p.
      rw (pending_job_count-length, pending_job_count-length)
        (ground (arith, eq_iff id "", length-insert id (new_job now id) jobs)),
)

-- Queueing twice is queueing once, whatever the time of the second call.
pub enqueue_job_idem :
    (now later : Time) (id : String) (jobs : Jobs)
    → (enqueue_job later id (enqueue_job now id jobs).0).0 ≡ (enqueue_job now id jobs).0
unfolding enqueue_job
enqueue_job_idem now later id jobs =
    ground (arith, eq_iff id "", lookup-insert id id (new_job now id) jobs, eq_refl id)
