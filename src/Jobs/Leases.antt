-- ===== src/Jobs/Leases.antt =====
-- What a lease guarantees to its owner.
use scintx.Base.{
  ◌+◌, ◌≤◌, String, true, false, none, some, lookup, map_values, DistinctKeys, lookup-insert,
  lookup-delete, ◌==◌, eq_iff, eq_refl, if◌then◌else◌, ◌≡◌, ◌≢◌, ◌⊎◌, inl, inr, ap, arith,
  lookup-map_values,
}
use scintx.Api.{Time, Duration}
use scintx.Jobs.{
  MemJob, Jobs, JobStatus, JobError, has_expired, reclaim, nothing, claim_job, lease_or_default,
  heartbeat_job, complete_job,
}
use scintx.Jobs.Claims.{Claims, Claimable, claim_job-oldest}

-- `owner` has the job until a time.
pub record HeldBy (owner : String) (until : Time) (j : MemJob) : Type 0 where
  pub leased : j.status ≡ JobStatus.leased
  pub owned : j.lease_owner ≡ owner
  pub until_then : j.lease_until ≡ until

reclaim-HeldBy :
    (now until : Time) (owner : String) (j : MemJob)
    → HeldBy owner until j
    → now ≤ until
    → reclaim now j ≡ j
unfolding reclaim has_expired
reclaim-HeldBy now until owner j h le = ground arith

not-Claimable :
    (now until : Time) (owner : String) (j : MemJob)
    → HeldBy owner until j
    → now ≤ until
    → ¬ Claimable now j
unfolding has_expired
not-Claimable now until owner j h le (inl p) = cc (h.leased)
not-Claimable now until owner j h le (inr x) = ground arith

-- On a queue whose keys are distinct, until the lease of a job runs out a claim by any worker
-- with a name leaves the job as it is and never takes it: whatever job is claimed has another id.
pub claim_job-exclusive :
    (jobs : Jobs) (k : String) (j : MemJob) (owner other : String) (until now : Time)
    (lease : Duration)
    → DistinctKeys jobs
    → other ≢ ""
    → lookup k jobs ≡ some j
    → HeldBy owner until j
    → now ≤ until
    → (lookup k (claim_job now other lease jobs).0 ≡ some j)
      × ((i : String) (w : MemJob) → Claims now other lease jobs i w → i ≢ k)
claim_job-exclusive jobs k j owner other until now lease d o at h le = (
  kept (claim_job-oldest now other lease jobs d o),
  λ i w c e. not-Claimable now until owner j h le (ground (arith, c.claimable, c.present)),
)
  where
    kept :
        (((claim_job now other lease jobs).1 ≡ nothing)
            × ((i : String) (w : MemJob) → lookup i jobs ≡ some w → ¬ Claimable now w)
            × ((claim_job now other lease jobs).0 ≡ map_values (reclaim now) jobs))
          ⊎ ((i : String) × (w : MemJob) × Claims now other lease jobs i w)
        → lookup k (claim_job now other lease jobs).0 ≡ some j
    kept (inl (_, _, e)) =
        rw (e, lookup-map_values, at) (ap some (reclaim-HeldBy now until owner j h le))
    kept (inr (i, w, c)) =
        rw
          (
            c.others k (λ e.
                not-Claimable now until owner j h le (ground (arith, c.claimable, c.present))),
            at,
          )
          (ap some (reclaim-HeldBy now until owner j h le))

-- Only the owner of a lease renews it, to a full term from now; anybody else is told that the
-- lease is lost and changes nothing.
heartbeat_job-owner :
    (jobs : Jobs) (k : String) (j : MemJob) (owner other : String) (until now : Time)
    (lease : Duration)
    → lookup k jobs ≡ some j
    → HeldBy owner until j
    → ((other ≡ owner)
        → ((heartbeat_job now k other lease jobs).1 ≡ true)
          × (lookup k (heartbeat_job now k other lease jobs).0
              ≡ some (record j { lease_until = now + lease_or_default lease })))
      × ((other ≢ owner) → heartbeat_job now k other lease jobs ≡ (jobs, false))
unfolding heartbeat_job
heartbeat_job-owner jobs k j owner other until now lease at h = (
  λ e.
      rw (at, heartbeat_job)
        (ground (
          arith,
          eq_iff j.lease_owner other,
          lookup-insert k k (record j { lease_until = now + lease_or_default lease }) jobs,
          eq_refl k,
        )),
  λ n. rw (at, heartbeat_job) (ground (arith, eq_iff j.lease_owner other)),
)

-- A named worker that does not hold the lease cannot complete the job; the owner can, and the job
-- is gone while every other job stays.
complete_job-owner :
    (jobs : Jobs) (k : String) (j : MemJob) (owner other : String) (until : Time)
    → lookup k jobs ≡ some j
    → HeldBy owner until j
    → other ≢ ""
    → ((other ≢ owner) → complete_job k other jobs ≡ (jobs, some JobError.leased_by_another_owner))
      × ((other ≡ owner) → (complete_job k other jobs).1 ≡ none)
      × ((other ≡ owner)
          → (i : String)
          → lookup i (complete_job k other jobs).0 ≡ (if k == i then none else lookup i jobs))
unfolding complete_job
complete_job-owner jobs k j owner other until at h o = (
  λ n. rw (at, complete_job) (ground (arith, eq_iff j.lease_owner other, eq_iff other "")),
  λ e. rw (at, complete_job) (ground (arith, eq_iff j.lease_owner other)),
  λ e i. rw (at, complete_job) (ground (arith, eq_iff j.lease_owner other, lookup-delete k i jobs)),
)
