-- ===== src/Jobs.antt =====
-- The in-memory job queue, internal/scintx/job_queue_memory.go: a map from submission ids to jobs
-- under one lock. `now` is the reading of the clock; the clock of the process does not run back
-- across the theorems that compare two readings.
pub mod Claims
pub mod Leases
pub mod Invariant
pub mod Counts
use scintx.Base.{
  ℕ, suc, ◌+◌, String, Bool, true, false, not, ◌&&◌, ◌||◌, Option, none, some, List, [], ◌∷◌, Map,
  lookup, insert, delete, map_values, ltb, nat_eq, ◌==◌, if◌then◌else◌,
}
use scintx.Api.{Time, Duration, shift}

-- jobPending, jobLeased
pub data JobStatus : Type 0 where
  pending leased : JobStatus

-- memJob
pub record MemJob : Type 0 where
  pub submission_id : String
  pub status : JobStatus
  pub created_at : Time
  pub lease_owner : String
  pub lease_until : Time
  pub attempts : ℕ

abbrev pub Jobs : Type 0
Jobs = Map MemJob

pub data JobError : Type 0 where
  empty_submission_id empty_lease_owner leased_by_another_owner : JobError

abbrev pub is_pending : JobStatus → Bool
is_pending JobStatus.pending = true
is_pending JobStatus.leased = false

abbrev pub is_leased : JobStatus → Bool
is_leased JobStatus.pending = false
is_leased JobStatus.leased = true

abbrev pub has_key : Option MemJob → Bool
has_key none = false
has_key (some j) = is_pending j.status || is_leased j.status

abbrev pub new_job : Time → String → MemJob
new_job now id = record {
  submission_id = id;
  status = JobStatus.pending;
  created_at = now;
  lease_owner = "";
  lease_until = 0;
  attempts = 0;
}

-- EnqueueJob: an active job is kept
unfoldable pub enqueue_job : Time → String → Jobs → Jobs × Option JobError
enqueue_job now id jobs =
    if id == ""
    then (jobs, some JobError.empty_submission_id)
    else if has_key (lookup id jobs)
    then (jobs, none)
    else (insert id (new_job now id) jobs, none)

-- DeleteJob
unfoldable pub delete_job : String → Jobs → Jobs
delete_job id jobs = delete id jobs

-- Two minutes, in nanoseconds.
abbrev pub default_lease : ℕ
default_lease = 120_000_000_000

-- A lease that is not positive becomes two minutes.
unfoldable pub lease_or_default : Duration → ℕ
lease_or_default (Duration.ahead n) = if nat_eq n 0 then default_lease else n
lease_or_default (Duration.back n) = default_lease

unfoldable pub has_expired : Time → MemJob → Bool
has_expired now j = is_leased j.status && not (nat_eq j.lease_until 0) && ltb j.lease_until now

-- The first loop of ClaimJob: an expired lease makes its job pending again.
unfoldable pub reclaim : Time → MemJob → MemJob
unfolding has_expired
reclaim now j =
    if has_expired now j
    then record j { status = JobStatus.pending; lease_owner = ""; lease_until = 0 }
    else j

abbrev better_than : Option (String × MemJob) → String → MemJob → Option (String × MemJob)
better_than none k j = some (k, j)
better_than (some (i, b)) k j = if ltb j.created_at b.created_at then some (k, j) else some (i, b)

-- The body of the second loop of ClaimJob, with its variable `best`.
unfoldable pub better : Option (String × MemJob) → String → MemJob → Option (String × MemJob)
better best k j = if is_pending j.status then better_than best k j else best

unfoldable pub pick : Option (String × MemJob) → Jobs → Option (String × MemJob)
unfolding better
pick best [] = best
pick best ((k, j) ∷ m) = pick (better best k j) m

-- What ClaimJob returns.
pub data Claim : Type 0 where
  claimed : String → ℕ → Claim
  nothing : Claim
  refused : JobError → Claim

abbrev pub leased_to : String → Time → MemJob → MemJob
leased_to owner until j = record j {
  status = JobStatus.leased;
  lease_owner = owner;
  lease_until = until;
  attempts = j.attempts + 1;
}

unfoldable pub grant : String → Time → Option (String × MemJob) → Jobs → Jobs × Claim
grant owner until none jobs = (jobs, nothing)
grant owner until (some (k, j)) jobs =
    (insert k (leased_to owner until j) jobs, claimed j.submission_id (j.attempts + 1))

-- ClaimJob
unfoldable pub claim_job : Time → String → Duration → Jobs → Jobs × Claim
unfolding grant reclaim pick
claim_job now owner lease jobs =
    let until = now + lease_or_default lease in
    let open_jobs = map_values (reclaim now) jobs in
    if owner == ""
    then (jobs, refused JobError.empty_lease_owner)
    else grant owner until (pick none open_jobs) open_jobs

abbrev pub holds : String → MemJob → Bool
holds owner j = is_leased j.status && j.lease_owner == owner

-- HeartbeatJob
unfoldable pub heartbeat_job : Time → String → String → Duration → Jobs → Jobs × Bool
heartbeat_job now id owner lease jobs = elim (lookup id jobs) [
  | none ↦ (jobs, false)
  | some j ↦
      if holds owner j
      then (insert id (record j { lease_until = now + lease_or_default lease }) jobs, true)
      else (jobs, false)
]

-- CompleteJob
unfoldable pub complete_job : String → String → Jobs → Jobs × Option JobError
complete_job id owner jobs = elim (lookup id jobs) [
  | none ↦ (jobs, none)
  | some j ↦
      if is_leased j.status && not (j.lease_owner == owner) && not (owner == "")
      then (jobs, some JobError.leased_by_another_owner)
      else (delete id jobs, none)
]

-- PendingJobCount
unfoldable pub pending_job_count : Jobs → ℕ
pending_job_count [] = 0
pending_job_count ((k, j) ∷ m) =
    let rest = pending_job_count m in
    if is_pending j.status || is_leased j.status then suc rest else rest
