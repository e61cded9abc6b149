-- ===== src/SqlQueue.antt =====
-- internal/store/job_queue.go: the job queue as a table. A row stands under its primary key, and an
-- UPDATE or a DELETE by that key meets at most one row. Times are kept as texts; `before` says whether
-- the text of one time sorts before that of another. A transaction is one step, and the
-- database reports no error.
pub mod Abstraction
pub mod Timed
pub mod Grants
pub mod Refines
use scintx.Base.{
  ℕ, ◌+◌, String, Bool, true, false, ◌||◌, ◌&&◌, Option, none, some, List, [], ◌∷◌, Map, lookup,
  insert, delete, map_values, ◌==◌, if◌then◌else◌,
}
use scintx.Api.{Time, Duration}
use scintx.Jobs.{
  JobStatus, JobError, Claim, claimed, nothing, refused, is_pending, is_leased, lease_or_default,
}
use scintx.Jobs.Invariant.{Call, enqueues, deletes, claims, heartbeats, completes}

-- A row of the table jobs; NULL is `none`.
pub record Row : Type 0 where
  pub submission_id : String
  pub status : JobStatus
  pub created_at : Time
  pub lease_owner : Option String
  pub lease_until : Option Time
  pub attempts : ℕ

abbrev pub Table : Type 0
Table = Map Row

abbrev pub new_row : Time → String → Row
new_row now id = record {
  submission_id = id;
  status = JobStatus.pending;
  created_at = now;
  lease_owner = none;
  lease_until = none;
  attempts = 0;
}

-- SQLStore.EnqueueJob: INSERT … ON CONFLICT DO NOTHING
unfoldable pub enqueue_row : Time → String → Table → Table × Option JobError
enqueue_row now id t =
    if id == ""
    then (t, some JobError.empty_submission_id)
    else elim (lookup id t) [ some r ↦ (t, none) | none ↦ (insert id (new_row now id) t, none) ]

-- SQLStore.DeleteJob
unfoldable pub delete_row : String → Table → Table
delete_row id t = delete id t

abbrev pub is_owner : String → Option String → Bool
is_owner owner none = false
is_owner owner (some o) = o == owner

-- SQLStore.HeartbeatJob, which tells whether a row was met
unfoldable pub heartbeat_row : Time → String → String → Duration → Table → Table × Bool
heartbeat_row now id owner lease t = elim (lookup id t) [
  | none ↦ (t, false)
  | some r ↦
      if is_leased r.status && is_owner owner r.lease_owner
      then (insert id (record r { lease_until = some (now + lease_or_default lease) }) t, true)
      else (t, false)
]

-- SQLStore.CompleteJob
unfoldable pub complete_row : String → String → Table → Table
complete_row id owner t = if owner == "" then delete id t else elim (lookup id t) [
  | none ↦ t
  | some r ↦ if is_owner owner r.lease_owner || is_pending r.status then delete id t else t
]

abbrev pub leased_row : String → Time → Row → Row
leased_row owner until r = record r {
  status = JobStatus.leased;
  lease_owner = some owner;
  lease_until = some until;
  attempts = r.attempts + 1;
}

-- The second UPDATE of ClaimJob and the SELECT of the attempts.
abbrev pub lease_row : String → Time → String → Table → Option Row → Table × Claim
lease_row owner until id t none = (t, nothing)
lease_row owner until id t (some r) =
    if is_pending r.status
    then (insert id (leased_row owner until r) t, claimed id (r.attempts + 1))
    else (t, nothing)

unfoldable pub grant_row : String → Time → Option (String × Row) → Table → Table × Claim
grant_row owner until none t = (t, nothing)
grant_row owner until (some (k, r)) t =
    lease_row owner until r.submission_id t (lookup r.submission_id t)

module _ (before : Time → Time → Bool) where
  abbrev pub is_before : Option Time → Time → Bool
  is_before none now = false
  is_before (some until) now = before until now

  -- The first UPDATE of ClaimJob.
  unfoldable pub expire_row : Time → Row → Row
  expire_row now r =
      if is_leased r.status && is_before r.lease_until now
      then record r { status = JobStatus.pending; lease_owner = none; lease_until = none }
      else r

  abbrev pub earlier : Option (String × Row) → String → Row → Option (String × Row)
  earlier none k r = some (k, r)
  earlier (some (i, b)) k r = if before r.created_at b.created_at then some (k, r) else some (i, b)

  unfoldable pub oldest_of : Option (String × Row) → String → Row → Option (String × Row)
  oldest_of best k r = if is_pending r.status then earlier best k r else best

  -- The SELECT of ClaimJob: ORDER BY created_at ASC LIMIT 1
  unfoldable pub select_oldest : Option (String × Row) → Table → Option (String × Row)
  unfolding oldest_of
  select_oldest best [] = best
  select_oldest best ((k, r) ∷ t) = select_oldest (oldest_of best k r) t

  -- SQLStore.ClaimJob
  unfoldable pub claim_row : Time → String → Duration → Table → Table × Claim
  unfolding expire_row select_oldest grant_row
  claim_row now owner lease t =
      let until = now + lease_or_default lease in
      let open_rows = map_values (expire_row now) t in
      if owner == ""
      then (t, refused JobError.empty_lease_owner)
      else grant_row owner until (select_oldest none open_rows) open_rows

  -- One call on the table.
  unfoldable pub perform_row : Call → Table → Table
  unfolding enqueue_row delete_row claim_row heartbeat_row complete_row
  perform_row (enqueues now id) t = (enqueue_row now id t).0
  perform_row (deletes id) t = delete_row id t
  perform_row (claims now owner lease) t = (claim_row now owner lease t).0
  perform_row (heartbeats now id owner lease) t = (heartbeat_row now id owner lease t).0
  perform_row (completes id owner) t = complete_row id owner t

-- SQLStore.PendingJobCount
unfoldable pub pending_row_count : Table → ℕ
pending_row_count [] = 0
pending_row_count ((k, r) ∷ t) =
    let rest = pending_row_count t in
    if is_pending r.status || is_leased r.status then rest + 1 else rest
