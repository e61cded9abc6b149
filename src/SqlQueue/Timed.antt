-- ===== src/SqlQueue/Timed.antt =====
-- No operation of internal/store/job_queue.go writes a lease that ends at the zero time.
use scintx.Base.{
  true, ◌≡◌, ◌+◌, String, ◌&&◌, Option, none, some, lookup, ◌≢◌, arith, Bool-cases, Option-cases,
  inl, inr,
}
use scintx.Api.{Time, Duration}
use scintx.Jobs.{is_pending, is_leased, lease_or_default}
use scintx.SqlQueue.{
  Row, Table, new_row, is_owner, enqueue_row, heartbeat_row, complete_row, leased_row, lease_row,
  grant_row,
}
use scintx.SqlQueue.Abstraction.{
  is_plain, lookup-AllTimed, AllTimed, insert-AllTimed, delete-AllTimed,
}

pub lease-positive : (now : Time) (lease : Duration) → now + lease_or_default lease ≢ 0
unfolding lease_or_default
lease-positive now (Duration.ahead n) = ground arith
lease-positive now (Duration.back n) = omega arith

lease_row-AllTimed :
    (owner : String) (until : Time) (id : String) (t : Table)
    → until ≢ 0
    → is_plain until ≡ true
    → AllTimed t
    → AllTimed (lease_row owner until id t (lookup id t)).0
lease_row-AllTimed owner until id t z w a = elim (Option-cases (lookup id t)) [
  | inl e ↦ rw e a
  | inr (r, e) ↦ elim (Bool-cases (is_pending r.status)) [
    | inl p ↦
        rw (e, p)
          (insert-AllTimed id (leased_row owner until r) t
            ((λ q. z (ground arith)), (lookup-AllTimed id r t e a).1, w) a)
    | inr p ↦ rw (e, p) a
  ]
]

pub grant-AllTimed :
    (owner : String) (until : Time) (best : Option (String × Row)) (t : Table)
    → until ≢ 0
    → is_plain until ≡ true
    → AllTimed t
    → AllTimed (grant_row owner until best t).0
unfolding grant_row
grant-AllTimed owner until none t z w a = a
grant-AllTimed owner until (some (k, r)) t z w a =
    lease_row-AllTimed owner until r.submission_id t z w a

pub enqueue-AllTimed :
    (now : Time) (id : String) (t : Table)
    → is_plain now ≡ true
    → AllTimed t
    → AllTimed (enqueue_row now id t).0
unfolding enqueue_row
enqueue-AllTimed now id t w a =
    ground (arith, a, insert-AllTimed id (new_row now id) t ((λ q. cc), w, tt) a)

pub heartbeat-AllTimed :
    (now : Time) (id owner : String) (lease : Duration) (t : Table)
    → is_plain (now + lease_or_default lease) ≡ true
    → AllTimed t
    → AllTimed (heartbeat_row now id owner lease t).0
unfolding heartbeat_row
heartbeat-AllTimed now id owner lease t w a = elim (Option-cases (lookup id t)) [
  | inl e ↦ rw (e, heartbeat_row) a
  | inr (r, e) ↦ elim (Bool-cases (is_leased r.status && is_owner owner r.lease_owner)) [
    | inl h ↦
        rw (e, heartbeat_row, h)
          (insert-AllTimed id _ t
            ((λ q. lease-positive now lease (ground arith)), (lookup-AllTimed id r t e a).1, w) a)
    | inr h ↦ rw (e, heartbeat_row, h) a
  ]
]

pub complete-AllTimed :
    (id owner : String) (t : Table) → AllTimed t → AllTimed (complete_row id owner t)
unfolding complete_row
complete-AllTimed id owner t a = ground (arith, a, delete-AllTimed id t a)
