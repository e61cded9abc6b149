-- ===== src/SqlQueue/Refines.antt =====
-- The queue of internal/store/job_queue.go behaves as the one in memory.
use scintx.Base.{
  true, delete-missing, ◌+◌, String, Bool, ◌&&◌, none, some, [], ◌∷◌, lookup, map_values, ◌==◌,
  eq_iff, ◌≡◌, ◌≢◌, refl, sym, ap, ◌∙◌, subst, arith, Bool-cases, Option-cases, inl, inr,
}
use scintx.Api.{Time, Duration}
use scintx.Jobs.{
  is_leased, grant, lease_or_default, enqueue_job, delete_job, claim_job, heartbeat_job,
  complete_job, holds,
}
use scintx.Jobs.Claims.{claim_job-grant, claim_job-refused}
use scintx.Jobs.Invariant.{
  Call, enqueues, deletes, claims, heartbeats, completes, perform, IsValid, reclaim-IsValid,
}
use scintx.SqlQueue.{
  Table, new_row, is_owner, enqueue_row, delete_row, heartbeat_row, complete_row, expire_row,
  select_oldest, claim_row, perform_row,
}
use scintx.SqlQueue.Abstraction.{
  is_plain, Chronological, job_of, jobs_of, found_of, insert-jobs_of, delete-jobs_of,
  lookup-jobs_of, AllTimed, delete-AllTimed, jobs_of-expire, expire-AllTimed,
  entry_of-select_oldest,
}
use scintx.SqlQueue.Timed.{
  lease-positive, grant-AllTimed, enqueue-AllTimed, heartbeat-AllTimed, complete-AllTimed,
}
use scintx.SqlQueue.Grants.{grant-jobs_of, grant-answers}
use scintx.Jobs.{pending_job_count}
use scintx.SqlQueue.{pending_row_count}

enqueue-jobs_of :
    (now : Time) (id : String) (t : Table)
    → jobs_of (enqueue_row now id t).0 ≡ (enqueue_job now id (jobs_of t)).0
unfolding enqueue_row enqueue_job
enqueue-jobs_of now id t = elim (Option-cases (lookup id t)) [
  | inl e ↦ ground (arith, lookup-jobs_of id t, insert-jobs_of id (new_row now id) t)
  | inr (r, e) ↦ ground (arith, lookup-jobs_of id t)
]

heartbeat-jobs_of :
    (now : Time) (id owner : String) (lease : Duration) (t : Table)
    → IsValid (jobs_of t)
    → jobs_of (heartbeat_row now id owner lease t).0
      ≡ (heartbeat_job now id owner lease (jobs_of t)).0
unfolding heartbeat_row heartbeat_job
heartbeat-jobs_of now id owner lease t v = elim (Option-cases (lookup id t)) [
  | inl e ↦ ground (arith, lookup-jobs_of id t)
  | inr (r, e) ↦
      let at : lookup id (jobs_of t) ≡ some (job_of r) = lookup-jobs_of id t ∙ ap found_of e in
      let h : (is_leased r.status && is_owner owner r.lease_owner) ≡ holds owner (job_of r) =
        ground (arith, (v.entries id (job_of r) at).owned, eq_iff "" owner) in
      rw (e, at, heartbeat_row, heartbeat_job, h)
        (ground (
          arith,
          insert-jobs_of id (record r { lease_until = some (now + lease_or_default lease) }) t,
        ))
]

complete-jobs_of :
    (id owner : String) (t : Table)
    → jobs_of (complete_row id owner t) ≡ (complete_job id owner (jobs_of t)).0
unfolding complete_row complete_job
complete-jobs_of id owner t = elim (Option-cases (lookup id t)) [
  | inl e ↦ ground (arith, lookup-jobs_of id t, delete-missing id t e)
  | inr (r, e) ↦
      ground (arith, lookup-jobs_of id t, delete-jobs_of id t, eq_iff owner "", eq_iff "" owner)
]

pub empty-IsValid : IsValid (jobs_of [])
unfolding lookup
empty-IsValid = record { distinct = tt; entries = λ k j e. cc }

pub pending-jobs_of : (t : Table) → pending_row_count t ≡ pending_job_count (jobs_of t)
unfolding pending_row_count pending_job_count
pending-jobs_of [] = refl
pending-jobs_of ((k, r) ∷ t) = ground (arith, pending-jobs_of t)

-- The times of a call, and the ends of the leases that it writes, are plain.
abbrev pub PlainCall : Call → Type 0
PlainCall (enqueues now id) = is_plain now ≡ true
PlainCall (deletes id) = Unit
PlainCall (claims now owner lease) =
    (is_plain now ≡ true) × (is_plain (now + lease_or_default lease) ≡ true)
PlainCall (heartbeats now id owner lease) = is_plain (now + lease_or_default lease) ≡ true
PlainCall (completes id owner) = Unit

module _ (before : Time → Time → Bool) (chronological : Chronological before) where
  claim-jobs_of :
      (now : Time) (owner : String) (lease : Duration) (t : Table)
      → is_plain now ≡ true
      → AllTimed t
      → IsValid (jobs_of t)
      → jobs_of (claim_row before now owner lease t).0 ≡ (claim_job now owner lease (jobs_of t)).0
  unfolding claim_row
  claim-jobs_of now owner lease t w a v = elim (Bool-cases (owner == "")) [
    | inl e ↦ rw (e, claim_job-refused now owner lease (jobs_of t) ((eq_iff owner "").0 e)) refl
    | inr n ↦
        let o : owner ≢ "" = λ e. ground (arith, eq_iff owner "") in
        let opened = jobs_of-expire before chronological now t w a in
        let rows = map_values (expire_row before now) t in
        let best = select_oldest before none rows in
        rw (n, claim_job-grant now owner lease (jobs_of t) o, ← opened)
          (grant-jobs_of owner (now + lease_or_default lease) best rows
              (subst IsValid (sym opened) (reclaim-IsValid now (jobs_of t) v))
              (sym (
                entry_of-select_oldest before chronological none rows tt
                  (expire-AllTimed before chronological now t a)))
            ∙ ap (λ b. (grant owner (now + lease_or_default lease) b (jobs_of rows)).0)
                (entry_of-select_oldest before chronological none rows tt
                  (expire-AllTimed before chronological now t a)))
  ]

  pub claim-answers :
      (now : Time) (owner : String) (lease : Duration) (t : Table)
      → is_plain now ≡ true
      → AllTimed t
      → IsValid (jobs_of t)
      → (claim_row before now owner lease t).1 ≡ (claim_job now owner lease (jobs_of t)).1
  unfolding claim_row
  claim-answers now owner lease t w a v = elim (Bool-cases (owner == "")) [
    | inl e ↦ rw (e, claim_job-refused now owner lease (jobs_of t) ((eq_iff owner "").0 e)) refl
    | inr n ↦
        let o : owner ≢ "" = λ e. ground (arith, eq_iff owner "") in
        let opened = jobs_of-expire before chronological now t w a in
        let rows = map_values (expire_row before now) t in
        let best = select_oldest before none rows in
        rw (n, claim_job-grant now owner lease (jobs_of t) o, ← opened)
          (grant-answers owner (now + lease_or_default lease) best rows
              (subst IsValid (sym opened) (reclaim-IsValid now (jobs_of t) v))
              (sym (
                entry_of-select_oldest before chronological none rows tt
                  (expire-AllTimed before chronological now t a)))
            ∙ ap (λ b. (grant owner (now + lease_or_default lease) b (jobs_of rows)).1)
                (entry_of-select_oldest before chronological none rows tt
                  (expire-AllTimed before chronological now t a)))
  ]

  claim-AllTimed :
      (now : Time) (owner : String) (lease : Duration) (t : Table)
      → is_plain (now + lease_or_default lease) ≡ true
      → AllTimed t
      → AllTimed (claim_row before now owner lease t).0
  unfolding claim_row
  claim-AllTimed now owner lease t w a = elim (Bool-cases (owner == "")) [
    | inl e ↦ rw e a
    | inr n ↦ rw n (
        grant-AllTimed owner (now + lease_or_default lease)
          (select_oldest before none (map_values (expire_row before now) t))
          (map_values (expire_row before now) t) (lease-positive now lease) w
          (expire-AllTimed before chronological now t a))
  ]

  pub perform_row-AllTimed :
      (c : Call) (t : Table) → PlainCall c → AllTimed t → AllTimed (perform_row before c t)
  unfolding perform_row delete_row
  perform_row-AllTimed (enqueues now id) t w a = enqueue-AllTimed now id t w a
  perform_row-AllTimed (deletes id) t w a = delete-AllTimed id t a
  perform_row-AllTimed (claims now owner lease) t w a = claim-AllTimed now owner lease t w.1 a
  perform_row-AllTimed (heartbeats now id owner lease) t w a =
      heartbeat-AllTimed now id owner lease t w a
  perform_row-AllTimed (completes id owner) t w a = complete-AllTimed id owner t a

  pub perform_row-jobs_of :
      (c : Call) (t : Table)
      → PlainCall c
      → AllTimed t
      → IsValid (jobs_of t)
      → jobs_of (perform_row before c t) ≡ perform c (jobs_of t)
  unfolding perform_row perform delete_row delete_job
  perform_row-jobs_of (enqueues now id) t w a v = enqueue-jobs_of now id t
  perform_row-jobs_of (deletes id) t w a v = delete-jobs_of id t
  perform_row-jobs_of (claims now owner lease) t w a v = claim-jobs_of now owner lease t w.0 a v
  perform_row-jobs_of (heartbeats now id owner lease) t w a v =
      heartbeat-jobs_of now id owner lease t v
  perform_row-jobs_of (completes id owner) t w a v = complete-jobs_of id owner t
