-- ===== src/SqlQueue/Grants.antt =====
-- The second UPDATE of ClaimJob, in internal/store/job_queue.go, meets the row that the SELECT found.
use scintx.Base.{
  ◌+◌, String, true, Option, none, some, lookup, insert, ◌≡◌, refl, sym, ap, ◌∙◌, arith,
  Option-cases, inl, inr,
}
use scintx.Api.{Time}
use scintx.Jobs.{is_pending, pick, grant, leased_to, claimed}
use scintx.Jobs.Claims.{pick-lookup}
use scintx.Jobs.Invariant.{IsValid}
use scintx.SqlQueue.{Row, Table, leased_row, lease_row, grant_row}
use scintx.SqlQueue.Abstraction.{job_of, jobs_of, insert-jobs_of, lookup-jobs_of, entry_of}

lease_row-jobs_of :
    (owner : String) (until : Time) (id : String) (r : Row) (t : Table)
    → lookup id t ≡ some r
    → is_pending r.status ≡ true
    → jobs_of (lease_row owner until id t (lookup id t)).0
      ≡ insert id (leased_to owner until (job_of r)) (jobs_of t)
lease_row-jobs_of owner until id r t e p =
    rw (e, p) (insert-jobs_of id (leased_row owner until r) t)

pub grant-jobs_of :
    (owner : String) (until : Time) (best : Option (String × Row)) (t : Table)
    → IsValid (jobs_of t)
    → pick none (jobs_of t) ≡ entry_of best
    → jobs_of (grant_row owner until best t).0 ≡ (grant owner until (entry_of best) (jobs_of t)).0
unfolding grant_row grant
grant-jobs_of owner until none t v e = refl
grant-jobs_of owner until (some (k, r)) t v e =
    elim (pick-lookup k (job_of r) none (jobs_of t) v.distinct e) [
      | inl p ↦ cc
      | inr (at, p) ↦ elim (Option-cases (lookup k t)) [
        | inl q ↦ cc (lookup-jobs_of k t)
        | inr (w, q) ↦
            let same : job_of w ≡ job_of r = ground (arith, lookup-jobs_of k t) in
            let named : r.submission_id ≡ k = (v.entries k (job_of r) at).named in
            ap (λ i. jobs_of (lease_row owner until i t (lookup i t)).0) named
            ∙ lease_row-jobs_of owner until k w t q (ap (λ j. is_pending j.status) same ∙ p)
            ∙ ap (λ j. insert k (leased_to owner until j) (jobs_of t)) same
      ]
    ]

lease_row-answers :
    (owner : String) (until : Time) (id : String) (r : Row) (t : Table)
    → lookup id t ≡ some r
    → is_pending r.status ≡ true
    → (lease_row owner until id t (lookup id t)).1 ≡ claimed id (r.attempts + 1)
lease_row-answers owner until id r t e p = rw (e, p) refl

pub grant-answers :
    (owner : String) (until : Time) (best : Option (String × Row)) (t : Table)
    → IsValid (jobs_of t)
    → pick none (jobs_of t) ≡ entry_of best
    → (grant_row owner until best t).1 ≡ (grant owner until (entry_of best) (jobs_of t)).1
unfolding grant_row grant
grant-answers owner until none t v e = refl
grant-answers owner until (some (k, r)) t v e =
    elim (pick-lookup k (job_of r) none (jobs_of t) v.distinct e) [
      | inl p ↦ cc
      | inr (at, p) ↦ elim (Option-cases (lookup k t)) [
        | inl q ↦ cc (lookup-jobs_of k t)
        | inr (w, q) ↦
            let same : job_of w ≡ job_of r = ground (arith, lookup-jobs_of k t) in
            let named : r.submission_id ≡ k = (v.entries k (job_of r) at).named in
            ap (λ i. (lease_row owner until i t (lookup i t)).1) named
            ∙ lease_row-answers owner until k w t q (ap (λ j. is_pending j.status) same ∙ p)
            ∙ ap (λ j. claimed k (j.attempts + 1)) same
            ∙ ap (λ i. claimed i (r.attempts + 1)) (sym named)
      ]
    ]
