-- ===== src/SqlQueue/Abstraction.antt =====
-- The rows of internal/store/job_queue.go as the jobs of the in-memory queue.
use scintx.Base.{
  nat_eq, ◌&&◌, true, String, Bool, Option, none, some, [], ◌∷◌, All, lookup, insert, delete,
  map_values, ◌==◌, ◌≡◌, ◌≢◌, refl, ap, ◌∙◌, subst, arith, ltb, Bool-cases, Option-cases, inl, inr,
}
use scintx.Api.{Time}
use scintx.Jobs.{is_leased, is_pending, MemJob, Jobs, reclaim, has_expired, better, pick}
use Prim.Native.Nat.{◌%◌}
use scintx.SqlQueue.{is_before, earlier, Row, Table, expire_row, oldest_of, select_oldest}

abbrev pub or_no_owner : Option String → String
or_no_owner none = ""
or_no_owner (some o) = o

abbrev pub or_zero_time : Option Time → Time
or_zero_time none = 0
or_zero_time (some t) = t

-- NULL stands for the empty owner and for the zero time.
abbrev pub job_of : Row → MemJob
job_of r = record {
  submission_id = r.submission_id;
  status = r.status;
  created_at = r.created_at;
  lease_owner = or_no_owner r.lease_owner;
  lease_until = or_zero_time r.lease_until;
  attempts = r.attempts;
}

abbrev pub jobs_of : Table → Jobs
jobs_of [] = []
jobs_of ((k, r) ∷ t) = (k, job_of r) ∷ jobs_of t

abbrev pub found_of : Option Row → Option MemJob
found_of none = none
found_of (some r) = some (job_of r)

pub insert-jobs_of :
    (k : String) (r : Row) (t : Table) → jobs_of (insert k r t) ≡ insert k (job_of r) (jobs_of t)
unfolding insert
insert-jobs_of k r [] = refl
insert-jobs_of k r ((j, w) ∷ t) = ground (arith, insert-jobs_of k r t)

pub delete-jobs_of : (k : String) (t : Table) → jobs_of (delete k t) ≡ delete k (jobs_of t)
unfolding delete
delete-jobs_of k [] = refl
delete-jobs_of k ((j, w) ∷ t) = ground (arith, delete-jobs_of k t)

pub lookup-jobs_of : (k : String) (t : Table) → lookup k (jobs_of t) ≡ found_of (lookup k t)
unfolding lookup
lookup-jobs_of k [] = refl
lookup-jobs_of k ((j, w) ∷ t) = ground (arith, lookup-jobs_of k t)

-- A whole second before the year 10000, whose text in RFC 3339 has no fraction and four digits for
-- the year.
abbrev pub is_plain : Time → Bool
is_plain t = nat_eq (t % 1_000_000_000) 0 && ltb t 253_402_300_800_000_000_000

abbrev pub PlainUntil : Option Time → Type 0
PlainUntil none = Unit
PlainUntil (some t) = is_plain t ≡ true

-- No lease ends at the zero time, which stands for no lease, and the times are plain.
abbrev pub Timed : Row → Type 0
Timed r = (r.lease_until ≢ some 0) × (is_plain r.created_at ≡ true) × PlainUntil r.lease_until

abbrev pub AllTimed : Table → Type 0
AllTimed t = All (λ e. Timed e.1) t

pub insert-AllTimed :
    (k : String) (r : Row) (t : Table) → Timed r → AllTimed t → AllTimed (insert k r t)
unfolding insert
insert-AllTimed k r [] h a = (h, tt)
insert-AllTimed k r ((j, w) ∷ t) h a = elim (Bool-cases (j == k)) [
  | inl e ↦ rw e (h, a.1)
  | inr e ↦ rw e (a.0, insert-AllTimed k r t h a.1)
]

pub delete-AllTimed : (k : String) (t : Table) → AllTimed t → AllTimed (delete k t)
unfolding delete
delete-AllTimed k [] a = tt
delete-AllTimed k ((j, w) ∷ t) a = elim (Bool-cases (j == k)) [
  | inl e ↦ rw e (delete-AllTimed k t a.1)
  | inr e ↦ rw e (a.0, delete-AllTimed k t a.1)
]

pub lookup-AllTimed :
    (k : String) (r : Row) (t : Table) → lookup k t ≡ some r → AllTimed t → Timed r
unfolding lookup
lookup-AllTimed k r [] e a = cc
lookup-AllTimed k r ((j, w) ∷ t) e a = elim (Bool-cases (j == k)) [
  | inl h ↦ let same : w ≡ r = ground arith in subst Timed same a.0
  | inr h ↦ lookup-AllTimed k r t (ground arith) a.1
]

abbrev pub entry_of : Option (String × Row) → Option (String × MemJob)
entry_of none = none
entry_of (some (k, r)) = some (k, job_of r)

-- The texts of plain times sort as the times do.
abbrev pub Chronological : (Time → Time → Bool) → Type 0
Chronological before = (a b : Time) → is_plain a ≡ true → is_plain b ≡ true → before a b ≡ ltb a b

abbrev PlainBest : Option (String × Row) → Type 0
PlainBest none = Unit
PlainBest (some (i, b)) = is_plain b.created_at ≡ true

module _ (before : Time → Time → Bool) (chronological : Chronological before) where
  pub job_of-expire_row :
      (now : Time) (r : Row)
      → is_plain now ≡ true
      → Timed r
      → job_of (expire_row before now r) ≡ reclaim now (job_of r)
  unfolding expire_row reclaim has_expired
  job_of-expire_row now r w h = elim (Option-cases r.lease_until) [
    | inl e ↦ ground arith
    | inr (until, e) ↦
        let z : until ≢ 0 = λ q. h.0 (rw (e, q) refl) in
        let plain : is_plain until ≡ true = subst PlainUntil e h.2 in
        ground (arith, chronological until now plain w)
  ]

  pub jobs_of-expire :
      (now : Time) (t : Table)
      → is_plain now ≡ true
      → AllTimed t
      → jobs_of (map_values (expire_row before now) t) ≡ map_values (reclaim now) (jobs_of t)
  jobs_of-expire now [] w a = refl
  jobs_of-expire now ((k, r) ∷ t) w a =
      rw (job_of-expire_row now r w a.0, jobs_of-expire now t w a.1) refl

  expire_row-Timed : (now : Time) (r : Row) → Timed r → Timed (expire_row before now r)
  unfolding expire_row
  expire_row-Timed now r h =
      elim (Bool-cases (is_leased r.status && is_before before r.lease_until now)) [
        | inl e ↦ rw e ((λ q. cc), h.1, tt)
        | inr e ↦ rw e h
      ]

  pub expire-AllTimed :
      (now : Time) (t : Table) → AllTimed t → AllTimed (map_values (expire_row before now) t)
  unfolding expire_row
  expire-AllTimed now [] a = tt
  expire-AllTimed now ((k, r) ∷ t) a = (expire_row-Timed now r a.0, expire-AllTimed now t a.1)

  entry_of-oldest_of :
      (best : Option (String × Row)) (k : String) (r : Row)
      → PlainBest best
      → is_plain r.created_at ≡ true
      → entry_of (oldest_of before best k r) ≡ better (entry_of best) k (job_of r)
  unfolding oldest_of better
  entry_of-oldest_of none k r w p = ground arith
  entry_of-oldest_of (some (i, b)) k r w p =
      ground (arith, chronological r.created_at b.created_at p w)

  oldest_of-PlainBest :
      (best : Option (String × Row)) (k : String) (r : Row)
      → PlainBest best
      → is_plain r.created_at ≡ true
      → PlainBest (oldest_of before best k r)
  unfolding oldest_of
  oldest_of-PlainBest best k r w p = elim (Bool-cases (is_pending r.status)) [
    | inr e ↦ rw e w
    | inl e ↦ rw e (go best w)
  ]
    where
      go : (best : Option (String × Row)) → PlainBest best → PlainBest (earlier before best k r)
      go none w = p
      go (some (i, b)) w = elim (Bool-cases (before r.created_at b.created_at)) [
        | inl e ↦ rw e p
        | inr e ↦ rw e w
      ]

  pub entry_of-select_oldest :
      (best : Option (String × Row)) (t : Table)
      → PlainBest best
      → AllTimed t
      → entry_of (select_oldest before best t) ≡ pick (entry_of best) (jobs_of t)
  unfolding select_oldest pick
  entry_of-select_oldest best [] w a = refl
  entry_of-select_oldest best ((k, r) ∷ t) w a =
      entry_of-select_oldest (oldest_of before best k r) t (oldest_of-PlainBest best k r w a.0.1)
        a.1
      ∙ ap (λ b. pick b (jobs_of t)) (entry_of-oldest_of best k r w a.0.1)
