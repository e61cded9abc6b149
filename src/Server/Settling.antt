-- ===== src/Server/Settling.antt =====
-- What a submission that is created, refused or abandoned does to the store and to the pool
-- (internal/server/server.go, internal/scintx/memory_store.go, internal/workers/dispatcher.go).
use scintx.Base.{
  ◌-◌, eq_refl, String, Bool, true, false, Option, none, some, [], ◌∷◌, ◌++◌, lookup, insert,
  delete, lookup-insert, lookup-delete, ◌==◌, eq_iff, ◌≡◌, ◌⊎◌, inl, inr, refl, arith, ltb, length,
  if◌then◌else◌, Bool-cases,
}
use scintx.Api.{Submission, SubmissionStatus}
use scintx.Store.{
  MemoryStore, Stored, StoreError, ignored, refused, replayed, created, clone,
  put_submission_idempotent, abandon_submission,
}
use scintx.LocalPool.{Pool, PoolError, Token, fresh_token, reserve, commit, release}
use scintx.Server.Answers.{Body, Front, submission, dispatch_problem}

-- The id runs at once where there is no limit, or it is the last that waits.
abbrev pub Begun : String → Pool → Pool → Type 0
Begun id q p =
    ((q.unlimited ≡ true) × (p.started ≡ q.started ++ id ∷ []))
    ⊎ ((q.unlimited ≡ false) × (p.jobs ≡ q.jobs ++ id ∷ []))

-- A place that was taken is free again, and nothing else has changed.
abbrev pub GivenBack : Pool → Pool → Type 0
GivenBack q p =
    (p.sem ≡ (if q.unlimited then q.sem else q.sem - 1))
    × (p.jobs ≡ q.jobs)
    × (p.running ≡ q.running)
    × (p.started ≡ q.started)

-- The pool, with what others do to it after the reservation, has the id or its place back.
abbrev pub Queued : String → Bool → (Pool → Pool) → Option Pool → Option Pool → Type 0
Queued id done between (some p) (some p') = Begun id (between (reserve done p).0) p'
Queued id done between _ _ = ⊥

abbrev pub Restored : Bool → (Pool → Pool) → Option Pool → Option Pool → Type 0
Restored done between none none = Unit
Restored done between (some p) (some p') = (p' ≡ p) ⊎ GivenBack (between (reserve done p).0) p'
Restored done between _ _ = ⊥

-- Every submission is stored as it was, and every key leads where it did.
abbrev pub SameStore : {S : Type 0} → MemoryStore S → MemoryStore S → Type 0
SameStore s t =
    ((id : String) → lookup id t.submissions ≡ lookup id s.submissions)
    × ((k : String) → lookup k t.idempotency ≡ lookup k s.idempotency)

-- A submission in the answer is stored, and it is queued, or the store is as it was and the place in
-- the pool is free again; any other answer leaves the submissions, the keys and the pool as they were.
abbrev pub Settles :
    {S : Type 0} → Bool → (Pool → Pool) → MemoryStore S → Option Pool → Front S → Body S → Type 0
Settles done between s pool f (submission sub) =
    (id : String) × (stored : Submission) × (lookup id f.gateway.store.submissions ≡ some stored)
    × (clone stored ≡ sub)
    × (Queued id done between pool f.pool
        ⊎ ((f.gateway.store ≡ s) × Restored done between pool f.pool))
Settles done between s pool f _ = SameStore s f.gateway.store × Restored done between pool f.pool

-- The key is free, or it leads to a stored submission.
abbrev pub LiveKey : {S : Type 0} → String → MemoryStore S → Type 0
LiveKey key s =
    (lookup key s.idempotency ≡ none)
    ⊎ ((id : String) × (stored : Submission) × (lookup key s.idempotency ≡ some id)
        × (lookup id s.submissions ≡ some stored))

-- A new submission has no key, or one that was free.
abbrev pub Binds : {S : Type 0} → String → String → MemoryStore S → MemoryStore S → Type 0
Binds key id s t =
    ((key == "" ≡ true) × (t.idempotency ≡ s.idempotency))
    ⊎ ((key == "" ≡ false)
        × (lookup key s.idempotency ≡ none)
        × (t.idempotency ≡ insert key id s.idempotency))

-- What PutSubmissionIdempotent does to the submissions.
abbrev pub Puts :
    {S : Type 0} → String → Submission → MemoryStore S → MemoryStore S × Stored → Type 0
Puts key sub s (t, ignored) = t ≡ s
Puts key sub s (t, refused e) = t ≡ s
Puts key sub s (t, replayed first) =
    (t ≡ s)
    × ((id : String) × (stored : Submission) × (lookup id s.submissions ≡ some stored)
        × (clone stored ≡ first))
Puts key sub s (t, created c) =
    (c ≡ clone sub)
    × (t.submissions ≡ insert sub.id (clone sub) s.submissions)
    × Binds key sub.id s t

bound-Puts :
    {S : Type 0} (key : String) (sub stored : Submission) (id : String) (s : MemoryStore S)
    (conflict : Bool)
    → lookup id s.submissions ≡ some stored
    → Puts key sub s (
        if conflict
        then (s, refused StoreError.idempotency_conflict)
        else (s, replayed (clone stored)))
bound-Puts key sub stored id s true at = refl
bound-Puts key sub stored id s false at = (refl, (id, stored, at, refl))

pub put-Puts :
    {S : Type 0} (key hash : String) (sub : Submission) (s : MemoryStore S)
    → LiveKey key s
    → Puts key sub s (put_submission_idempotent key hash (some sub) s)
unfolding put_submission_idempotent clone
put-Puts key hash sub s live = elim (Bool-cases (key == "")) [
  | inl h ↦ rw h (refl, refl, inl (h, refl))
  | inr h ↦ elim live [
    | inl e ↦ rw (h, e) (refl, refl, inr (h, e, refl))
    | inr (id, stored, e, at) ↦ rw (h, e, at) (bound-Puts key sub stored id s _ at)
  ]
]

module _ {S : Type 0} (key : String) (sub : Submission) (s : MemoryStore S) where
  pub abandon_lem :
      (t : MemoryStore S)
      → t.submissions ≡ insert sub.id sub s.submissions
      → sub.status ≡ SubmissionStatus.accepted
      → lookup sub.id s.submissions ≡ none
      → Binds key sub.id s t
      → SameStore s (abandon_submission sub.id key t).0
  unfolding abandon_submission
  abandon_lem t e a n keys =
      let at : lookup sub.id t.submissions ≡ some sub =
        rw e
          (ground (arith, lookup-insert sub.id sub.id sub s.submissions, eq_iff sub.id sub.id)) in
      let q : (abandon_submission sub.id key t).0.submissions ≡ delete sub.id t.submissions =
        rw (abandon_submission, at, a) (ground arith) in
      (
        λ j.
            rw (q, e)
              (ground (
                arith,
                lookup-delete sub.id j (insert sub.id sub s.submissions),
                lookup-insert sub.id j sub s.submissions,
                eq_iff sub.id j,
              )),
        λ k.
            rw (abandon_submission, at, a)
              (elim keys [
                | inl (z, i) ↦ rw (z, i) refl
                | inr (z, free, i) ↦
                    rw (z, i, lookup-insert, eq_refl key, eq_refl sub.id)
                      (ground (
                        arith,
                        lookup-delete key k (insert key sub.id s.idempotency),
                        lookup-insert key k sub.id s.idempotency,
                        eq_iff key k,
                        free,
                      ))
              ]),
      )

abbrev pub Commits : String → Pool → Pool × Token × Option PoolError → Type 0
Commits id q (p, t, none) = Begun id q p
Commits id q (p, t, some e) = GivenBack q (release p t).0

pub commit-Commits : (id : String) (p : Pool) → Commits id p (commit id p fresh_token)
unfolding commit release
commit-Commits id p = elim (Bool-cases p.closed) [
  | inl c ↦ elim (Bool-cases p.unlimited) [
    | inl u ↦ rw (c, u) (refl, refl, refl, refl)
    | inr u ↦ rw (c, u) (refl, refl, refl, refl)
  ]
  | inr c ↦ elim (Bool-cases p.unlimited) [
    | inl u ↦ rw (c, u) (inl (refl, refl))
    | inr u ↦ elim (Bool-cases (ltb (length p.jobs) p.max_inflight)) [
      | inl l ↦ rw (c, u, l) (inr (refl, refl))
      | inr l ↦ rw (c, u, l) (refl, refl, refl, refl)
    ]
  ]
]

pub release-GivenBack : (p : Pool) → GivenBack p (release p fresh_token).0
unfolding release
release-GivenBack p = elim (Bool-cases p.unlimited) [
  | inl u ↦ rw u (refl, refl, refl, refl)
  | inr u ↦ rw u (refl, refl, refl, refl)
]

pub reserve_kept :
    (done : Bool) (p : Pool) (e : PoolError) → (reserve done p).1 ≡ some e → (reserve done p).0 ≡ p
unfolding reserve
reserve_kept done p e h = ground arith

pub unchanged_Restored :
    (done : Bool) (between : Pool → Pool) (pool : Option Pool) → Restored done between pool pool
unchanged_Restored done between none = tt
unchanged_Restored done between (some p) = inl refl

pub problem_lem :
    {S : Type 0} (done : Bool) (between : Pool → Pool) (s : MemoryStore S) (pool : Option Pool)
    (f : Front S) (detail : String) (e : PoolError)
    → SameStore s f.gateway.store
    → Restored done between pool f.pool
    → Settles done between s pool f (dispatch_problem detail e).body
unfolding dispatch_problem
problem_lem done between s pool f detail PoolError.backpressure h r = (h, r)
problem_lem done between s pool f detail _ h r = (h, r)
