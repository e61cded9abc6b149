-- ===== src/Jobs/Invariant.antt =====
-- What every call of the queue keeps.
use scintx.Base.{
  ◌+◌, ◌≤◌, String, Option, none, some, List, [], ◌∷◌, lookup, insert, delete, map_values,
  DistinctKeys, insert-DistinctKeys, delete-DistinctKeys, map_values-DistinctKeys, lookup-insert,
  lookup-delete, ◌==◌, eq_iff, ◌≡◌, ◌≢◌, inl, inr, refl, arith, Option-cases, Bool-cases,
  lookup-map_values,
}
use scintx.Api.{Time, Duration}
use scintx.Jobs.{
  MemJob, Jobs, JobStatus, has_expired, reclaim, pick, grant, claim_job, lease_or_default,
  enqueue_job, delete_job, heartbeat_job, complete_job, holds, has_key, new_job,
}
use scintx.Jobs.Claims.{pick-lookup, claim_job-grant, claim_job-refused}

-- A job's entry as the operations keep it.
pub record ValidEntry (k : String) (j : MemJob) : Type 0 where
  pub named : j.submission_id ≡ k
  pub non_empty : k ≢ ""
  pub free : j.status ≡ JobStatus.pending → j.lease_owner ≡ ""
  pub owned : j.status ≡ JobStatus.leased → j.lease_owner ≢ ""
  pub tried : j.status ≡ JobStatus.leased → 1 ≤ j.attempts

pub record IsValid (jobs : Jobs) : Type 0 where
  pub distinct : DistinctKeys jobs
  pub entries : (k : String) (j : MemJob) → lookup k jobs ≡ some j → ValidEntry k j

pub delete-IsValid : (id : String) (jobs : Jobs) → IsValid jobs → IsValid (delete id jobs)
delete-IsValid id jobs v = record {
  distinct = delete-DistinctKeys id jobs v.distinct;
  entries = λ k j e. v.entries k j (ground (arith, lookup-delete id k jobs));
}

insert-IsValid :
    (k : String) (j : MemJob) (jobs : Jobs)
    → IsValid jobs
    → ValidEntry k j
    → IsValid (insert k j jobs)
insert-IsValid k j jobs v e = record {
  distinct = insert-DistinctKeys k j jobs v.distinct;
  entries = λ i w at. elim (Bool-cases (k == i)) [
    | inl p ↦
        let same : w ≡ j = ground (arith, lookup-insert k i j jobs) in
        rw (same, ← (eq_iff k i).0 p) e
    | inr n ↦ v.entries i w (ground (arith, lookup-insert k i j jobs))
  ];
}

reclaim-ValidEntry :
    (now : Time) (k : String) (j : MemJob) → ValidEntry k j → ValidEntry k (reclaim now j)
unfolding reclaim
reclaim-ValidEntry now k j e = elim (Bool-cases (has_expired now j)) [
  | inl p ↦ rw p (record {
    named = e.named;
    non_empty = e.non_empty;
    free = λ _. refl;
    owned = λ q. cc;
    tried = λ q. cc;
  })
  | inr n ↦ rw n e
]

pub reclaim-IsValid :
    (now : Time) (jobs : Jobs) → IsValid jobs → IsValid (map_values (reclaim now) jobs)
reclaim-IsValid now jobs v = record {
  distinct = map_values-DistinctKeys (reclaim now) jobs v.distinct;
  entries = λ k w at. elim (Option-cases (lookup k jobs)) [
    | inl n ↦ cc (lookup-map_values (reclaim now) k jobs)
    | inr (j, p) ↦
        let same : w ≡ reclaim now j = ground (arith, lookup-map_values (reclaim now) k jobs) in
        rw same (reclaim-ValidEntry now k j (v.entries k j p))
  ];
}

enqueue_job-IsValid :
    (now : Time) (id : String) (jobs : Jobs) → IsValid jobs → IsValid (enqueue_job now id jobs).0
unfolding enqueue_job
enqueue_job-IsValid now id jobs v = elim (Bool-cases (id == "")) [
  | inl e ↦ rw e v
  | inr n ↦ elim (Bool-cases (has_key (lookup id jobs))) [
    | inl h ↦ rw (n, h) v
    | inr h ↦
        rw (n, h)
          (insert-IsValid id (new_job now id) jobs v (record {
            named = refl;
            non_empty = λ e. ground (arith, eq_iff id "");
            free = λ _. refl;
            owned = λ q. cc;
            tried = λ q. cc;
          }))
  ]
]

heartbeat_job-IsValid :
    (now : Time) (id owner : String) (lease : Duration) (jobs : Jobs)
    → IsValid jobs
    → IsValid (heartbeat_job now id owner lease jobs).0
unfolding heartbeat_job
heartbeat_job-IsValid now id owner lease jobs v = elim (Option-cases (lookup id jobs)) [
  | inl n ↦ rw (n, heartbeat_job) v
  | inr (j, p) ↦ elim (Bool-cases (holds owner j)) [
    | inl h ↦
        let e = v.entries id j p in
        rw (p, heartbeat_job, h)
          (insert-IsValid id _ jobs v (record {
            named = e.named;
            non_empty = e.non_empty;
            free = e.free;
            owned = e.owned;
            tried = e.tried;
          }))
    | inr h ↦ rw (p, heartbeat_job, h) v
  ]
]

complete_job-IsValid :
    (id owner : String) (jobs : Jobs) → IsValid jobs → IsValid (complete_job id owner jobs).0
unfolding complete_job
complete_job-IsValid id owner jobs v = ground (arith, v, delete-IsValid id jobs v)

grant-IsValid :
    (owner : String) (until : Time) (k : String) (j : MemJob) (jobs : Jobs)
    → owner ≢ ""
    → IsValid jobs
    → lookup k jobs ≡ some j
    → IsValid (grant owner until (some (k, j)) jobs).0
unfolding grant
grant-IsValid owner until k j jobs o v at =
    let e = v.entries k j at in
    insert-IsValid k _ jobs v (record {
      named = e.named;
      non_empty = e.non_empty;
      free = λ q. cc;
      owned = λ _. o;
      tried = λ _. omega arith;
    })

claim_job-IsValid :
    (now : Time) (owner : String) (lease : Duration) (jobs : Jobs)
    → IsValid jobs
    → IsValid (claim_job now owner lease jobs).0
claim_job-IsValid now owner lease jobs v = elim (Bool-cases (owner == "")) [
  | inl e ↦ rw (claim_job-refused now owner lease jobs ((eq_iff owner "").0 e)) v
  | inr n ↦
      let o : owner ≢ "" = λ e. ground (arith, eq_iff owner "") in
      rw (claim_job-grant now owner lease jobs o)
        (granted o (pick none (map_values (reclaim now) jobs)) refl)
]
  where
    granted :
        owner ≢ ""
        → (best : Option (String × MemJob)) → pick none (map_values (reclaim now) jobs) ≡ best
        → IsValid
            (grant owner (now + lease_or_default lease) best (map_values (reclaim now) jobs)).0
    granted o none e = unfold grant in reclaim-IsValid now jobs v
    granted o (some (k, j)) e =
        elim (pick-lookup k j none _ (reclaim-IsValid now jobs v).distinct e) [
          | inl p ↦ cc
          | inr (at, _) ↦ grant-IsValid owner _ k j _ o (reclaim-IsValid now jobs v) at
        ]

-- One call of the queue.
pub data Call : Type 0 where
  enqueues : Time → String → Call
  deletes : String → Call
  claims : Time → String → Duration → Call
  heartbeats : Time → String → String → Duration → Call
  completes : String → String → Call

unfoldable pub perform : Call → Jobs → Jobs
perform (enqueues now id) jobs = (enqueue_job now id jobs).0
perform (deletes id) jobs = delete_job id jobs
perform (claims now owner lease) jobs = (claim_job now owner lease jobs).0
perform (heartbeats now id owner lease) jobs = (heartbeat_job now id owner lease jobs).0
perform (completes id owner) jobs = (complete_job id owner jobs).0

unfoldable pub perform_all : List Call → Jobs → Jobs
perform_all [] jobs = jobs
perform_all (c ∷ cs) jobs = perform_all cs (perform c jobs)

pub perform-IsValid : (c : Call) (jobs : Jobs) → IsValid jobs → IsValid (perform c jobs)
unfolding perform delete_job
perform-IsValid (enqueues now id) jobs v = enqueue_job-IsValid now id jobs v
perform-IsValid (deletes id) jobs v = delete-IsValid id jobs v
perform-IsValid (claims now owner lease) jobs v = claim_job-IsValid now owner lease jobs v
perform-IsValid (heartbeats now id owner lease) jobs v =
    heartbeat_job-IsValid now id owner lease jobs v
perform-IsValid (completes id owner) jobs v = complete_job-IsValid id owner jobs v

perform_all-keeps : (cs : List Call) (jobs : Jobs) → IsValid jobs → IsValid (perform_all cs jobs)
unfolding perform_all
perform_all-keeps [] jobs v = v
perform_all-keeps (c ∷ cs) jobs v = perform_all-keeps cs (perform c jobs) (perform-IsValid c jobs v)

-- After any sequence of calls on the empty queue, by any workers at any times, each job stands
-- once, under its own non-empty id; a pending job has no owner, and a leased one has an owner and
-- has been tried.
pub perform_all-IsValid : (cs : List Call) → IsValid (perform_all cs [])
unfolding lookup
perform_all-IsValid cs = perform_all-keeps cs [] (record { distinct = tt; entries = λ k j e. cc })
