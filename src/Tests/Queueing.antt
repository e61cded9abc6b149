-- ===== src/Tests/Queueing.antt =====
-- The job queue, at concrete queues.
use scintx.Base.{
  String, some, [], ◌∷◌, lookup, ◌≡◌, ◌≢◌, ◌⊎◌, eq_iff, refl, arith, DistinctKeys, map_values,
}
use scintx.Api.{Duration}
use scintx.Jobs.{MemJob, Jobs, JobStatus, new_job, claim_job, reclaim, nothing}
use scintx.Jobs.Claims.{Claimable, Claims, claim_job-oldest}
use scintx.Jobs.Leases.{HeldBy, claim_job-exclusive}
use scintx.Jobs.Invariant.{enqueues, claims, perform_all, perform_all-IsValid, IsValid}

abbrev held : MemJob
held = record {
  submission_id = "sub_1";
  status = JobStatus.leased;
  created_at = 3;
  lease_owner = "w1";
  lease_until = 100;
  attempts = 1;
}

-- One leased job, and a younger one that is pending.
abbrev queue : Jobs
queue = ("sub_1", held) ∷ ("sub_2", new_job 7 "sub_2") ∷ []

abbrev term : Duration
term = Duration.ahead 50

abbrev other : String
other = "w2"

abbrev new_id : String
new_id = "sub_3"

abbrev owner : String
owner = "w1"

named : other ≢ ""
named e = ground (arith, eq_iff "w2" "")

queue-DistinctKeys : DistinctKeys queue
queue-DistinctKeys = (refl, (refl, tt))

held-HeldBy : HeldBy "w1" 100 held
held-HeldBy = record { leased = refl; owned = refl; until_then = refl }

queue-lookup : lookup "sub_1" queue ≡ some held
unfolding lookup
queue-lookup = refl

claim_job-oldest_example :
    (((claim_job 10 other term queue).1 ≡ nothing)
      × ((k : String) (j : MemJob) → lookup k queue ≡ some j → ¬ Claimable 10 j)
      × ((claim_job 10 other term queue).0 ≡ map_values (reclaim 10) queue))
    ⊎ ((k : String) × (j : MemJob) × Claims 10 other term queue k j)
claim_job-oldest_example = claim_job-oldest 10 other term queue queue-DistinctKeys named

claim_job-exclusive_example :
    (lookup "sub_1" (claim_job 10 other term queue).0 ≡ some held)
    × ((i : String) (w : MemJob) → Claims 10 other term queue i w → i ≢ "sub_1")
claim_job-exclusive_example =
    claim_job-exclusive queue "sub_1" held "w1" other 100 10 term queue-DistinctKeys named
      queue-lookup held-HeldBy (omega arith)

perform_all-IsValid_example :
    IsValid (perform_all (enqueues 1 "sub_1" ∷ claims 2 "w1" term ∷ []) [])
perform_all-IsValid_example = perform_all-IsValid (enqueues 1 "sub_1" ∷ claims 2 "w1" term ∷ [])
