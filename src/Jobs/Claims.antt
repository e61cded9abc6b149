-- ===== src/Jobs/Claims.antt =====
-- Which job `ClaimJob` takes.
use scintx.Base.{
  ◌+◌, ◌≤◌, String, true, Option, none, some, [], ◌∷◌, lookup, map_values, map_option, DistinctKeys,
  lookup-contains, lookup-map_values, map_values-DistinctKeys, lookup-insert, ◌==◌, eq_iff, eq_refl,
  ◌≡◌, ◌≢◌, ◌↔◌, ◌⊎◌, inl, inr, refl, arith, Option-cases, Bool-cases,
}
use scintx.Api.{Time, Duration}
use scintx.Jobs.{
  MemJob, Jobs, JobStatus, JobError, is_pending, has_expired, reclaim, better, pick, claimed,
  nothing, refused, grant, claim_job, leased_to, lease_or_default,
}

-- Free to be claimed at a time: pending, or under a lease that has run out.
abbrev pub Claimable : Time → MemJob → Type 0
Claimable now j = (j.status ≡ JobStatus.pending) ⊎ (has_expired now j ≡ true)

reclaim-pending :
    (now : Time) (j : MemJob) → (is_pending (reclaim now j).status ≡ true) ↔ Claimable now j
unfolding reclaim has_expired
reclaim-pending now j = ground arith

created_at-reclaim : (now : Time) (j : MemJob) → (reclaim now j).created_at ≡ j.created_at
unfolding reclaim
created_at-reclaim now j = ground arith

module _ (k : String) (j : MemJob) where
  better-cases :
      (best : Option (String × MemJob)) (i : String) (w : MemJob)
      → better best i w ≡ some (k, j)
      → (best ≡ some (k, j)) ⊎ ((i ≡ k) × (w ≡ j) × (is_pending j.status ≡ true))
  unfolding better
  better-cases none i w e = ground arith
  better-cases (some (i', b)) i w e = ground arith

  -- The job that is picked stands in the map and is pending.
  pub pick-lookup :
      (best : Option (String × MemJob)) (m : Jobs)
      → DistinctKeys m
      → pick best m ≡ some (k, j)
      → (best ≡ some (k, j)) ⊎ ((lookup k m ≡ some j) × (is_pending j.status ≡ true))
  unfolding pick lookup
  pick-lookup best [] d e = inl e
  pick-lookup best ((i, w) ∷ m) d e = elim (pick-lookup (better best i w) m d.1 e) [
    | inl p ↦ elim (better-cases best i w p) [
      | inl q ↦ inl q
      | inr (a, b, c) ↦ inr (rw (a, eq_refl k, b), c)
    ]
    | inr (p, c) ↦ inr (ground (arith, eq_iff i k, lookup-contains i m d.0), c)
  ]

-- What the loop over the jobs keeps of a job that it has seen: the best is no later.
abbrev NoLater : Option (String × MemJob) → Time → Type 0
NoLater none t = ⊥
NoLater (some (k, b)) t = b.created_at ≤ t

better-NoLater :
    (best : Option (String × MemJob)) (i : String) (w : MemJob) (t : Time)
    → NoLater best t
    → NoLater (better best i w) t
unfolding better
better-NoLater none i w t h = absurd h
better-NoLater (some (k, b)) i w t h = ground arith

better_taken :
    (best : Option (String × MemJob)) (i : String) (w : MemJob)
    → is_pending w.status ≡ true
    → NoLater (better best i w) w.created_at
unfolding better
better_taken none i w h = ground arith
better_taken (some (k, b)) i w h = ground arith

pick-NoLater :
    (best : Option (String × MemJob)) (m : Jobs) (t : Time)
    → NoLater best t
    → NoLater (pick best m) t
unfolding pick
pick-NoLater best [] t h = h
pick-NoLater best ((i, w) ∷ m) t h =
    pick-NoLater (better best i w) m t (better-NoLater best i w t h)

-- Every pending job of the map is at least as young as the one that is picked.
pub pick-oldest :
    (best : Option (String × MemJob)) (m : Jobs) (i : String) (w : MemJob)
    → lookup i m ≡ some w
    → is_pending w.status ≡ true
    → NoLater (pick best m) w.created_at
unfolding pick lookup
pick-oldest best [] i w e h = cc
pick-oldest best ((k, v) ∷ m) i w e h = elim (Bool-cases (k == i)) [
  | inl p ↦
      let same : v ≡ w = ground arith in
      pick-NoLater (better best k v) m w.created_at
        (rw (← same) (better_taken best k v (rw same h)))
  | inr n ↦ pick-oldest (better best k v) m i w (ground arith) h
]

module _ (now : Time) (owner : String) (lease : Duration) (jobs : Jobs) where
  -- What `ClaimJob` does, as its two outcomes on a well-keyed queue.
  pub record Claims (k : String) (j : MemJob) : Type 0 where
    pub present : lookup k jobs ≡ some j
    pub claimable : Claimable now j
    pub oldest :
        (i : String) (w : MemJob)
        → lookup i jobs ≡ some w
        → Claimable now w
        → j.created_at ≤ w.created_at
    pub answer : (claim_job now owner lease jobs).1 ≡ claimed j.submission_id (j.attempts + 1)
    pub stored :
        lookup k (claim_job now owner lease jobs).0
        ≡ some (leased_to owner (now + lease_or_default lease) (reclaim now j))
    pub others :
        (i : String)
        → i ≢ k
        → lookup i (claim_job now owner lease jobs).0 ≡ map_option (reclaim now) (lookup i jobs)

  lookup-reclaimed :
      (k : String) (v : MemJob)
      → lookup k (map_values (reclaim now) jobs) ≡ some v
      → (j : MemJob) × (lookup k jobs ≡ some j) × (v ≡ reclaim now j)
  lookup-reclaimed k v e = elim (Option-cases (lookup k jobs)) [
    | inl n ↦ cc (lookup-map_values (reclaim now) k jobs)
    | inr (j, p) ↦ (j, p, ground (arith, lookup-map_values (reclaim now) k jobs))
  ]

  reclaimed-lookup :
      (k : String) (j : MemJob)
      → lookup k jobs ≡ some j
      → lookup k (map_values (reclaim now) jobs) ≡ some (reclaim now j)
  reclaimed-lookup k j e = ground (arith, lookup-map_values (reclaim now) k jobs)

  oldest_of :
      (k : String) (b : MemJob)
      → pick none (map_values (reclaim now) jobs) ≡ some (k, b)
      → (i : String) (w : MemJob) → lookup i jobs ≡ some w
      → Claimable now w
      → b.created_at ≤ w.created_at
  oldest_of k b e i w at c =
      rw (e, created_at-reclaim now w) at
        (pick-oldest none (map_values (reclaim now) jobs) i (reclaim now w)
          (reclaimed-lookup i w at) ((reclaim-pending now w).1 c))

  pub claim_job-grant :
      owner ≢ ""
      → claim_job now owner lease jobs
        ≡ grant owner
            (now + lease_or_default lease)
            (pick none (map_values (reclaim now) jobs))
            (map_values (reclaim now) jobs)
  unfolding claim_job
  claim_job-grant o = ground (arith, eq_iff owner "")

  -- A claim wants the name of an owner.
  pub claim_job-refused :
      owner ≡ "" → claim_job now owner lease jobs ≡ (jobs, refused JobError.empty_lease_owner)
  unfolding claim_job
  claim_job-refused o = ground (arith, eq_iff owner "")

  -- The claim of a job that the second loop picks.
  Claims-of_pick :
      (k : String) (j : MemJob)
      → owner ≢ ""
      → pick none (map_values (reclaim now) jobs) ≡ some (k, reclaim now j)
      → lookup k jobs ≡ some j
      → Claimable now j
      → Claims k j
  unfolding grant reclaim
  Claims-of_pick k j o e at free =
      let taken = claim_job-grant o in
      record {
        present = at;
        claimable = free;
        oldest = λ i w p c. rw created_at-reclaim at (oldest_of k (reclaim now j) e i w p c);
        answer = rw (taken, e) (ground arith);
        stored = rw (taken, e, lookup-insert, eq_refl k);
        others = λ i n.
            rw (taken, e, lookup-insert)
              (ground (arith, eq_iff k i, lookup-map_values (reclaim now) i jobs));
      }

  claim_job-picked :
      (k : String) (b : MemJob)
      → DistinctKeys jobs
      → owner ≢ ""
      → pick none (map_values (reclaim now) jobs) ≡ some (k, b)
      → (j : MemJob) × Claims k j
  claim_job-picked k b d o e =
      elim (pick-lookup k b none (map_values (reclaim now) jobs)
        (map_values-DistinctKeys (reclaim now) jobs d) e) [
          | inl p ↦ cc
          | inr (p, c) ↦
              let (j, at, same) = lookup-reclaimed k b p in
              (j, Claims-of_pick k j o (rw same at e) at ((reclaim-pending now j).0 (rw same at c)))
        ]

  -- On a queue whose keys are distinct, a worker with a name gets nothing exactly when no job is
  -- claimable; otherwise it gets an oldest claimable job, under a lease of its own and with one
  -- more attempt, and no other job changes but for leases that had run out.
  pub claim_job-oldest :
      DistinctKeys jobs
      → owner ≢ ""
      → (((claim_job now owner lease jobs).1 ≡ nothing)
          × ((k : String) (j : MemJob) → lookup k jobs ≡ some j → ¬ Claimable now j)
          × ((claim_job now owner lease jobs).0 ≡ map_values (reclaim now) jobs))
        ⊎ ((k : String) × (j : MemJob) × Claims k j)
  claim_job-oldest d o = elim (Option-cases (pick none (map_values (reclaim now) jobs))) [
    | inl e ↦ inl (
      rw (claim_job-grant o, e) (unfold grant in refl),
      λ k j at c. rw e at (
          pick-oldest none (map_values (reclaim now) jobs) k (reclaim now j)
            (reclaimed-lookup k j at) ((reclaim-pending now j).1 c)),
      rw (claim_job-grant o, e) (unfold grant in refl),
    )
    | inr ((k, b), e) ↦ let (j, c) = claim_job-picked k b d o e in inr (k, j, c)
  ]
