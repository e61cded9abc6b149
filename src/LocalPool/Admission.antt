-- ===== src/LocalPool/Admission.antt =====
-- What the pool promises to its callers.
use scintx.Base.{
  ℕ, ◌+◌, ◌≤◌, String, Bool, true, false, none, some, List, [], ◌∷◌, ◌++◌, length, count_if,
  if◌then◌else◌, ◌≡◌, ◌↔◌, arith, ap,
}
use scintx.LocalPool.{
  Pool, Token, PoolError, new_local_pool, reserve, commit, release, submit, start, finish, close,
}
use scintx.LocalPool.Invariant.{
  World, Step, reserves, commits, releases, starts, finishes, closes, Reach, here, next,
  Reach-IsValid, is_open, count_middle,
}

module _ (max_inflight workers : ℕ) (w : World)
    (reached : Reach (record { pool = new_local_pool max_inflight workers; tokens = [] }) w) where
  -- In every state that a new pool reaches, a pool with a limit never holds more ids, queued and
  -- running together, than its limit.
  pub Reach-bounded :
      w.pool.unlimited ≡ false → length w.pool.jobs + w.pool.running ≤ w.pool.max_inflight
  Reach-bounded u =
      let v = Reach-IsValid max_inflight workers w reached in omega (arith, v.accounted u, v.capped)

  -- In every state that a new pool reaches, a token that is still open is honoured while the pool
  -- is open: `Commit` succeeds, uses the token up and, under a limit, queues the id behind those
  -- that wait. The branch that answers "at capacity" is never taken.
  pub commit-admitted :
      (before after : List Token) (t : Token) (id : String)
      → w.tokens ≡ before ++ t ∷ after
      → is_open t ≡ true
      → w.pool.closed ≡ false
      → ((commit id w.pool t).2 ≡ none)
        × (is_open (commit id w.pool t).1 ≡ false)
        × (w.pool.unlimited ≡ false → (commit id w.pool t).0.jobs ≡ w.pool.jobs ++ id ∷ [])
  unfolding commit
  commit-admitted before after t id e o c =
      let v = Reach-IsValid max_inflight workers w reached in
      let opened = ap (count_if is_open) e in
      (
        ground (arith, v.accounted, v.capped, opened, count_middle before after t),
        ground (arith, v.accounted, v.capped, opened, count_middle before after t),
        λ u. ground (arith, v.accounted u, v.capped, opened, count_middle before after t),
      )

  -- In every state that a new pool reaches, an open pool with a limit turns a caller away as at
  -- capacity exactly when open tokens, queued ids and running workers fill it.
  pub reserve-backpressure :
      w.pool.unlimited ≡ false
      → w.pool.closed ≡ false
      → ((reserve false w.pool).1 ≡ some PoolError.backpressure)
        ↔ (count_if is_open w.tokens + length w.pool.jobs + w.pool.running ≡ w.pool.max_inflight)
  unfolding reserve
  reserve-backpressure u c =
      let v = Reach-IsValid max_inflight workers w reached in
      (λ e. ground (arith, v.accounted u, v.capped), λ e. ground (arith, v.accounted u, v.capped))

-- `Release` may be called any number of times, and after `Commit`: only the first call on an open
-- token frees a slot.
pub release_idem :
    (p q : Pool) (t : Token) (id : String)
    → (release q (release p t).1 ≡ (q, (release p t).1))
      × ((commit id p t).2 ≡ none → release q (commit id p t).1 ≡ (q, (commit id p t).1))
unfolding release commit
release_idem p q t id = ground arith

-- A submission that is refused leaves the pool as it was; one that is accepted takes one slot, or
-- starts one goroutine where there is no limit.
pub submit-atomic :
    (done : Bool) (id : String) (p : Pool)
    → ((e : PoolError) → (submit done id p).1 ≡ some e → (submit done id p).0 ≡ p)
      × ((submit done id p).1 ≡ none
          → (submit done id p).0 ≡ (
              if p.unlimited
              then record p { running = p.running + 1; started = p.started ++ id ∷ [] }
              else record p { sem = p.sem + 1; jobs = p.jobs ++ id ∷ [] }))
unfolding submit
submit-atomic done id p = (λ e h. ground arith, λ h. ground arith)

Step-closed :
    {w u : World}
    → Step w u
    → w.pool.closed ≡ true
    → (u.pool.closed ≡ true) × (length u.pool.jobs ≤ length w.pool.jobs)
unfolding reserve commit release start finish close
Step-closed (reserves w done) c = ground arith
Step-closed (commits w before after t id e) c = ground arith
Step-closed (releases w before after t e) c = ground arith
Step-closed (starts w id rest e h) c = ground (arith, ap length e)
Step-closed (finishes w h) c = ground arith
Step-closed (closes w) c = ground arith

-- A closed pool stays closed, and its queue never grows, whatever its callers and workers do.
Reach-closed :
    {s t : World}
    → Reach s t
    → s.pool.closed ≡ true
    → (t.pool.closed ≡ true) × (length t.pool.jobs ≤ length s.pool.jobs)
Reach-closed here c = (c, omega arith)
Reach-closed (next r st) c =
    let (c', fewer) = Reach-closed r c in
    let (c'', still_fewer) = Step-closed st c' in (c'', omega arith)
