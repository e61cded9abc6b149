-- ===== src/QueuePool.antt =====
-- internal/workers/queue.go: the worker pool on the job queue of a store. The counts of Config are
-- natural numbers: a negative one is refused before, but for a capacity that has run over. The id of a worker that has
-- none, made of the host's name, is an argument.
pub mod Finishes
use scintx.Base.{
  ℕ, ◌+◌, ◌*◌, max, String, Bool, true, false, ◌||◌, Option, none, some, List, [], ◌∷◌, ltb, leb,
  nat_eq, ◌&&◌, ◌==◌, if◌then◌else◌,
}
use scintx.Api.{Time, Duration, Submission, SubmissionStatus, CompletionReason}
use scintx.Jobs.{
  Jobs, JobError, Claim, claimed, nothing, refused, enqueue_job, claim_job, complete_job,
  pending_job_count,
}
use scintx.Store.{MemoryStore, get_submission, put_submission}
use scintx.LocalPool.{PoolError, Token, fresh_token}
use scintx.Orchestrator.Events.{Gateway, Outside}

-- Config, as far as this pool reads it
pub record Config : Type 0 where
  pub max_inflight : ℕ
  pub workers : ℕ
  pub lease : Duration
  pub poll_interval : Duration
  pub max_pending : ℕ
  pub max_attempts : ℕ
  pub worker_id : String

-- queuePool
pub record QueuePool : Type 0 where
  pub closed : Bool
  pub cfg : Config
  pub workers : ℕ
  pub owner : String

abbrev or_default : Duration → Duration → Duration
or_default (Duration.ahead n) d = if nat_eq n 0 then d else Duration.ahead n
or_default (Duration.back n) d = d

-- newQueuePool, with its defaults: a lease of two minutes and a poll every 200 milliseconds
unfoldable pub new_queue_pool : String → Config → QueuePool
new_queue_pool default_worker_id cfg =
    let workers : ℕ = if ltb cfg.workers 1 then 1 else cfg.workers in
    record {
      closed = false;
      cfg = record cfg {
        lease = or_default cfg.lease (Duration.ahead 120_000_000_000);
        poll_interval = or_default cfg.poll_interval (Duration.ahead 200_000_000);
        max_attempts = if ltb cfg.max_attempts 1 then 8 else cfg.max_attempts;
        max_pending =
            if ltb cfg.max_pending 1
            then (if nat_eq cfg.max_inflight 0 then 1024 else max (cfg.max_inflight * 10) 256)
            else cfg.max_pending;
      };
      workers =
          if ltb 0 cfg.max_inflight && ltb cfg.max_inflight workers
          then cfg.max_inflight
          else workers;
      owner = if cfg.worker_id == "" then default_worker_id else cfg.worker_id;
    }

-- The errors of the pool, and those of the queue that it passes on.
pub data QueueError : Type 0 where
  of_pool : PoolError → QueueError
  of_queue : JobError → QueueError

-- queuePool.Reserve, which takes nothing; the first argument tells whether the context is done
unfoldable pub reserve_queued : Bool → QueuePool → Jobs → Option QueueError
unfolding pending_job_count
reserve_queued done p jobs =
    if done
    then some (of_pool PoolError.context_done)
    else if p.closed
    then some (of_pool PoolError.pool_closed)
    else if leb p.cfg.max_pending (pending_job_count jobs)
    then some (of_pool PoolError.backpressure)
    else none

abbrev enqueued : Token → Jobs × Option JobError → Jobs × Token × Option QueueError
enqueued t (jobs, none) = (jobs, record t { committed = true }, none)
enqueued t (jobs, some e) = (jobs, t, some (of_queue e))

-- queueToken.Commit
unfoldable pub commit_queued :
    Time → String → QueuePool → Token → Jobs → Jobs × Token × Option QueueError
unfolding enqueue_job
commit_queued now id p t jobs =
    if t.released || t.committed
    then (jobs, t, some (of_pool PoolError.token_used))
    else if p.closed
    then (jobs, record t { released = true }, some (of_pool PoolError.pool_closed))
    else enqueued t (enqueue_job now id jobs)

-- queueToken.Release
unfoldable pub release_queued : Token → Token
release_queued t = if t.released || t.committed then t else record t { released = true }

abbrev submitted : Jobs × Token × Option QueueError → Jobs × Option QueueError
submitted (jobs, t, e) = (jobs, e)

-- queuePool.Submit; the token that it releases after an error is dropped
unfoldable pub submit_queued : Bool → Time → String → QueuePool → Jobs → Jobs × Option QueueError
unfolding reserve_queued commit_queued
submit_queued done now id p jobs = elim (reserve_queued done p jobs) [
  | some e ↦ (jobs, some e)
  | none ↦ submitted (commit_queued now id p fresh_token jobs)
]

-- queuePool.Close
unfoldable pub close_queued : QueuePool → QueuePool
close_queued p = record p { closed = true }

-- How the call of the process function ends, with the state that it leaves.
pub data Ended (S : Type 0) : Type 0 where
  returned panicked : Gateway S → Ended S

abbrev pub is_final : SubmissionStatus → Bool
is_final SubmissionStatus.completed = true
is_final SubmissionStatus.failed = true
is_final _ = false

module _ {S : Type 0} where
  -- The call of CompleteJob, whose error is logged at most.
  abbrev pub end_job : String → String → Gateway S → Gateway S
  end_job id owner g = record g {
    store = record g.store { jobs = (complete_job id owner g.store.jobs).0 };
  }

  abbrev pub fail_attempts : Time → Submission → Gateway S → Gateway S
  fail_attempts now sub g = record g {
    store =
        put_submission
          (some (record sub {
            status = SubmissionStatus.failed;
            completion_reason = some CompletionReason.failed;
            completed_at = some now;
          }))
          g.store;
  }

  module _ (now : Time) (process : String → Gateway S → Ended S) (meanwhile : Gateway S → Gateway S)
      (p : QueuePool) where
    -- After the call: a panic is recovered, and the job keeps its lease. What the heartbeats and the
    -- other workers do until then is `meanwhile`.
    abbrev pub on_ended : String → String → Ended S → Gateway S
    on_ended owner id (returned g) = end_job id owner (meanwhile g)
    on_ended owner id (panicked g) = meanwhile g

    -- runClaimed from the submission on
    abbrev pub run_found : String → String → ℕ → Gateway S → Option Submission → Gateway S
    run_found owner id attempts g none = end_job id owner g
    run_found owner id attempts g (some sub) =
        if is_final sub.status
        then end_job id owner g
        else if ltb p.cfg.max_attempts attempts
        then end_job id owner (fail_attempts now sub g)
        else on_ended owner id (process id g)

    -- runClaimed
    unfoldable pub run_claimed : String → String → ℕ → Gateway S → Gateway S
    unfolding get_submission put_submission complete_job
    run_claimed owner id attempts g = run_found owner id attempts g (get_submission id g.store)

    abbrev claimed_round : String → Gateway S → Jobs × Claim → Gateway S
    claimed_round owner g (jobs, claimed id attempts) =
        run_claimed owner id attempts (record g { store = record g.store { jobs = jobs } })
    claimed_round owner g (jobs, nothing) = record g { store = record g.store { jobs = jobs } }
    claimed_round owner g (jobs, refused e) = record g { store = record g.store { jobs = jobs } }

    -- One round of claimLoop, while the pool is open; an owner is a worker of the pool.
    unfoldable pub claim_round : Time → String → Gateway S → Gateway S
    unfolding claim_job run_claimed
    claim_round at owner g =
        if p.closed then g else claimed_round owner g (claim_job at owner p.cfg.lease g.store.jobs)
