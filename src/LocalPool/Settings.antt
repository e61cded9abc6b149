-- ===== src/LocalPool/Settings.antt =====
-- internal/workers/dispatcher.go: the configuration of the pools from the environment. An int has 64
-- bits. The number of processors and time.ParseDuration are arguments.
use Prim.Native.Nat.{◌^◌}
use scintx.Base.{
  ℕ, zero, suc, ◌+◌, ◌-◌, ◌*◌, max, String, Bool, true, false, ◌||◌, ◌&&◌, not, Option, none, some,
  ltb, leb, nat_eq, if◌then◌else◌, ◌==◌, trim_space, to_lower,
}
use scintx.Api.{Duration}
use scintx.Auth.Numbers.{ℤ, pos, negsuc, max_int, parse_int}

pub record Environment : Type 0 where
  pub worker_mode : String
  pub max_inflight : String
  pub workers : String
  pub job_queue_size : String
  pub job_lease : String
  pub job_poll : String
  pub max_pending_jobs : String
  pub job_max_attempts : String
  pub worker_id : String

-- Config; a duration or a count that is not set is `none`, which is 0 in the source
pub record Config : Type 0 where
  pub mode : String
  pub max_inflight : ℤ
  pub workers : ℕ
  pub lease : Option Duration
  pub poll_interval : Option Duration
  pub max_pending : Option ℕ
  pub max_attempts : Option ℕ
  pub worker_id : String

pub data Read (A : Type 0) : Type 0 where
  ok : A → Read A
  err : String → Read A

infixl 5 ◌>>=◌
abbrev pub ◌>>=◌ : {A C : Type 0} → Read A → (A → Read C) → Read C
ok a >>= f = f a
err e >>= f = err e

-- A number below 2^64 in an int.
unfoldable pub wrap : ℕ → ℤ
wrap n = if leb n max_int then pos n else negsuc (2 ^ 64 - 1 - n)

abbrev at_least : ℕ → String → String → Option ℤ → Read (Option ℕ)
at_least least name raw (some (pos n)) = if ltb n least then err name else ok (some n)
at_least least name raw (some (negsuc n)) = err name
at_least least name raw none = err name

-- The number of a variable, `none` where it is not set, or the error that names it.
unfoldable pub read_count : ℕ → String → String → Read (Option ℕ)
unfolding parse_int
read_count least name raw = if raw == "" then ok none else at_least least name raw (parse_int raw)

abbrev positive : String → Option Duration → Read (Option Duration)
positive name (some (Duration.ahead (suc n))) = ok (some (Duration.ahead (suc n)))
positive name _ = err name

unfoldable pub read_duration : (String → Option Duration) → String → String → Read (Option Duration)
read_duration parse_duration name raw =
    if raw == "" then ok none else positive name (parse_duration raw)

-- defaultWorkers
unfoldable pub default_workers : ℕ → ℕ
default_workers cpus =
    let n : ℕ = cpus * 2 in
    let more : ℕ = if ltb n 4 then 4 else n in if ltb 8 more then 8 else more

abbrev pub Sizes : Type 0
Sizes = ℤ × ℕ

-- workers + max(workers*2, 64)
abbrev pub twice : ℤ → ℕ
twice (pos n) = max n 64
twice (negsuc n) = 64

abbrev pub chosen : ℕ → Option ℕ → ℕ
chosen cpus none = default_workers cpus
chosen cpus (some n) = if nat_eq n 0 then default_workers cpus else n

abbrev pub is_zero : Option ℕ → Bool
is_zero none = false
is_zero (some n) = nat_eq n 0

abbrev pub is_set : Option ℕ → Bool
is_set none = false
is_set (some n) = true

-- if cfg.Workers < 1 && cfg.MaxInflight > 0
abbrev pub one_worker : Sizes → Sizes
one_worker (pos (suc m), zero) = (pos (suc m), 1)
one_worker (m, w) = (m, w)

abbrev pub limited : ℕ → Option ℕ → Option ℕ → Sizes
limited workers max (some queue) = (wrap (workers + queue), workers)
limited workers (some m) none = (pos m, if ltb m workers then m else workers)
limited workers none none = (wrap (workers + twice (wrap (workers * 2))), workers)

-- The capacity and the number of workers, from the three variables that set them.
unfoldable pub sizes : ℕ → Option ℕ → Option ℕ → Option ℕ → Sizes
unfolding wrap default_workers
sizes cpus max workers queue =
    if is_zero max || (is_zero workers && not (is_set max) && not (is_set queue))
    then (pos 0, 0)
    else one_worker (limited (chosen cpus workers) max queue)

abbrev mode_or_local : String → String
mode_or_local mode = if mode == "" then "local" else mode

-- ConfigFromEnv
unfoldable pub config_from_env : ℕ → (String → Option Duration) → Environment → Read Config
unfolding read_count read_duration sizes trim_space to_lower
config_from_env cpus parse_duration env =
    read_count 0 "SCINTX_MAX_INFLIGHT" env.max_inflight >>= λ max.
    read_count 0 "SCINTX_WORKERS" env.workers >>= λ workers.
    read_count 0 "SCINTX_JOB_QUEUE_SIZE" env.job_queue_size >>= λ queue.
    read_duration parse_duration "SCINTX_JOB_LEASE" env.job_lease >>= λ lease.
    read_duration parse_duration "SCINTX_JOB_POLL" env.job_poll >>= λ poll.
    read_count 1 "SCINTX_MAX_PENDING_JOBS" env.max_pending_jobs >>= λ pending.
    read_count 1 "SCINTX_JOB_MAX_ATTEMPTS" env.job_max_attempts >>= λ attempts. ok (record {
      mode = mode_or_local (to_lower (trim_space env.worker_mode));
      max_inflight = (sizes cpus max workers queue).0;
      workers = (sizes cpus max workers queue).1;
      lease = lease;
      poll_interval = poll;
      max_pending = pending;
      max_attempts = attempts;
      worker_id = trim_space env.worker_id;
    })
