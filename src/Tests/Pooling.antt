-- ===== src/Tests/Pooling.antt =====
-- The worker pool, at a pool with two slots.
use scintx.Base.{
  ℕ, Option, some, ◌+◌, ◌≤◌, false, none, [], ◌∷◌, ◌++◌, length, count_if, ◌≡◌, ◌↔◌, refl,
}
use scintx.LocalPool.{PoolError, new_local_pool, fresh_token, reserve, commit}
use scintx.LocalPool.Invariant.{
  World, reserves, Reach, here, next, IsValid, Reach-IsValid, is_open, handed_out,
}
use scintx.Auth.Numbers.{pos}
use scintx.LocalPool.Settings.{Environment, Config, ok, config_from_env}
use scintx.LocalPool.Sized.{Counted, Sized, config_from_env-Sized}
use scintx.LocalPool.Admission.{Reach-bounded, commit-admitted, reserve-backpressure}

abbrev initial : World
initial = record { pool = new_local_pool 2 1; tokens = [] }

-- The world after a call of Reserve.
abbrev reserved : World
reserved = record {
  pool = (reserve false initial.pool).0;
  tokens = handed_out (reserve false initial.pool).1 [];
}

reached : Reach initial reserved
reached = next here (reserves initial false)

Reach-IsValid_example : IsValid reserved
Reach-IsValid_example = Reach-IsValid 2 1 reserved reached

one_token : reserved.tokens ≡ [] ++ fresh_token ∷ []
unfolding reserve new_local_pool handed_out
one_token = refl

still_limited : reserved.pool.unlimited ≡ false
unfolding reserve new_local_pool
still_limited = refl

Reach-bounded_example :
    length reserved.pool.jobs + reserved.pool.running ≤ reserved.pool.max_inflight
Reach-bounded_example = Reach-bounded 2 1 reserved reached still_limited

still_open : reserved.pool.closed ≡ false
unfolding reserve new_local_pool
still_open = refl

commit-admitted_example :
    ((commit "sub_1" reserved.pool fresh_token).2 ≡ none)
    × (is_open (commit "sub_1" reserved.pool fresh_token).1 ≡ false)
    × (reserved.pool.unlimited ≡ false
        → (commit "sub_1" reserved.pool fresh_token).0.jobs ≡ reserved.pool.jobs ++ "sub_1" ∷ [])
commit-admitted_example =
    commit-admitted 2 1 reserved reached [] [] fresh_token "sub_1" one_token refl still_open

reserve-backpressure_example : ((reserve false reserved.pool).1 ≡ some PoolError.backpressure) ↔ (
    count_if is_open reserved.tokens + length reserved.pool.jobs + reserved.pool.running
    ≡ reserved.pool.max_inflight)
reserve-backpressure_example = reserve-backpressure 2 1 reserved reached still_limited still_open

-- Ten places and three workers.
abbrev settings : Environment
settings = record {
  worker_mode = " Local";
  max_inflight = "10";
  workers = "+3";
  job_queue_size = "";
  job_lease = "";
  job_poll = "";
  max_pending_jobs = "";
  job_max_attempts = "5";
  worker_id = "";
}

abbrev configured : Config
configured = record {
  mode = "local";
  max_inflight = pos 10;
  workers = 3;
  lease = none;
  poll_interval = none;
  max_pending = none;
  max_attempts = some 5;
  worker_id = "";
}

read_settings : config_from_env 2 (λ s. none) settings ≡ ok configured
unfolding config_from_env
read_settings = refl

config_from_env-Sized_example :
    (places : Option ℕ) × ((workers : Option ℕ) × ((queue : Option ℕ) × (Counted settings places
            workers queue
          × Sized places workers queue (pos 10, 3))))
config_from_env-Sized_example =
    config_from_env-Sized 2 (λ s. none) settings configured read_settings
