-- ===== src/Tests/Running.antt =====
-- The pool on the job queue, at a job that was claimed for the second time.
use scintx.Orchestrator.Events.{Gateway}
use scintx.Base.{ℕ, Option, none, [], ◌≡◌, refl}
use scintx.Api.{Duration}
use scintx.QueuePool.{QueuePool, Config, new_queue_pool, run_claimed}
use scintx.QueuePool.Finishes.{Handled, processing, run_claimed-Handled}
use scintx.Tests.Lifecycle.{out, orchestrator, uninterrupted, gateway, wanted, wanted-stored}

abbrev config : Config
config = record {
  max_inflight = 0;
  workers = 0;
  lease = Duration.ahead 0;
  poll_interval = Duration.back 1;
  max_pending = 0;
  max_attempts = 0;
  worker_id = "";
}

abbrev pool : QueuePool
pool = new_queue_pool "host-1-ab" config

defaults : pool.cfg.max_pending ≡ 1024
unfolding new_queue_pool
defaults = refl

-- The process function does not panic.
abbrev calm : Gateway ℕ → Option (Gateway ℕ)
calm g = none

run_claimed-Handled_example :
    Handled out orchestrator uninterrupted calm 9
      (λ g. g)
      pool
      "host-1-ab-w0"
      "sub_1"
      2
      (gateway wanted [])
      (run_claimed 9
        (processing out orchestrator uninterrupted calm 9 (λ g. g) pool)
        (λ g. g)
        pool
        "host-1-ab-w0"
        "sub_1"
        2
        (gateway wanted []))
run_claimed-Handled_example =
    run_claimed-Handled out orchestrator uninterrupted calm 9 (λ g. g) pool "host-1-ab-w0" "sub_1" 2
      wanted (gateway wanted []) (λ g v. v) wanted-stored refl
