-- ===== src/LocalPool/Sized.antt =====
-- internal/workers/dispatcher.go: the pool that newLocalPool builds from ConfigFromEnv.
use Prim.Native.Nat.{◌^◌}
use scintx.Base.{
  ℕ, zero, suc, ◌+◌, ◌-◌, ◌*◌, max, leb, ◌≤◌, ◌<◌, String, true, false, ◌||◌, ◌&&◌, not, Option,
  none, some, ltb, ◌≡◌, ◌⊎◌, inl, inr, refl, subst, arith, Bool-cases,
}
use scintx.Api.{Duration}
use scintx.Auth.Numbers.{pos, negsuc, max_int}
use scintx.LocalPool.{new_local_pool}
use scintx.LocalPool.Settings.{
  Environment, Config, Read, ok, err, wrap, read_count, read_duration, ◌>>=◌, default_workers,
  chosen, twice, limited, one_worker, Sizes, is_zero, is_set, sizes, config_from_env,
}

-- The sizes are 0 only where one of the variables asks for it; otherwise the pool has places for its
-- workers, one at least, and runs all of them, or the capacity has run over.
abbrev pub Unbounded : Option ℕ → Option ℕ → Option ℕ → Type 0
Unbounded max workers queue =
    (max ≡ some 0) ⊎ ((workers ≡ some 0) × ((max ≡ none) × (queue ≡ none)))

abbrev pub RunOver : ℕ → Option ℕ → Type 0
RunOver workers queue =
    (max_int < workers * 3) ⊎ ((q : ℕ) × ((queue ≡ some q) × (max_int < workers + q)))

abbrev pub Runs : ℕ → ℕ → Type 0
Runs m w =
    (0 < w)
    × ((w ≤ m) × (((new_local_pool m w).workers ≡ w) × ((new_local_pool m w).unlimited ≡ false)))

abbrev pub Sized : Option ℕ → Option ℕ → Option ℕ → Sizes → Type 0
Sized max workers queue (pos zero, w) = (w ≡ 0) × Unbounded max workers queue
Sized max workers queue (pos (suc m), w) = Runs (suc m) w
Sized max workers queue (negsuc n, w) = (0 < w) × RunOver w queue

-- A pool with a place for each of its workers runs them all.
Runs_lem : (m w : ℕ) → 0 < w → w ≤ m → Runs m w
unfolding new_local_pool
Runs_lem m w a b = (a, (b, (ground arith, ground arith)))

chosen_positive : (cpus : ℕ) (workers : Option ℕ) → 0 < chosen cpus workers
unfolding default_workers
chosen_positive cpus none = ground arith
chosen_positive cpus (some n) = ground arith

wrap-cases : (n : ℕ) → (wrap n ≡ pos n) ⊎ ((k : ℕ) × ((wrap n ≡ negsuc k) × (max_int < n)))
unfolding wrap
wrap-cases n = elim (Bool-cases (leb n max_int)) [
  | inl t ↦ inl (rw t refl)
  | inr t ↦ inr (2 ^ 64 - 1 - n, rw t (refl, ground arith))
]

one_worker-Sized :
    (max workers queue : Option ℕ) (n w : ℕ)
    → 0 < w
    → w ≤ n
    → Sized max workers queue (one_worker (pos n, w))
one_worker-Sized max workers queue zero w a b = absurd (omega arith)
one_worker-Sized max workers queue (suc m) zero a b = absurd (omega arith)
one_worker-Sized max workers queue (suc m) (suc w) a b = Runs_lem (suc m) (suc w) a b

-- A capacity that has a place for each worker, or that has run over.
wrap-Sized :
    (max workers queue : Option ℕ) (n w : ℕ)
    → 0 < w
    → w ≤ n
    → (max_int < n → RunOver w queue)
    → Sized max workers queue (one_worker (wrap n, w))
wrap-Sized max workers queue n w a b over = elim (wrap-cases n) [
  | inl e ↦ rw e (one_worker-Sized max workers queue n w a b)
  | inr (k, (e, h)) ↦ rw e (a, over h)
]

twice_bounded : (w : ℕ) → max_int < w + twice (wrap (w * 2)) → max_int < w * 3
twice_bounded w h = elim (wrap-cases (w * 2)) [
  | inl e ↦
      let g : max_int < w + max (w * 2) 64 = subst (λ z. max_int < w + twice z) e h in omega arith
  | inr (k, (e, over)) ↦ omega arith
]

limited-Sized :
    (max workers queue : Option ℕ) (w : ℕ)
    → 0 < w
    → is_zero max ≡ false
    → Sized max workers queue (one_worker (limited w max queue))
limited-Sized max workers (some q) w a z =
    wrap-Sized max workers (some q) (w + q) w a (omega arith) (λ h. inr (q, (refl, h)))
limited-Sized (some m) workers none w a z = elim (Bool-cases (ltb m w)) [
  | inl t ↦ rw t (one_worker-Sized (some m) workers none m m (ground arith) (omega arith))
  | inr t ↦ rw t (one_worker-Sized (some m) workers none m w a (ground arith))
]
limited-Sized none workers none w a z =
    wrap-Sized none workers none (w + twice (wrap (w * 2))) w a (omega arith)
      (λ h. inl (twice_bounded w h))

unbounded_lem :
    (max workers queue : Option ℕ)
    → (is_zero max || (is_zero workers && not (is_set max) && not (is_set queue))) ≡ true
    → Unbounded max workers queue
unbounded_lem (some zero) workers queue h = inl refl
unbounded_lem (some (suc m)) workers queue h = ground arith
unbounded_lem none (some zero) none h = inr (refl, (refl, refl))
unbounded_lem none (some zero) (some q) h = cc
unbounded_lem none (some (suc w)) queue h = ground arith
unbounded_lem none none queue h = cc

sizes-Sized :
    (cpus : ℕ) (max workers queue : Option ℕ)
    → Sized max workers queue (sizes cpus max workers queue)
unfolding sizes
sizes-Sized cpus max workers queue =
    elim (Bool-cases (is_zero max || (is_zero workers && not (is_set max) && not (is_set queue)))) [
      | inl t ↦ rw t (refl, unbounded_lem max workers queue t)
      | inr t ↦ rw t (
          limited-Sized max workers queue (chosen cpus workers) (chosen_positive cpus workers)
            (ground arith))
    ]

-- What the three variables say.
abbrev pub Counted : Environment → Option ℕ → Option ℕ → Option ℕ → Type 0
Counted env places workers queue =
    (read_count 0 "SCINTX_MAX_INFLIGHT" env.max_inflight ≡ ok places)
    × ((read_count 0 "SCINTX_WORKERS" env.workers ≡ ok workers)
        × (read_count 0 "SCINTX_JOB_QUEUE_SIZE" env.job_queue_size ≡ ok queue))

abbrev Holds : {A : Type 0} → (A → Type 0) → Read A → Type 0
Holds P (ok a) = P a
Holds P (err e) = Unit

then-Holds :
    {A C : Type 0} (Q : C → Type 0) (r : Read A) (f : A → Read C)
    → ((a : A) → r ≡ ok a → Holds Q (f a))
    → Holds Q (r >>= f)
then-Holds Q (ok a) f h = h a refl
then-Holds Q (err e) f h = tt

abbrev Sound : Environment → Config → Type 0
Sound env cfg =
    (places : Option ℕ) × ((workers : Option ℕ) × ((queue : Option ℕ) × (Counted env places workers
            queue
          × Sized places workers queue (cfg.max_inflight, cfg.workers))))

config_Sound :
    (cpus : ℕ) (parse_duration : String → Option Duration) (env : Environment)
    → Holds (Sound env) (config_from_env cpus parse_duration env)
unfolding config_from_env
config_Sound cpus parse_duration env =
    then-Holds (Sound env) (read_count 0 "SCINTX_MAX_INFLIGHT" env.max_inflight) _ (λ places p.
      then-Holds (Sound env) (read_count 0 "SCINTX_WORKERS" env.workers) _ (λ workers w.
        then-Holds (Sound env) (read_count 0 "SCINTX_JOB_QUEUE_SIZE" env.job_queue_size) _
          (λ queue q.
            then-Holds (Sound env) (read_duration parse_duration "SCINTX_JOB_LEASE" env.job_lease) _
              (λ lease l.
                then-Holds (Sound env) (read_duration parse_duration "SCINTX_JOB_POLL" env.job_poll)
                  _
                  (λ poll o.
                    then-Holds (Sound env)
                      (read_count 1 "SCINTX_MAX_PENDING_JOBS" env.max_pending_jobs) _
                      (λ pending n.
                        then-Holds (Sound env)
                          (read_count 1 "SCINTX_JOB_MAX_ATTEMPTS" env.job_max_attempts) _
                          (λ attempts a. (
                            places,
                            (
                              workers,
                              (queue, ((p, (w, q)), sizes-Sized cpus places workers queue)),
                            ),
                          ))))))))

-- A configuration that ConfigFromEnv accepts turns the limit of the pool off only if
-- SCINTX_MAX_INFLIGHT is 0, or SCINTX_WORKERS is 0 and the other two variables are not set. With
-- another one that fits an int, newLocalPool runs exactly the workers of the configuration, one at
-- least, with a place for each of them. The capacity is negative only if the sum of the workers and
-- the queue, or three times the workers, is above the largest int.
pub config_from_env-Sized :
    (cpus : ℕ) (parse_duration : String → Option Duration) (env : Environment) (cfg : Config)
    → config_from_env cpus parse_duration env ≡ ok cfg
    → (places : Option ℕ) × ((workers : Option ℕ) × ((queue : Option ℕ) × (Counted env places
              workers queue
            × Sized places workers queue (cfg.max_inflight, cfg.workers))))
config_from_env-Sized cpus parse_duration env cfg e =
    subst (Holds (Sound env)) e (config_Sound cpus parse_duration env)
