-- ===== src/LocalPool.antt =====
-- The in-process worker pool, `localPool` of internal/workers/dispatcher.go. The semaphore `sem`
-- is the number of slots taken and `jobs` is the buffer of the channel; both have the capacity
-- MaxInflight. What a worker does with an id (`process`) is outside the pool: a worker only takes
-- an id and, when `process` has returned or panicked, frees its slot.
pub mod Invariant
pub mod Admission
pub mod Settings
pub mod Sized
use scintx.Base.{
  ℕ, suc, ◌+◌, ◌-◌, String, Bool, true, false, not, ◌&&◌, ◌||◌, Option, none, some, List, [], ◌∷◌,
  ◌++◌, length, ltb, leb, nat_eq, if◌then◌else◌,
}

pub data PoolError : Type 0 where
  backpressure pool_closed token_used context_done : PoolError

-- localPool; `running` counts the workers inside `process`, and `started` has the ids that ran at
-- once, each on a goroutine of its own.
pub record Pool : Type 0 where
  pub closed : Bool
  pub unlimited : Bool
  pub max_inflight : ℕ
  pub workers : ℕ
  pub sem : ℕ
  pub jobs : List String
  pub running : ℕ
  pub started : List String

-- admitToken
pub record Token : Type 0 where
  pub released : Bool
  pub committed : Bool

-- newLocalPool: at least one worker, and no more than MaxInflight; 0 means unlimited
unfoldable pub new_local_pool : ℕ → ℕ → Pool
new_local_pool max_inflight workers =
    let at_least_one : ℕ = if ltb workers 1 then 1 else workers in
    let clamped : ℕ = if ltb max_inflight at_least_one then max_inflight else at_least_one in
    record {
      closed = false;
      unlimited = nat_eq max_inflight 0;
      max_inflight = max_inflight;
      workers = if nat_eq max_inflight 0 then 0 else clamped;
      sem = 0;
      jobs = [];
      running = 0;
      started = [];
    }

abbrev pub fresh_token : Token
fresh_token = record { released = false; committed = false }

-- Reserve; the first argument tells whether the context is done.
unfoldable pub reserve : Bool → Pool → Pool × Option PoolError
reserve done p =
    if done
    then (p, some PoolError.context_done)
    else if p.closed
    then (p, some PoolError.pool_closed)
    else if p.unlimited
    then (p, none)
    else if ltb p.sem p.max_inflight
    then (record p { sem = p.sem + 1 }, none)
    else (p, some PoolError.backpressure)

-- A receive from the semaphore that does not wait.
unfoldable pub free_slot : Pool → Pool
free_slot p = if p.unlimited then p else record p { sem = p.sem - 1 }

-- releaseLocked
unfoldable pub release_locked : Pool → Token → Pool × Token
unfolding free_slot
release_locked p t =
    if t.released || t.committed then (p, t) else (free_slot p, record t { released = true })

-- Commit. Without a limit the id runs at once, on a goroutine of its own.
unfoldable pub commit : String → Pool → Token → Pool × Token × Option PoolError
unfolding release_locked
commit id p t =
    let (q, u) = release_locked p t in
    if t.released || t.committed
    then (p, t, some PoolError.token_used)
    else if p.closed
    then (q, u, some PoolError.pool_closed)
    else if p.unlimited
    then (
      record p { running = p.running + 1; started = p.started ++ id ∷ [] },
      record t { committed = true },
      none,
    )
    else if ltb (length p.jobs) p.max_inflight
    then (record p { jobs = p.jobs ++ id ∷ [] }, record t { committed = true }, none)
    else (q, u, some PoolError.backpressure)

-- Release
unfoldable pub release : Pool → Token → Pool × Token
unfolding release_locked
release p t = release_locked p t

abbrev release_after : Pool × Token × Option PoolError → Pool × Option PoolError
release_after (q, t, none) = (q, none)
release_after (q, t, some e) = ((release q t).0, some e)

abbrev commit_after : String → Pool × Option PoolError → Pool × Option PoolError
commit_after id (q, none) = release_after (commit id q fresh_token)
commit_after id (q, some e) = (q, some e)

-- Submit
unfoldable pub submit : Bool → String → Pool → Pool × Option PoolError
unfolding reserve commit release
submit done id p = commit_after id (reserve done p)

-- A worker of `loop` takes the oldest id of the channel.
unfoldable pub start : Pool → List String → Pool
start p rest = record p { jobs = rest; running = p.running + 1 }

-- The deferred receive in `loop`, or the end of a goroutine without a limit.
unfoldable pub finish : Pool → Pool
unfolding free_slot
finish p = free_slot (record p { running = p.running - 1 })

-- Close; the workers go on with the ids in the channel.
unfoldable pub close : Pool → Pool
close p = record p { closed = true }
