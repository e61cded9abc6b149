-- ===== src/LocalPool/Invariant.antt =====
-- The pool with the tokens that have been handed out, under any interleaving of its callers and
-- workers. Each call runs under the pool's mutex, so it is one step.
use scintx.Base.{
  ℕ, suc, ◌+◌, ◌≤◌, ◌<◌, String, Bool, false, not, ◌||◌, Option, none, some, List, [], ◌∷◌, ◌++◌,
  length, length-append, count_if, count_if-append, if◌then◌else◌, ◌≡◌, refl, arith, ap,
}
use scintx.LocalPool.{
  Pool, Token, PoolError, new_local_pool, fresh_token, reserve, commit, release, start, finish,
  close,
}

-- The pool and all tokens that its callers hold.
pub record World : Type 0 where
  pub pool : Pool
  pub tokens : List Token

-- A token that still owns its slot.
abbrev pub is_open : Token → Bool
is_open t = not (t.released || t.committed)

-- Reserve hands out a token only if it succeeds.
unfoldable pub handed_out : Option PoolError → List Token → List Token
handed_out none ts = fresh_token ∷ ts
handed_out (some e) ts = ts

pub data Step : World → World → Type 0 where
  reserves :
      (w : World) (done : Bool)
      → Step w (record {
        pool = (reserve done w.pool).0;
        tokens = handed_out (reserve done w.pool).1 w.tokens;
      })
  commits :
      (w : World) (before after : List Token) (t : Token) (id : String)
      → w.tokens ≡ before ++ t ∷ after
      → Step w (record {
        pool = (commit id w.pool t).0;
        tokens = before ++ (commit id w.pool t).1 ∷ after;
      })
  releases :
      (w : World) (before after : List Token) (t : Token)
      → w.tokens ≡ before ++ t ∷ after
      → Step w
          (record { pool = (release w.pool t).0; tokens = before ++ (release w.pool t).1 ∷ after })
  starts :
      (w : World) (id : String) (rest : List String)
      → w.pool.jobs ≡ id ∷ rest
      → w.pool.running < w.pool.workers
      → Step w (record w { pool = start w.pool rest })
  finishes : (w : World) → 0 < w.pool.running → Step w (record w { pool = finish w.pool })
  closes : (w : World) → Step w (record w { pool = close w.pool })

pub data Reach (s : World) : World → Type 0 where
  here : Reach s s
  next : {t u : World} → Reach s t → Step t u → Reach s u

-- Every slot that is taken belongs to an open token, to a queued id or to a running worker, and no
-- more than MaxInflight are taken.
pub record IsValid (w : World) : Type 0 where
  pub accounted :
      w.pool.unlimited ≡ false
      → w.pool.sem ≡ count_if is_open w.tokens + length w.pool.jobs + w.pool.running
  pub capped : w.pool.sem ≤ w.pool.max_inflight

new-IsValid : (m n : ℕ) → IsValid (record { pool = new_local_pool m n; tokens = [] })
unfolding new_local_pool
new-IsValid m n = record { accounted = λ _. refl; capped = omega arith }

pub count_middle :
    (before after : List Token) (t : Token)
    → count_if is_open (before ++ t ∷ after)
      ≡ count_if is_open before
        + (if is_open t then suc (count_if is_open after) else count_if is_open after)
count_middle before after t = count_if-append is_open before (t ∷ after)

commit-IsValid :
    (w : World) (before after : List Token) (t : Token) (id : String)
    → w.tokens ≡ before ++ t ∷ after
    → IsValid w
    → IsValid (record {
      pool = (commit id w.pool t).0;
      tokens = before ++ (commit id w.pool t).1 ∷ after;
    })
unfolding commit
commit-IsValid w before after t id e v =
    let counted = v.accounted in
    let opened = ap (count_if is_open) e in
    record {
      accounted = λ u. ground (
        arith,
        counted,
        opened,
        count_middle before after t,
        count_middle before after (commit id w.pool t).1,
        length-append w.pool.jobs (id ∷ []),
      );
      capped = ground (arith, v.capped);
    }

release-IsValid :
    (w : World) (before after : List Token) (t : Token)
    → w.tokens ≡ before ++ t ∷ after
    → IsValid w
    → IsValid
        (record { pool = (release w.pool t).0; tokens = before ++ (release w.pool t).1 ∷ after })
unfolding release
release-IsValid w before after t e v =
    let opened = ap (count_if is_open) e in
    record {
      accounted = λ u. ground (
        arith,
        v.accounted,
        opened,
        count_middle before after t,
        count_middle before after (release w.pool t).1,
      );
      capped = ground (arith, v.capped);
    }

Step-IsValid : {w u : World} → Step w u → IsValid w → IsValid u
unfolding reserve start finish close handed_out
Step-IsValid (reserves w done) v = ground (arith, v)
Step-IsValid (commits w before after t id e) v = commit-IsValid w before after t id e v
Step-IsValid (releases w before after t e) v = release-IsValid w before after t e v
Step-IsValid (starts w id rest e h) v = ground (arith, v, ap length e)
Step-IsValid (finishes w h) v = ground (arith, v)
Step-IsValid (closes w) v = record { accounted = v.accounted; capped = v.capped }

Reach-keeps : {s t : World} → IsValid s → Reach s t → IsValid t
Reach-keeps v here = v
Reach-keeps v (next r st) = Step-IsValid st (Reach-keeps v r)

-- From a new pool, whatever its callers and workers do, the slots are accounted for and capped.
pub Reach-IsValid :
    (max_inflight workers : ℕ) (w : World)
    → Reach (record { pool = new_local_pool max_inflight workers; tokens = [] }) w
    → IsValid w
Reach-IsValid m n w r = Reach-keeps (new-IsValid m n) r
