-- ===== src/Server/Atomic.antt =====
-- What `createSubmission` of internal/server/server.go leaves in the store and in the pool.
use scintx.Base.{
  sym, subst, suc, String, ◌^^◌, Bool, Option, none, some, lookup, insert, lookup-insert, eq_iff,
  ◌≡◌, inl, inr, refl, arith, Option-cases,
}
use scintx.Api.{Submission, SubmissionStatus}
use scintx.Store.{
  MemoryStore, Stored, ignored, refused, replayed, created, clone, put_submission_idempotent,
  abandon_submission,
}
use scintx.LocalPool.{Pool, PoolError, Token, fresh_token, reserve, commit, release}
use scintx.Orchestrator.Events.{Gateway, Outside}
use scintx.Server.Answers.{Front, Decoded, malformed, decoded}
use scintx.Server.Submissions.{
  CreateSubmissionRequest, IdempotencyPayload, unacceptable, acceptable, check_submitted,
  on_committed, on_stored, on_reserved, new_submission, create_submission, with_store, Checked,
  on_checked,
}
use scintx.Server.Settling.{
  Restored, Settles, LiveKey, Binds, Puts, put-Puts, abandon_lem, Commits, commit-Commits,
  release-GivenBack, reserve_kept, unchanged_Restored, problem_lem,
}

module _ {S : Type 0} (key : String) (g : Gateway S) (done : Bool) (between : Pool → Pool)
    (pool : Pool) where
  abbrev held : Pool
  held = between (reserve done pool).0

  on_committed-Settles :
      (c : Submission) (t : MemoryStore S) (r : Pool × Token × Option PoolError)
      → clone c ≡ c
      → t.submissions ≡ insert c.id c g.store.submissions
      → Binds key c.id g.store t
      → c.status ≡ SubmissionStatus.accepted
      → lookup c.id g.store.submissions ≡ none
      → Commits c.id held r
      → let (f, answer) = on_committed key c t g r in
        Settles done between g.store (some pool) f answer.body
  unfolding on_committed
  on_committed-Settles c t (p, u, none) k e b a n q = (
    c.id,
    c,
    rw e (ground (arith, lookup-insert c.id c.id c g.store.submissions, eq_iff c.id c.id)),
    k,
    inl q,
  )
  on_committed-Settles c t (p, u, some x) k e b a n q =
      problem_lem done between g.store (some pool)
        (with_store (abandon_submission c.id key t).0 (release p u).0 g) _ x
        (abandon_lem key c g.store t e a n b) (inr q)

  on_stored-Settles :
      (sub : Submission) (r : MemoryStore S × Stored)
      → Puts key sub g.store r
      → sub.status ≡ SubmissionStatus.accepted
      → lookup sub.id g.store.submissions ≡ none
      → let (f, answer) = on_stored key between (reserve done pool).0 g r in
        Settles done between g.store (some pool) f answer.body
  unfolding on_stored clone
  on_stored-Settles sub (t, ignored) e a n =
      ((λ id. rw e refl, λ k. rw e refl), inr (release-GivenBack held))
  on_stored-Settles sub (t, refused x) e a n =
      ((λ id. rw e refl, λ k. rw e refl), inr (release-GivenBack held))
  on_stored-Settles sub (t, replayed first) (e, (id, stored, at, k)) a n =
      (id, stored, rw e at, k, inr (e, inr (release-GivenBack held)))
  on_stored-Settles sub (t, created c) (k, e, b) a n = rw k (
      on_committed-Settles (clone sub) t (commit sub.id held fresh_token) refl e b a n
        (commit-Commits sub.id held))

  on_reserved-Settles :
      (hash : String) (sub : Submission)
      → LiveKey key g.store
      → sub.status ≡ SubmissionStatus.accepted
      → lookup sub.id g.store.submissions ≡ none
      → let (f, answer) = on_reserved key hash between sub g (reserve done pool) in
        Settles done between g.store (some pool) f answer.body
  unfolding on_reserved
  on_reserved-Settles hash sub live a n = elim (Option-cases (reserve done pool).1) [
    | inl h ↦ rw h (
        on_stored-Settles sub (put_submission_idempotent key hash (some sub) g.store)
          (put-Puts key hash sub g.store live) a n)
    | inr (e, h) ↦ rw h (
        problem_lem done between g.store (some pool) (with_store g.store (reserve done pool).0 g) _
          e (λ id. refl, λ k. refl) (inl (reserve_kept done pool e h)))
  ]

module _ {S : Type 0} (out : Outside) (marshal : IdempotencyPayload → Option String)
    (hash : String → String) (done : Bool) (between : Pool → Pool) (key : String) where
  on_checked-Settles :
      (req : CreateSubmissionRequest) (f : Front S) (r : Checked) (pool : Option Pool)
      → f.pool ≡ pool
      → LiveKey key f.gateway.store
      → lookup ("sub_" ^^ out.random_hex f.gateway.draws) f.gateway.store.submissions ≡ none
      → let (f', answer) = on_checked out marshal hash done between key req f r pool in
        Settles done between f.gateway.store pool f' answer.body
  unfolding on_checked
  on_checked-Settles req f (unacceptable title detail) pool e live n = (
    (λ id. refl, λ k. refl),
    subst (λ q. Restored done between pool q) (sym e) (unchanged_Restored done between pool),
  )
  on_checked-Settles req f (acceptable artifact) none e live n =
      ((λ id. refl, λ k. refl), subst (λ q. Restored done between none q) (sym e) tt)
  on_checked-Settles req f (acceptable artifact) (some p) e live n =
      on_reserved-Settles key (record f.gateway { draws = suc f.gateway.draws }) done between p _
        (new_submission out req _ artifact f.gateway.draws) live refl n

  -- Under a key that is free or leads to a stored submission, and whatever others do to the pool
  -- between its reservation and its commit: a submission that is answered is stored, and either the
  -- pool has its id, last of those that wait or, without a limit, last of those that ran at once, or
  -- it was stored before, the store is as it was and the place in the pool is free again. With any
  -- other answer every submission is stored as before, every key leads where it did, and the pool is
  -- as it was or has the reserved place back.
  pub create_submission-Settles :
      (req : Decoded CreateSubmissionRequest) (f : Front S)
      → LiveKey key f.gateway.store
      → lookup ("sub_" ^^ out.random_hex f.gateway.draws) f.gateway.store.submissions ≡ none
      → let (f', answer) = create_submission out marshal hash done between key req f in
        Settles done between f.gateway.store f.pool f' answer.body
  unfolding create_submission
  create_submission-Settles (malformed detail) f live n =
      ((λ id. refl, λ k. refl), unchanged_Restored done between f.pool)
  create_submission-Settles (decoded req) f live n =
      on_checked-Settles req f (check_submitted req.artifact) f.pool refl live n
