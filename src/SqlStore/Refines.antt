-- ===== src/SqlStore/Refines.antt =====
-- internal/store/sql_ops.go and job_queue.go against internal/scintx/memory_store.go: any client
-- gets the same answers from the store on SQL tables and from the one in memory.
use scintx.Base.{
  ℕ, length, ◌⊎◌, inl, inr, Bool, Option, none, some, List, [], ◌∷◌, lookup, ◌≡◌, refl, sym, ap,
  ◌∙◌, subst,
}
use mathlib.Core.List.{Perm}
use mathlib.Core.List.Perm
use scintx.Api.{Time, ProviderResult}
use scintx.Jobs.{claim_job, pending_job_count}
use scintx.Jobs.Invariant.{IsValid}
use scintx.SqlQueue.Abstraction.{Chronological}
use scintx.SqlQueue.Refines.{claim-answers, pending-jobs_of, empty-IsValid}
use scintx.Store.{MemoryStore, StoreError, Stored, ProviderEntry, new_memory_store}
use scintx.Store
use scintx.Store.Records as Kept
use scintx.SqlStore
use scintx.SqlStore.{
  Codecs, SqlStore, SqlError, Fetched, found, missing, unreadable, fetch, decoded, Put,
  new_sql_store,
}
use scintx.SqlStore.Records
use scintx.SqlStore.Laws.{Faithful}
use scintx.SqlStore.Tables.{Mirrors}
use scintx.SqlStore.Creation.{
  fetched, put_of, fetch_lem, put_submission_idempotent-answer, get_submission_by_key-answer,
}
use scintx.SqlStore.Transactions
use scintx.SqlStore.Transactions.{error_of}
use scintx.SqlStore.Listing
use scintx.SqlStore.Calls.{
  Call, Answer, puts, gets, creates, remembers, abandons, claims_resume, releases_resume,
  gets_by_key, puts_result, gets_result, gets_results, puts_merged, gets_merged, puts_decision,
  gets_decision, appends, lists_events, puts_artifact, has_artifact, gets_artifact, registers,
  lists_providers, gets_capabilities, snapshots, queues, claims_job, counts_jobs, answer_of,
  refusal_of, stored_of, a_submission, stored, on_memory, on_tables, Allowed, AllAllowed,
  some_results, reordered, Orders, answers_in_memory, answers_in_tables, refusal, a_claim, a_result,
  a_merged, a_decision, some_capabilities, a_count,
}
use scintx.SqlStore.Steps.{step-Mirrors}

module _ {S : Type 0} where
  answer_of-fetched :
      {A : Type 0} (f : Option A → Answer S) (o : Option A) → answer_of f (fetched o) ≡ f o
  answer_of-fetched f none = refl
  answer_of-fetched f (some a) = refl

  stored_of-put_of : (put : Stored) → stored_of {S = S} (put_of put) ≡ stored put
  stored_of-put_of Stored.ignored = refl
  stored_of-put_of (Stored.refused e) = refl
  stored_of-put_of (Stored.replayed sub) = refl
  stored_of-put_of (Stored.created sub) = refl

  refusal_of-error_of : (e : Option StoreError) → refusal_of {S = S} (error_of e) ≡ refusal e
  refusal_of-error_of none = refl
  refusal_of-error_of (some e) = refl

-- Two answers agree, up to the order of results.
abbrev pub Same : {S : Type 0} → Answer S → Answer S → Type 0
Same a b =
    (a ≡ b)
    ⊎ ((xs : List (ProviderResult _)) × (ys : List (ProviderResult _)) × (a ≡ some_results xs)
        × (b ≡ some_results ys)
        × Perm xs ys)

abbrev pub AllSame : {S : Type 0} → List (Answer S) → List (Answer S) → Type 0
AllSame [] [] = Unit
AllSame (x ∷ xs) (y ∷ ys) = Same x y × AllSame xs ys
AllSame _ _ = ⊥

module _ {S B : Type 0} (before : Time → Time → Bool) (chronological : Chronological before)
    (json : Codecs S B) (law : Faithful json) where
  step-answer :
      (c : Call S) (q : SqlStore B) (m : MemoryStore S)
      → Mirrors json q m
      → Allowed c m
      → (on_tables before json c q).1 ≡ (on_memory c m).1
  unfolding SqlStore.get_submission Store.get_submission Records.has_artifact Records.get_artifact
      Kept.has_artifact Kept.get_artifact
  step-answer (puts sub) q m h a = refl
  step-answer (gets id) q m h a =
      rw (fetch_lem json law q m h id) (answer_of-fetched a_submission _)
  step-answer (creates key hash sub) q m h a =
      rw (put_submission_idempotent-answer json law q m h key hash sub a) (stored_of-put_of _)
  step-answer (remembers key id) q m h a = refl
  step-answer (abandons id key) q m h a =
      rw (Transactions.abandon_submission-answer json law q m h id key) (refusal_of-error_of _)
  step-answer (claims_resume id) q m h a =
      rw (Transactions.claim_resume-answer json law q m h id) (answer_of-fetched a_submission _)
  step-answer (releases_resume id) q m h a =
      rw (Transactions.release_resume-answer json law q m h id) refl
  step-answer (gets_by_key key) q m h a =
      rw (get_submission_by_key-answer json law q m h key) (answer_of-fetched a_submission _)
  step-answer (puts_result r) q m h a = refl
  step-answer (gets_result id) q m h a =
      rw (Listing.get_result-answer json law q m h id) (answer_of-fetched a_result _)
  step-answer (gets_results id) q m h a =
      rw (Listing.get_results_for_submission-answer json law q m h id) refl
  step-answer (puts_merged r) q m h a = refl
  step-answer (gets_merged id) q m h a =
      rw (Listing.get_merged_result-answer json law q m h id) (answer_of-fetched a_merged _)
  step-answer (puts_decision d) q m h a = refl
  step-answer (gets_decision id) q m h a =
      rw (Listing.get_decision-answer json law q m h id) (answer_of-fetched a_decision _)
  step-answer (appends e) q m h a = refl
  step-answer lists_events q m h a = rw (Listing.all_events-answer json law q m h) refl
  step-answer (puts_artifact digest content) q m h a = refl
  step-answer (has_artifact digest) q m h a = rw h.artifacts refl
  step-answer (gets_artifact digest) q m h a = rw h.artifacts refl
  step-answer (registers p) q m h a = refl
  step-answer lists_providers q m h a = rw (Listing.all_providers-answer json law q m h) refl
  step-answer (gets_capabilities id) q m h a =
      rw (Listing.get_capabilities-answer json law q m h id) (answer_of-fetched some_capabilities _)
  step-answer (snapshots id caps) q m h a =
      rw (Listing.snapshot_capabilities-answer json law q m h id caps a) refl
  step-answer (queues c) q m h a = refl
  step-answer (claims_job now owner lease) q m h a = ap a_claim (
      claim-answers before chronological now owner lease q.jobs a.0 h.timed
        (subst IsValid (sym h.jobs) h.valid)
      ∙ ap (λ jobs. (claim_job now owner lease jobs).1) h.jobs)
  step-answer counts_jobs q m h a =
      ap a_count (pending-jobs_of q.jobs ∙ ap pending_job_count h.jobs)

  new-Mirrors : Mirrors {S = S} json new_sql_store new_memory_store
  unfolding lookup
  new-Mirrors = record {
    submissions = refl;
    idempotency = refl;
    unbound = λ key e. refl;
    results = refl;
    merged_results = refl;
    decisions = refl;
    events = refl;
    artifacts = refl;
    providers = refl;
    ordered = tt;
    snapshots = λ id. refl;
    jobs = refl;
    timed = tt;
    valid = empty-IsValid;
  }

  module _ (in_memory in_tables : Orders S)
      (a_range : (n : ℕ) (rs : List (ProviderResult S)) → Perm (in_memory n rs) rs)
      (a_query : (n : ℕ) (rs : List (ProviderResult S)) → Perm (in_tables n rs) rs) where
    reordered-Same :
        (n : ℕ) (a : Answer S) → Same (reordered (in_tables n) a) (reordered (in_memory n) a)
    reordered-Same n (some_results rs) = inr (
      in_tables n rs,
      in_memory n rs,
      refl,
      refl,
      Perm.trans (a_query n rs) (Perm.symm (a_range n rs)),
    )
    reordered-Same n _ = inl refl

    answers-follow :
        (cs : List (Call S)) (q : SqlStore B) (m : MemoryStore S)
        → Mirrors json q m
        → AllAllowed cs m
        → AllSame (answers_in_tables before json in_tables cs q) (answers_in_memory in_memory cs m)
    unfolding answers_in_tables answers_in_memory
    answers-follow [] q m h a = tt
    answers-follow (c ∷ cs) q m h a = (
      subst
          (λ x.
            Same (reordered (in_tables (length cs)) x)
              (reordered (in_memory (length cs)) (on_memory c m).1))
          (sym (step-answer c q m h a.0)) (reordered-Same (length cs) (on_memory c m).1),
      answers-follow cs (on_tables before json c q).0 (on_memory c m).0
          (step-Mirrors before chronological json law c q m h a.0) a.1,
    )

    -- From an empty store on, every sequence of calls of the store and of its job queue gets the same
    -- answers from SQL tables as from memory, call by call, but that the results of a submission may
    -- come in any order from either; of the calls of the queue a claim and a count are answered here,
    -- and of the others only the effect is compared. It is assumed that a document is read back as the
    -- value it was written from, that the texts of whole seconds before the year 10000 sort as the
    -- times do, that the queue is used at such times only and no two jobs enter it at one time, that
    -- no submission is created under a key that leads to one that is gone, and that capabilities are
    -- snapshotted of registered providers only.
    pub answers-refine :
        (cs : List (Call S))
        → AllAllowed cs new_memory_store
        → AllSame
            (answers_in_tables before json in_tables cs new_sql_store)
            (answers_in_memory in_memory cs new_memory_store)
    answers-refine cs a = answers-follow cs new_sql_store new_memory_store new-Mirrors a
