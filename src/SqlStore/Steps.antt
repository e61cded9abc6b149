-- ===== src/SqlStore/Steps.antt =====
-- Every call of internal/store/sql_ops.go and job_queue.go keeps the tables in step with the maps of
-- internal/scintx/memory_store.go.
use scintx.Base.{Bool, ◌≡◌, sym, ap, ◌∙◌, subst, arith}
use scintx.Api.{Time}
use scintx.Jobs.Invariant.{Call as QueueCall, perform, perform-IsValid, claims, IsValid}
use scintx.SqlQueue.{perform_row}
use scintx.SqlQueue.Abstraction.{jobs_of, Chronological}
use scintx.SqlQueue.Refines.{PlainCall, perform_row-AllTimed, perform_row-jobs_of}
use scintx.Store.{MemoryStore}
use scintx.SqlStore.{Codecs, SqlStore}
use scintx.SqlStore.Laws.{Faithful}
use scintx.SqlStore.Tables.{Mirrors}
use scintx.SqlStore.Creation.{
  put_submission-Mirrors, put_submission_idempotent-Mirrors, remember_idempotency_key-Mirrors,
}
use scintx.SqlStore.Transactions
use scintx.SqlStore.Transactions.{error_of}
use scintx.SqlStore.Listing
use scintx.SqlStore.Calls.{
  Call, puts, gets, creates, remembers, abandons, claims_resume, releases_resume, gets_by_key,
  puts_result, gets_result, gets_results, puts_merged, gets_merged, puts_decision, gets_decision,
  appends, lists_events, puts_artifact, has_artifact, gets_artifact, registers, lists_providers,
  gets_capabilities, snapshots, queues, claims_job, counts_jobs, on_memory, on_tables, Allowed,
}

module _ {S B : Type 0} (before : Time → Time → Bool) (chronological : Chronological before)
    (json : Codecs S B) (law : Faithful json) where
  queue-Mirrors :
      (c : QueueCall) (q : SqlStore B) (m : MemoryStore S)
      → PlainCall c
      → Mirrors json q m
      → Mirrors json
          (record q { jobs = perform_row before c q.jobs })
          (record m { jobs = perform c m.jobs })
  queue-Mirrors c q m w h =
      let valid : IsValid (jobs_of q.jobs) = subst IsValid (sym h.jobs) h.valid in
      let jobs : jobs_of (perform_row before c q.jobs) ≡ perform c m.jobs =
        perform_row-jobs_of before chronological c q.jobs w h.timed valid ∙ ap (perform c) h.jobs in
      let timed = perform_row-AllTimed before chronological c q.jobs w h.timed in
      let kept = perform-IsValid c m.jobs h.valid in ground (arith, h, jobs, timed, kept)

  pub step-Mirrors :
      (c : Call S) (q : SqlStore B) (m : MemoryStore S)
      → Mirrors json q m
      → Allowed c m
      → Mirrors json (on_tables before json c q).0 (on_memory c m).0
  unfolding perform perform_row
  step-Mirrors (puts sub) q m h a = put_submission-Mirrors json law q m h sub
  step-Mirrors (gets id) q m h a = h
  step-Mirrors (creates key hash sub) q m h a =
      put_submission_idempotent-Mirrors json law q m h key hash sub a
  step-Mirrors (remembers key id) q m h a = remember_idempotency_key-Mirrors json law q m h key id
  step-Mirrors (abandons id key) q m h a =
      Transactions.abandon_submission-Mirrors json law q m h id key
  step-Mirrors (claims_resume id) q m h a = Transactions.claim_resume-Mirrors json law q m h id
  step-Mirrors (releases_resume id) q m h a = Transactions.release_resume-Mirrors json law q m h id
  step-Mirrors (gets_by_key key) q m h a = h
  step-Mirrors (puts_result r) q m h a = Listing.put_result-Mirrors json law q m h r
  step-Mirrors (gets_result id) q m h a = h
  step-Mirrors (gets_results id) q m h a = h
  step-Mirrors (puts_merged r) q m h a = Listing.put_merged_result-Mirrors json law q m h r
  step-Mirrors (gets_merged id) q m h a = h
  step-Mirrors (puts_decision d) q m h a = Listing.put_decision-Mirrors json law q m h d
  step-Mirrors (gets_decision id) q m h a = h
  step-Mirrors (appends e) q m h a = Listing.append_event-Mirrors json law q m h e
  step-Mirrors lists_events q m h a = h
  step-Mirrors (puts_artifact digest content) q m h a =
      Listing.put_artifact-Mirrors json law q m h digest content
  step-Mirrors (has_artifact digest) q m h a = h
  step-Mirrors (gets_artifact digest) q m h a = h
  step-Mirrors (registers p) q m h a = Listing.register_provider-Mirrors json law q m h p
  step-Mirrors lists_providers q m h a = h
  step-Mirrors (gets_capabilities id) q m h a = h
  step-Mirrors (snapshots id caps) q m h a =
      Listing.snapshot_capabilities-Mirrors json law q m h id caps a
  step-Mirrors (queues c) q m h a = queue-Mirrors c q m a.0 h
  step-Mirrors (claims_job now owner lease) q m h a = queue-Mirrors (claims now owner lease) q m a h
  step-Mirrors counts_jobs q m h a = h
