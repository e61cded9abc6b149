-- ===== src/SqlStore/Calls.antt =====
-- The calls of the interface of internal/scintx/store.go, on the store in memory and on the one of
-- internal/store/sql_ops.go and job_queue.go.
use scintx.Base.{ℕ, String, Bool, Option, none, some, List, [], ◌∷◌, lookup, All, length, ◌≢◌}
use scintx.Api.{
  Submission, ProviderResult, MergedResult, PolicyDecision, CloudEvent, ProviderCapabilities, Time,
  Duration,
}
use scintx.Jobs.{Jobs, Claim, claim_job, pending_job_count}
use scintx.Jobs.Invariant.{Call as QueueCall, enqueues, claims, perform}
use scintx.SqlQueue.Refines.{PlainCall}
use scintx.SqlQueue.{claim_row, perform_row, pending_row_count}
use scintx.Store.{MemoryStore, StoreError, Stored, ProviderEntry, new_memory_store}
use scintx.Store
use scintx.Store.Records as Kept
use scintx.SqlStore
use scintx.SqlStore.{
  Codecs, SqlStore, SqlError, Fetched, found, missing, unreadable, fetch, decoded, Put,
  new_sql_store,
}
use scintx.SqlStore.Records
use scintx.SqlStore.Tables.{caps_in}
use scintx.SqlStore.Creation.{Live}

-- One call of the interface of internal/scintx/store.go.
pub data Call (S : Type 0) : Type 0 where
  puts : Option Submission → Call S
  gets : String → Call S
  creates : String → String → Option Submission → Call S
  remembers abandons : String → String → Call S
  claims_resume releases_resume gets_by_key : String → Call S
  puts_result : Option (ProviderResult S) → Call S
  gets_result gets_results : String → Call S
  puts_merged : Option (MergedResult S) → Call S
  gets_merged : String → Call S
  puts_decision : Option (PolicyDecision S) → Call S
  gets_decision : String → Call S
  appends : CloudEvent → Call S
  lists_events : Call S
  puts_artifact : String → List ℕ → Call S
  has_artifact gets_artifact : String → Call S
  registers : ProviderEntry → Call S
  lists_providers : Call S
  gets_capabilities : String → Call S
  snapshots : String → ProviderCapabilities → Call S
  queues : QueueCall → Call S
  claims_job : Time → String → Duration → Call S
  counts_jobs : Call S

-- What a caller gets; `unexpected` is an error that only the SQL store has.
pub data Answer (S : Type 0) : Type 0 where
  done : Answer S
  a_submission : Option Submission → Answer S
  stored : Stored → Answer S
  refusal : Option StoreError → Answer S
  a_result : Option (ProviderResult S) → Answer S
  some_results : List (ProviderResult S) → Answer S
  a_merged : Option (MergedResult S) → Answer S
  a_decision : Option (PolicyDecision S) → Answer S
  some_events : List CloudEvent → Answer S
  yes_or_no : Bool → Answer S
  bytes : Option (List ℕ) → Answer S
  some_providers : List ProviderEntry → Answer S
  some_capabilities : Option ProviderCapabilities → Answer S
  a_claim : Claim → Answer S
  a_count : ℕ → Answer S
  unexpected : SqlError → Answer S

-- The orders in which a store lists the results of a submission. It may differ from call to call: it
-- is given for the number of calls that follow.
abbrev pub Orders : Type 0 → Type 0
Orders S = ℕ → List (ProviderResult S) → List (ProviderResult S)

-- No other job was queued at the time of the call.
abbrev pub Untied : QueueCall → Jobs → Type 0
Untied (enqueues now id) jobs = All (λ e. e.1.created_at ≢ now) jobs
Untied _ jobs = Unit

module _ {S : Type 0} where
  abbrev pub answer_of : {A : Type 0} → (Option A → Answer S) → Fetched A → Answer S
  answer_of f (found a) = f (some a)
  answer_of f missing = f none
  answer_of f unreadable = unexpected SqlError.bad_document

  abbrev pub listing_of : {A : Type 0} → (List A → Answer S) → Fetched (List A) → Answer S
  listing_of f (found items) = f items
  listing_of f missing = unexpected SqlError.no_rows
  listing_of f unreadable = unexpected SqlError.bad_document

  abbrev pub refusal_of : Option SqlError → Answer S
  refusal_of none = refusal none
  refusal_of (some (SqlError.store_error e)) = refusal (some e)
  refusal_of (some e) = unexpected e

  abbrev pub stored_of : Put → Answer S
  stored_of Put.ignored = stored Stored.ignored
  stored_of (Put.rejected (SqlError.store_error e)) = stored (Stored.refused e)
  stored_of (Put.rejected e) = unexpected e
  stored_of (Put.replayed sub) = stored (Stored.replayed sub)
  stored_of (Put.created sub) = stored (Stored.created sub)

  -- A call on the store in memory.
  abbrev pub on_memory : Call S → MemoryStore S → MemoryStore S × Answer S
  on_memory (puts sub) m = (Store.put_submission sub m, done)
  on_memory (gets id) m = (m, a_submission (Store.get_submission id m))
  on_memory (creates key hash sub) m =
      let (m', put) = Store.put_submission_idempotent key hash sub m in (m', stored put)
  on_memory (remembers key id) m = (Store.remember_idempotency_key key id m, done)
  on_memory (abandons id key) m = let (m', e) = Store.abandon_submission id key m in (m', refusal e)
  on_memory (claims_resume id) m = let (m', sub) = Store.claim_resume id m in (m', a_submission sub)
  on_memory (releases_resume id) m = (Store.release_resume id m, refusal none)
  on_memory (gets_by_key key) m = (m, a_submission (Store.get_submission_by_key key m))
  on_memory (puts_result r) m = (Kept.put_result r m, done)
  on_memory (gets_result id) m = (m, a_result (Kept.get_result id m))
  on_memory (gets_results id) m = (m, some_results (Kept.get_results_for_submission id m))
  on_memory (puts_merged r) m = (Kept.put_merged_result r m, done)
  on_memory (gets_merged id) m = (m, a_merged (Kept.get_merged_result_for_submission id m))
  on_memory (puts_decision d) m = (Kept.put_decision d m, done)
  on_memory (gets_decision id) m = (m, a_decision (Kept.get_decision id m))
  on_memory (appends e) m = (Kept.append_event e m, done)
  on_memory lists_events m = (m, some_events (Kept.all_events m))
  on_memory (puts_artifact digest content) m = (Kept.put_artifact digest content m, done)
  on_memory (has_artifact digest) m = (m, yes_or_no (Kept.has_artifact digest m))
  on_memory (gets_artifact digest) m = (m, bytes (Kept.get_artifact digest m))
  on_memory (registers p) m = (Kept.register_provider p m, done)
  on_memory lists_providers m = (m, some_providers (Kept.all_providers m))
  on_memory (gets_capabilities id) m = (m, some_capabilities (Kept.get_capabilities id m))
  on_memory (snapshots id caps) m = (Kept.snapshot_capabilities id caps m, refusal none)
  on_memory (queues c) m = (record m { jobs = perform c m.jobs }, done)
  on_memory (claims_job now owner lease) m =
      let (jobs, claim) = claim_job now owner lease m.jobs in
      (record m { jobs = jobs }, a_claim claim)
  on_memory counts_jobs m = (m, a_count (pending_job_count m.jobs))

  -- A key leads to a submission that is stored, a snapshot is taken of a registered provider, the
  -- times of the queue are plain and no two jobs are queued at one of them: the two stores may differ
  -- elsewhere.
  abbrev pub Allowed : Call S → MemoryStore S → Type 0
  Allowed (creates key hash sub) m = Live (lookup key m.idempotency) m
  Allowed (snapshots id caps) m = caps_in id m.providers ≢ none
  Allowed (queues c) m = PlainCall c × Untied c m.jobs
  Allowed (claims_job now owner lease) m = PlainCall (claims now owner lease)
  Allowed _ m = Unit

  abbrev pub AllAllowed : List (Call S) → MemoryStore S → Type 0
  AllAllowed [] m = Unit
  AllAllowed (c ∷ cs) m = Allowed c m × AllAllowed cs (on_memory c m).0

  -- The results of a submission come in any order: Go ranges over a map, and the query names none.
  abbrev pub reordered : (List (ProviderResult S) → List (ProviderResult S)) → Answer S → Answer S
  reordered order (some_results rs) = some_results (order rs)
  reordered order a = a

  unfoldable pub answers_in_memory : Orders S → List (Call S) → MemoryStore S → List (Answer S)
  answers_in_memory orders [] m = []
  answers_in_memory orders (c ∷ cs) m =
      reordered (orders (length cs)) (on_memory c m).1
      ∷ answers_in_memory orders cs (on_memory c m).0

module _ {S B : Type 0} (before : Time → Time → Bool) (json : Codecs S B) where
  -- A call on the tables.
  abbrev pub on_tables : Call S → SqlStore B → SqlStore B × Answer S
  on_tables (puts sub) q = (SqlStore.put_submission json sub q, done)
  on_tables (gets id) q = (q, answer_of a_submission (SqlStore.get_submission json id q))
  on_tables (creates key hash sub) q =
      let (q', put) = SqlStore.put_submission_idempotent json (λ t. t) key hash sub q in
      (q', stored_of put)
  on_tables (remembers key id) q = (SqlStore.remember_idempotency_key json key id q, done)
  on_tables (abandons id key) q =
      let (q', e) = SqlStore.abandon_submission json id key q in (q', refusal_of e)
  on_tables (claims_resume id) q =
      let (q', sub) = SqlStore.claim_resume json id q in (q', answer_of a_submission sub)
  on_tables (releases_resume id) q =
      let (q', e) = SqlStore.release_resume json id q in (q', refusal_of e)
  on_tables (gets_by_key key) q =
      (q, answer_of a_submission (SqlStore.get_submission_by_key json key q))
  on_tables (puts_result r) q = (Records.put_result json r q, done)
  on_tables (gets_result id) q = (q, answer_of a_result (Records.get_result json id q))
  on_tables (gets_results id) q =
      (q, listing_of some_results (Records.get_results_for_submission json id q))
  on_tables (puts_merged r) q = (Records.put_merged_result json r q, done)
  on_tables (gets_merged id) q =
      (q, answer_of a_merged (Records.get_merged_result_for_submission json id q))
  on_tables (puts_decision d) q = (Records.put_decision json d q, done)
  on_tables (gets_decision id) q = (q, answer_of a_decision (Records.get_decision json id q))
  on_tables (appends e) q = (Records.append_event json e q, done)
  on_tables lists_events q = (q, listing_of some_events (Records.all_events json q))
  on_tables (puts_artifact digest content) q = (Records.put_artifact json digest content q, done)
  on_tables (has_artifact digest) q = (q, yes_or_no (Records.has_artifact json digest q))
  on_tables (gets_artifact digest) q = (q, bytes (Records.get_artifact json digest q))
  on_tables (registers p) q = (Records.register_provider json p q, done)
  on_tables lists_providers q = (q, listing_of some_providers (Records.all_providers json q))
  on_tables (gets_capabilities id) q =
      (q, answer_of some_capabilities (Records.get_capabilities json id q))
  on_tables (snapshots id caps) q =
      let (q', e) = Records.snapshot_capabilities json id caps q in (q', refusal_of e)
  on_tables (queues c) q = (record q { jobs = perform_row before c q.jobs }, done)
  on_tables (claims_job now owner lease) q =
      let (jobs, claim) = claim_row before now owner lease q.jobs in
      (record q { jobs = jobs }, a_claim claim)
  on_tables counts_jobs q = (q, a_count (pending_row_count q.jobs))

  unfoldable pub answers_in_tables : Orders S → List (Call S) → SqlStore B → List (Answer S)
  answers_in_tables orders [] q = []
  answers_in_tables orders (c ∷ cs) q =
      reordered (orders (length cs)) (on_tables c q).1
      ∷ answers_in_tables orders cs (on_tables c q).0
