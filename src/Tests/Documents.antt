-- ===== src/Tests/Documents.antt =====
-- The store on SQL tables, with documents that keep the value they were written from.
use scintx.Base.{
  ℕ, String, Option, none, some, List, [], ◌∷◌, lookup, insert, ltb, eq_iff, ◌≡◌, ◌≢◌, refl, arith,
  if◌then◌else◌,
}
use mathlib.Core.List.{reverse, reverse_perm}
use mathlib.Core.List.Perm
use scintx.Api.{
  Submission, ProviderResult, MergedResult, PolicyDecision, CloudEvent, ProviderCapabilities,
  Duration,
}
use scintx.Store.{StoreError, clone, new_memory_store}
use scintx.Store
use scintx.SqlStore.{
  Codecs, SqlError, KeyRow, Put, conflicts, new_sql_store, put_submission_idempotent,
}
use scintx.SqlStore.Laws.{Faithful}
use scintx.SqlStore.Calls.{
  Call, creates, gets_by_key, abandons, queues, claims_job, gets_results, counts_jobs, AllAllowed,
  Orders, answers_in_tables, answers_in_memory,
}
use scintx.SqlStore.Refines.{AllSame, answers-refine}
use scintx.SqlStore.Race.{committed, put_submission_idempotent-race}
use scintx.Jobs.{lease_or_default}
use scintx.Jobs.Invariant.{enqueues}
use scintx.Tests.Samples.{submission}

data Document : Type 0 where
  of_submission : Submission → Document
  of_result : ProviderResult ℕ → Document
  of_merged : MergedResult ℕ → Document
  of_decision : PolicyDecision ℕ → Document
  of_event : CloudEvent → Document
  of_capabilities : ProviderCapabilities → Document

abbrev to_submission : Document → Option Submission
to_submission (of_submission s) = some s
to_submission d = none

abbrev to_result : Document → Option (ProviderResult ℕ)
to_result (of_result r) = some r
to_result d = none

abbrev to_merged : Document → Option (MergedResult ℕ)
to_merged (of_merged r) = some r
to_merged d = none

abbrev to_decision : Document → Option (PolicyDecision ℕ)
to_decision (of_decision r) = some r
to_decision d = none

abbrev to_event : Document → Option CloudEvent
to_event (of_event r) = some r
to_event d = none

abbrev to_capabilities : Document → Option ProviderCapabilities
to_capabilities (of_capabilities r) = some r
to_capabilities d = none

abbrev documents : Codecs ℕ Document
documents = record {
  submission = record { encode = λ s. of_submission (clone s); decode = to_submission };
  result = record { encode = of_result; decode = to_result };
  merged_result = record { encode = of_merged; decode = to_merged };
  decision = record { encode = of_decision; decode = to_decision };
  event = record { encode = of_event; decode = to_event };
  capabilities = record { encode = of_capabilities; decode = to_capabilities };
}

documents-Faithful : Faithful documents
unfolding clone
documents-Faithful = record {
  submission = λ s. refl;
  not_serialised = λ s. refl;
  result = λ r. refl;
  merged_result = λ r. refl;
  decision = λ d. refl;
  event = λ e. refl;
  capabilities = λ c. refl;
}

-- Another request under the same key.
abbrev second : Submission
second = record submission { id = "sub_2" }

-- A submission that is created, replayed, enqueued, claimed and given up.
abbrev calls : List (Call ℕ)
calls =
    creates "key" "hash" (some submission)
    ∷ creates "key" "hash" (some second)
    ∷ queues (enqueues 1_000_000_000 "sub_1")
    ∷ claims_job 2_000_000_000 "w1" (Duration.ahead 60_000_000_000)
    ∷ gets_results "sub_1"
    ∷ abandons "sub_1" "key"
    ∷ gets_by_key "key"
    ∷ counts_jobs
    ∷ []

calls-AllAllowed : AllAllowed calls new_memory_store
unfolding lookup insert Store.put_submission_idempotent lease_or_default
calls-AllAllowed = (tt, ((λ e. cc), ((refl, tt), ((refl, refl), (tt, (tt, (tt, (tt, tt))))))))

-- The one store lists results as they came, the other backwards.
abbrev as_stored : Orders ℕ
as_stored n rs = rs

abbrev backwards : Orders ℕ
backwards n rs = reverse rs

answers-refine_example :
    AllSame
      (answers_in_tables ltb documents backwards calls new_sql_store)
      (answers_in_memory as_stored calls new_memory_store)
answers-refine_example =
    answers-refine ltb (λ a b p q. refl) documents documents-Faithful as_stored backwards
      (λ n rs. Perm.refl rs) (λ n rs. reverse_perm rs) calls calls-AllAllowed

second-differs : second.id ≢ submission.id
second-differs e = ground (arith, eq_iff "sub_2" "sub_1")

key_given : ◌≢◌ {A = String} "key" ""
key_given e = ground (arith, eq_iff "key" "")

nothing_bound : lookup {V = KeyRow} "key" [] ≡ none
unfolding lookup
nothing_bound = refl

nothing_stored : lookup {V = Document} "sub_2" [] ≡ none
unfolding lookup
nothing_stored = refl

put_submission_idempotent-race_example :
    let out =
      put_submission_idempotent documents
        (committed documents "key" "hash" submission)
        "key"
        "other"
        (some second)
        new_sql_store in
    (lookup "sub_2" out.0.submissions ≡ none)
    × (lookup "sub_1" out.0.submissions ≡ some (of_submission (clone submission)))
    × (lookup "key" out.0.idempotency
        ≡ some (record { submission_id = "sub_1"; request_hash = "hash" }))
    × (out.1 ≡ (
        if conflicts "hash" "other"
        then Put.rejected (SqlError.store_error StoreError.idempotency_conflict)
        else Put.replayed (clone submission)))
put_submission_idempotent-race_example =
    put_submission_idempotent-race documents documents-Faithful "key" "other" "hash" second
      submission new_sql_store key_given second-differs nothing_bound nothing_stored
