-- ===== src/Tests/Storing.antt =====
-- The store, at concrete submissions.
use scintx.Base.{ℕ, String, none, some, List, [], ◌⊎◌, ◌∷◌, lookup, ◌≡◌, ◌≢◌, eq_iff, refl, arith}
use scintx.Api.{Submission, SubmissionStatus, CompletionReason}
use scintx.Tests.Samples.{submission}
use scintx.Store.{
  MemoryStore, new_memory_store, StoreError, refused, replayed, created, clone,
  put_submission_idempotent, claim_resume, release_resume,
}
use scintx.Store.Idempotency.{Creation, create_all, put_submission_idempotent-once}
use scintx.Store.Resume.{claim_resume-once}

abbrev empty : MemoryStore ℕ
empty = new_memory_store

abbrev key : String
key = "key"

key-named : key ≢ ""
key-named e = ground (arith, eq_iff "key" "")

key-free : lookup "key" empty.idempotency ≡ none
unfolding lookup
key-free = refl

-- Another client creates a submission under a key of its own, between the two.
abbrev in_between : List Creation
in_between = ("other", "h3", record submission { id = "sub_2" }) ∷ []

two_ids : "sub_2" ≢ submission.id
two_ids e = ground (arith, eq_iff "sub_2" "sub_1")

abbrev h1 : String
h1 = "h1"

abbrev h2 : String
h2 = "h2"

put_submission_idempotent-once_example :
    let later = create_all (("key", h1, submission) ∷ in_between) empty in
    let retry =
      put_submission_idempotent "key" h2 (some (record submission { id = "sub_3" })) later in
    ((put_submission_idempotent "key" h1 (some submission) empty).1 ≡ created (clone submission))
    × (((h1 ≡ h2) ⊎ ((h1 ≡ "") ⊎ (h2 ≡ ""))) → retry ≡ (later, replayed (clone submission)))
    × (h1 ≢ "" → h2 ≢ "" → h1 ≢ h2 → retry ≡ (later, refused StoreError.idempotency_conflict))
put_submission_idempotent-once_example =
    put_submission_idempotent-once "key" h1 h2 submission (record submission { id = "sub_3" })
      in_between empty key-named key-free (two_ids, tt)

abbrev paused : Submission
paused = record submission { status = SubmissionStatus.deferred }

abbrev waiting : MemoryStore ℕ
waiting = record empty { submissions = ("sub_1", paused) ∷ [] }

paused-lookup : lookup "sub_1" waiting.submissions ≡ some paused
unfolding lookup
paused-lookup = refl

claim_resume-once_example :
    let s' = (claim_resume "sub_1" waiting).0 in
    ((claim_resume "sub_1" waiting).1
      ≡ some (clone (record paused { status = SubmissionStatus.running })))
    × (claim_resume "sub_1" s' ≡ (s', none))
    × (lookup "sub_1" (release_resume "sub_1" s').submissions
        ≡ some (record paused {
          status = SubmissionStatus.deferred;
          completion_reason = some CompletionReason.deferred;
          completed_at = none;
        }))
claim_resume-once_example = claim_resume-once "sub_1" paused waiting paused-lookup refl
