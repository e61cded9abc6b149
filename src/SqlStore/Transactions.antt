-- ===== src/SqlStore/Transactions.antt =====
-- internal/store/sql_ops.go: the transactions on one submission keep the tables in step with the
-- maps of the in-memory store.
use scintx.Base.{
  String, true, Option, none, some, lookup, insert, delete, lookup-delete, delete-missing, ◌==◌,
  ◌≡◌, refl, ap, ◌∙◌, arith, Bool-cases, Option-cases, inl, inr,
}
use scintx.Api.{Submission, SubmissionStatus, CompletionReason}
use scintx.Store.{
  MemoryStore, StoreError, clone, clone_option, or_empty, is_accepted, is_deferred, is_running,
}
use scintx.Store
use scintx.Jobs.Invariant.{delete-IsValid}
use scintx.SqlQueue.Abstraction.{jobs_of, delete-jobs_of, delete-AllTimed}
use scintx.SqlStore.{Codecs, SqlStore, SqlError, abandon_submission, claim_resume, release_resume}
use scintx.SqlStore.Laws.{Faithful}
use scintx.SqlStore.Tables.{
  rows_of, insert-rows_of, delete-rows_of, key_rows, key_row_of, delete-key_rows, Mirrors,
}
use scintx.SqlStore.Creation.{fetched, fetch_lem, key_lem}

abbrev pub error_of : Option StoreError → Option SqlError
error_of none = none
error_of (some e) = some (SqlError.store_error e)

module _ {S B : Type 0} (json : Codecs S B) where
  free_key-Mirrors :
      (key : String) (q : SqlStore B) (m : MemoryStore S)
      → Mirrors json q m
      → Mirrors json
          (record q { idempotency = delete key q.idempotency })
          (record m { idempotency = delete key m.idempotency; idem_hash = delete key m.idem_hash })
  free_key-Mirrors key q m h =
      let keyed : delete key q.idempotency
          ≡ key_rows (delete key m.idempotency) (delete key m.idem_hash) =
        rw h.idempotency (delete-key_rows key m.idempotency m.idem_hash) in
      let unbound : (k : String)
          → lookup k (delete key m.idempotency) ≡ none
          → lookup k (delete key m.idem_hash) ≡ none =
        λ k n. ground (
          arith,
          lookup-delete key k m.idempotency,
          lookup-delete key k m.idem_hash,
          h.unbound k,
        ) in
      ground (arith, h, keyed, unbound)

  drop-Mirrors :
      (id : String) (q : SqlStore B) (m : MemoryStore S)
      → Mirrors json q m
      → Mirrors json
          (record q { submissions = delete id q.submissions; jobs = delete id q.jobs })
          (record m { submissions = delete id m.submissions; jobs = delete id m.jobs })
  drop-Mirrors id q m h =
      let rows : delete id q.submissions
          ≡ rows_of json.submission.encode (delete id m.submissions) =
        rw h.submissions (delete-rows_of json.submission.encode id m.submissions) in
      let jobs : jobs_of (delete id q.jobs) ≡ delete id m.jobs =
        delete-jobs_of id q.jobs ∙ ap (delete id) h.jobs in
      let timed = delete-AllTimed id q.jobs h.timed in
      let valid = delete-IsValid id m.jobs h.valid in ground (arith, h, rows, jobs, timed, valid)

  module _ (law : Faithful json) (q : SqlStore B) (m : MemoryStore S) (h : Mirrors json q m) where
    abandon_accepted :
        (id key : String) (sub : Submission)
        → lookup id m.submissions ≡ some sub
        → is_accepted sub.status ≡ true
        → Mirrors json (abandon_submission json id key q).0 (Store.abandon_submission id key m).0
    unfolding abandon_submission Store.abandon_submission clone
    abandon_accepted id key sub e a = elim (Bool-cases (key == "")) [
      | inl k ↦
          rw (fetch_lem json law q m h id, e, Store.abandon_submission, k, a)
            (drop-Mirrors id q m h)
      | inr k ↦ elim (Option-cases (lookup key m.idempotency)) [
        | inl n ↦
            let hashless = delete-missing key m.idem_hash (h.unbound key n) in
            let keyless = delete-missing key m.idempotency n in
            let row = key_lem json law q m h key ∙ ap (key_row_of key m.idem_hash) n in
            elim (Bool-cases ("" == id)) [
              | inl z ↦
                  rw
                    (
                      fetch_lem json law q m h id,
                      e,
                      Store.abandon_submission,
                      k,
                      a,
                      row,
                      n,
                      z,
                      Store.abandon_submission,
                      keyless,
                      hashless,
                    )
                    (drop-Mirrors id q m h)
              | inr z ↦
                  rw (fetch_lem json law q m h id, e, Store.abandon_submission, k, a, row, n, z)
                    (drop-Mirrors id q m h)
            ]
        | inr (bound, b) ↦
            let row = key_lem json law q m h key ∙ ap (key_row_of key m.idem_hash) b in
            elim (Bool-cases (bound == id)) [
              | inl z ↦
                  rw (fetch_lem json law q m h id, e, Store.abandon_submission, k, a, row, b, z)
                    (free_key-Mirrors key
                      (record q { submissions = delete id q.submissions; jobs = delete id q.jobs })
                      (record m { submissions = delete id m.submissions; jobs = delete id m.jobs })
                      (drop-Mirrors id q m h))
              | inr z ↦
                  rw (fetch_lem json law q m h id, e, Store.abandon_submission, k, a, row, b, z)
                    (drop-Mirrors id q m h)
            ]
      ]
    ]

    pub abandon_submission-Mirrors :
        (id key : String)
        → Mirrors json (abandon_submission json id key q).0 (Store.abandon_submission id key m).0
    unfolding abandon_submission Store.abandon_submission clone
    abandon_submission-Mirrors id key = elim (Option-cases (lookup id m.submissions)) [
      | inl e ↦ rw (fetch_lem json law q m h id, e, Store.abandon_submission) h
      | inr (sub, e) ↦ elim (Bool-cases (is_accepted sub.status)) [
        | inl a ↦ abandon_accepted id key sub e a
        | inr a ↦ rw (fetch_lem json law q m h id, e, Store.abandon_submission, a) h
      ]
    ]

    pub abandon_submission-answer :
        (id key : String)
        → (abandon_submission json id key q).1 ≡ error_of (Store.abandon_submission id key m).1
    unfolding abandon_submission Store.abandon_submission clone
    abandon_submission-answer id key = elim (Option-cases (lookup id m.submissions)) [
      | inl e ↦ rw (fetch_lem json law q m h id, e, Store.abandon_submission) refl
      | inr (sub, e) ↦ elim (Bool-cases (is_accepted sub.status)) [
        | inl a ↦ rw (fetch_lem json law q m h id, e, Store.abandon_submission, a) refl
        | inr a ↦ rw (fetch_lem json law q m h id, e, Store.abandon_submission, a) refl
      ]
    ]

    -- UPDATE submissions SET body = ?, where the row was read before.
    rewrite_body :
        (id : String) (sub : Submission)
        → Mirrors json
            (record q {
              submissions = insert id (json.submission.encode (clone sub)) q.submissions;
            })
            (record m { submissions = insert id sub m.submissions })
    rewrite_body id sub =
        let rows : insert id (json.submission.encode (clone sub)) q.submissions
            ≡ rows_of json.submission.encode (insert id sub m.submissions) =
          rw (h.submissions, law.not_serialised sub)
            (insert-rows_of json.submission.encode id sub m.submissions) in
        ground (arith, h, rows)

    pub claim_resume-Mirrors :
        (id : String) → Mirrors json (claim_resume json id q).0 (Store.claim_resume id m).0
    unfolding claim_resume Store.claim_resume clone
    claim_resume-Mirrors id = elim (Option-cases (lookup id m.submissions)) [
      | inl e ↦ rw (fetch_lem json law q m h id, e, Store.claim_resume) h
      | inr (sub, e) ↦ elim (Bool-cases (is_deferred sub.status)) [
        | inl a ↦
            rw (fetch_lem json law q m h id, e, Store.claim_resume, a)
              (rewrite_body id (record sub { status = SubmissionStatus.running }))
        | inr a ↦ rw (fetch_lem json law q m h id, e, Store.claim_resume, a) h
      ]
    ]

    pub claim_resume-answer :
        (id : String) → (claim_resume json id q).1 ≡ fetched (Store.claim_resume id m).1
    unfolding claim_resume Store.claim_resume clone
    claim_resume-answer id = elim (Option-cases (lookup id m.submissions)) [
      | inl e ↦ rw (fetch_lem json law q m h id, e, Store.claim_resume) refl
      | inr (sub, e) ↦ elim (Bool-cases (is_deferred sub.status)) [
        | inl a ↦ rw (fetch_lem json law q m h id, e, Store.claim_resume, a) refl
        | inr a ↦ rw (fetch_lem json law q m h id, e, Store.claim_resume, a) refl
      ]
    ]

    pub release_resume-Mirrors :
        (id : String) → Mirrors json (release_resume json id q).0 (Store.release_resume id m)
    unfolding release_resume Store.release_resume clone
    release_resume-Mirrors id = elim (Option-cases (lookup id m.submissions)) [
      | inl e ↦ rw (fetch_lem json law q m h id, e, Store.release_resume) h
      | inr (sub, e) ↦ elim (Bool-cases (is_running sub.status)) [
        | inl a ↦
            rw (fetch_lem json law q m h id, e, Store.release_resume, a)
              (rewrite_body id (record sub {
                status = SubmissionStatus.deferred;
                completion_reason = some CompletionReason.deferred;
                completed_at = none;
              }))
        | inr a ↦ rw (fetch_lem json law q m h id, e, Store.release_resume, a) h
      ]
    ]

    pub release_resume-answer : (id : String) → (release_resume json id q).1 ≡ none
    unfolding release_resume clone
    release_resume-answer id = elim (Option-cases (lookup id m.submissions)) [
      | inl e ↦ rw (fetch_lem json law q m h id, e) refl
      | inr (sub, e) ↦ rw (fetch_lem json law q m h id, e) (ground arith)
    ]
