-- ===== src/SqlStore.antt =====
-- internal/store/sql_ops.go: the store on SQL tables. A table is an association list under its
-- primary key, and an upsert replaces the row in place. A value is kept as a document of a type `B`,
-- which encoding/json writes and reads (`Codecs`). A statement of the database reports no
-- error; a transaction is one step, but for what others commit while a submission is created.
pub mod Records
pub mod Laws
pub mod Tables
pub mod Creation
pub mod Transactions
pub mod Providers
pub mod Listing
pub mod Calls
pub mod Steps
pub mod Refines
pub mod Race
use scintx.Base.{
  ℕ, String, Bool, true, false, not, ◌&&◌, Option, none, some, List, [], ◌∷◌, Map, lookup, insert,
  delete, ◌==◌, if◌then◌else◌,
}
use scintx.Api.{
  Submission, SubmissionStatus, CompletionReason, ProviderResult, MergedResult, PolicyDecision,
  CloudEvent, ProviderCapabilities,
}
use scintx.Store.{StoreError, clone, is_accepted, is_deferred, is_running}
use scintx.SqlQueue.{Table, delete_row}

-- json.Marshal and json.Unmarshal at one type.
pub record Codec (A B : Type 0) : Type 0 where
  pub encode : A → B
  pub decode : B → Option A

pub record Codecs (S B : Type 0) : Type 0 where
  pub submission : Codec Submission B
  pub result : Codec (ProviderResult S) B
  pub merged_result : Codec (MergedResult S) B
  pub decision : Codec (PolicyDecision S) B
  pub event : Codec CloudEvent B
  pub capabilities : Codec ProviderCapabilities B

-- A row of the table idempotency, of results and of providers.
pub record KeyRow : Type 0 where
  pub submission_id : String
  pub request_hash : String

pub record ResultRow (B : Type 0) : Type 0 where
  pub submission_id : String
  pub body : B

pub record ProviderRow (B : Type 0) : Type 0 where
  pub name : String
  pub capabilities : B
  pub sort_order : ℕ

pub record SqlStore (B : Type 0) : Type 0 where
  pub submissions : Map B
  pub idempotency : Map KeyRow
  pub results : Map (ResultRow B)
  pub merged_results : Map B
  pub decisions : Map B
  pub events : List B
  pub artifacts : Map (List ℕ)
  pub providers : Map (ProviderRow B)
  pub jobs : Table

-- The tables after the migration of a new database.
abbrev pub new_sql_store : {B : Type 0} → SqlStore B
new_sql_store = record {
  submissions = [];
  idempotency = [];
  results = [];
  merged_results = [];
  decisions = [];
  events = [];
  artifacts = [];
  providers = [];
  jobs = [];
}

-- What a SELECT of one document gives: sql.ErrNoRows, or a document that may not be readable.
pub data Fetched (A : Type 0) : Type 0 where
  found : A → Fetched A
  missing unreadable : Fetched A

abbrev pub decoded : {A : Type 0} → Option A → Fetched A
decoded none = unreadable
decoded (some a) = found a

abbrev pub fetch : {A B : Type 0} → Codec A B → Option B → Fetched A
fetch c none = missing
fetch c (some b) = decoded (c.decode b)

pub data SqlError : Type 0 where
  store_error : StoreError → SqlError
  missing_submission : String → SqlError
  not_registered : String → SqlError
  no_rows bad_document : SqlError

-- What PutSubmissionIdempotent returns.
pub data Put : Type 0 where
  ignored : Put
  rejected : SqlError → Put
  replayed created : Submission → Put

-- existingHash != "" && requestHash != "" && existingHash != requestHash
abbrev pub conflicts : String → String → Bool
conflicts existing hash = not (existing == "") && (not (hash == "") && not (existing == hash))

abbrev pub unless_bound : Option KeyRow → String → KeyRow → Map KeyRow → Map KeyRow
unless_bound none key row rows = insert key row rows
unless_bound (some r) key row rows = rows

abbrev pub delete_if : {V : Type 0} → Bool → String → Map V → Map V
delete_if true key rows = delete key rows
delete_if false key rows = rows

-- Whether `DELETE … WHERE key = ? AND submission_id = ?` meets the row.
abbrev pub leads_to : String → Option KeyRow → Bool
leads_to id none = false
leads_to id (some r) = r.submission_id == id

module _ {S B : Type 0} (json : Codecs S B) where
  -- PutSubmission
  unfoldable pub put_submission : Option Submission → SqlStore B → SqlStore B
  put_submission none q = q
  put_submission (some sub) q = record q {
    submissions = insert sub.id (json.submission.encode sub) q.submissions;
  }

  -- GetSubmission
  unfoldable pub get_submission : String → SqlStore B → Fetched Submission
  get_submission id q = fetch json.submission (lookup id q.submissions)

  abbrev on_replayed : String → Fetched Submission → Put
  on_replayed key (found sub) = replayed sub
  on_replayed key missing = rejected (SqlError.missing_submission key)
  on_replayed key unreadable = rejected SqlError.bad_document

  -- The key is bound when the transaction begins.
  abbrev pub replay : String → String → KeyRow → SqlStore B → SqlStore B × Put
  replay key hash r q =
      if conflicts r.request_hash hash
      then (q, rejected (SqlError.store_error StoreError.idempotency_conflict))
      else (q, on_replayed key (fetch json.submission (lookup r.submission_id q.submissions)))

  -- The row that this transaction wrote is dropped and the winner's is read; an error rolls back.
  abbrev on_winner : SqlStore B → SqlStore B → Fetched Submission → SqlStore B × Put
  on_winner q dropped (found sub) = (dropped, replayed sub)
  on_winner q dropped missing = (q, rejected SqlError.no_rows)
  on_winner q dropped unreadable = (q, rejected SqlError.bad_document)

  -- The INSERT of the key met a row: another transaction has won.
  abbrev pub lose : String → KeyRow → Submission → SqlStore B → SqlStore B × Put
  lose hash r sub q =
      let dropped : SqlStore B = record q { submissions = delete sub.id q.submissions } in
      if conflicts r.request_hash hash
      then (q, rejected (SqlError.store_error StoreError.idempotency_conflict))
      else on_winner q dropped (fetch json.submission (lookup r.submission_id dropped.submissions))

  -- The INSERT of the submission, then of its key unless that is empty.
  abbrev pub write : Option KeyRow → String → String → Submission → SqlStore B → SqlStore B × Put
  write (some r) key hash sub q = lose hash r sub q
  write none key hash sub q = (
    record q {
      submissions = insert sub.id (json.submission.encode sub) q.submissions;
      idempotency =
          insert key (record { submission_id = sub.id; request_hash = hash }) q.idempotency;
    },
    created (clone sub),
  )

  abbrev pub write_unkeyed : Submission → SqlStore B → SqlStore B × Put
  write_unkeyed sub q = (
    record q { submissions = insert sub.id (json.submission.encode sub) q.submissions },
    created (clone sub),
  )

  abbrev pub on_key :
      (SqlStore B → SqlStore B)
      → Option KeyRow
      → String
      → String
      → Submission
      → SqlStore B
      → SqlStore B × Put
  on_key between (some r) key hash sub q = replay key hash r q
  on_key between none key hash sub q =
      write (lookup key (between q).idempotency) key hash sub (between q)

  -- PutSubmissionIdempotent; `between` is what others commit after its SELECT and before its INSERT.
  unfoldable pub put_submission_idempotent :
      (SqlStore B → SqlStore B)
      → String
      → String
      → Option Submission
      → SqlStore B
      → SqlStore B × Put
  unfolding clone
  put_submission_idempotent between key hash none q = (q, ignored)
  put_submission_idempotent between key hash (some sub) q =
      if key == ""
      then write_unkeyed sub (between q)
      else on_key between (lookup key q.idempotency) key hash sub q

  -- RememberIdempotencyKey
  unfoldable pub remember_idempotency_key : String → String → SqlStore B → SqlStore B
  remember_idempotency_key key id q = if key == "" then q else record q {
    idempotency =
        unless_bound (lookup key q.idempotency) key
          (record { submission_id = id; request_hash = "" }) q.idempotency;
  }

  abbrev abandon_found :
      String → String → Fetched Submission → SqlStore B → SqlStore B × Option SqlError
  abandon_found id key missing q = (q, some (SqlError.store_error StoreError.abandon_rejected))
  abandon_found id key unreadable q = (q, some SqlError.bad_document)
  abandon_found id key (found sub) q =
      if not (is_accepted sub.status)
      then (q, some (SqlError.store_error StoreError.abandon_rejected))
      else (
        record q {
          submissions = delete id q.submissions;
          idempotency =
              delete_if (not (key == "") && leads_to id (lookup key q.idempotency)) key
                q.idempotency;
          jobs = delete_row id q.jobs;
        },
        none,
      )

  -- AbandonSubmission
  unfoldable pub abandon_submission : String → String → SqlStore B → SqlStore B × Option SqlError
  unfolding delete_row
  abandon_submission id key q =
      abandon_found id key (fetch json.submission (lookup id q.submissions)) q

  -- UPDATE submissions SET body = ? WHERE id = ?
  abbrev set_body : String → Submission → SqlStore B → SqlStore B
  set_body id sub q = record q {
    submissions = insert id (json.submission.encode sub) q.submissions;
  }

  abbrev resume_found : String → Fetched Submission → SqlStore B → SqlStore B × Fetched Submission
  resume_found id missing q = (q, missing)
  resume_found id unreadable q = (q, unreadable)
  resume_found id (found sub) q =
      let claimed : Submission = record sub { status = SubmissionStatus.running } in
      if not (is_deferred sub.status) then (q, missing) else (set_body id claimed q, found claimed)

  -- ClaimResume; `missing` stands for ErrResumeNotDeferred
  unfoldable pub claim_resume : String → SqlStore B → SqlStore B × Fetched Submission
  claim_resume id q = resume_found id (fetch json.submission (lookup id q.submissions)) q

  abbrev release_found : String → Fetched Submission → SqlStore B → SqlStore B × Option SqlError
  release_found id missing q = (q, none)
  release_found id unreadable q = (q, some SqlError.bad_document)
  release_found id (found sub) q = if not (is_running sub.status) then (q, none) else (
    set_body id
        (record sub {
          status = SubmissionStatus.deferred;
          completion_reason = some CompletionReason.deferred;
          completed_at = none;
        })
        q,
    none,
  )

  -- ReleaseResume
  unfoldable pub release_resume : String → SqlStore B → SqlStore B × Option SqlError
  release_resume id q = release_found id (fetch json.submission (lookup id q.submissions)) q

  abbrev find_row : Option KeyRow → SqlStore B → Fetched Submission
  find_row none q = missing
  find_row (some r) q = get_submission r.submission_id q

  -- GetSubmissionByIdempotencyKey
  unfoldable pub get_submission_by_key : String → SqlStore B → Fetched Submission
  unfolding get_submission
  get_submission_by_key key q = if key == "" then missing else find_row (lookup key q.idempotency) q
