-- ===== src/Store.antt =====
-- The in-memory store, `MemoryStore` of internal/scintx/memory_store.go; its job queue is `Jobs`.
-- Each method runs under the store's lock, and takes and returns copies (api.CloneJSON), which
-- lose the bytes of an artifact's content, since that field is not serialised.
pub mod Records
pub mod Idempotency
pub mod Resume
pub mod Providers
use scintx.Base.{
  ℕ, String, Bool, true, false, not, ◌&&◌, Option, none, some, List, [], ◌∷◌, ◌++◌, keep, values,
  Map, lookup, insert, delete, ◌==◌, if◌then◌else◌,
}
use scintx.Api.{
  Submission, SubmissionStatus, CompletionReason, ProviderResult, MergedResult, PolicyDecision,
  CloudEvent, ProviderCapabilities,
}
use scintx.Jobs.{Jobs}

pub record ProviderEntry : Type 0 where
  pub id : String
  pub name : String
  pub capabilities : ProviderCapabilities

pub record MemoryStore (S : Type 0) : Type 0 where
  pub submissions : Map Submission
  pub idempotency : Map String
  pub idem_hash : Map String
  pub jobs : Jobs
  pub results : Map (ProviderResult S)
  pub merged_results : Map (MergedResult S)
  pub decisions : Map (PolicyDecision S)
  pub events : List CloudEvent
  pub artifacts : Map (List ℕ)
  pub cap_snapshots : Map ProviderCapabilities
  pub providers : List ProviderEntry

pub data StoreError : Type 0 where
  idempotency_conflict resume_not_deferred abandon_rejected : StoreError

-- NewMemoryStore
abbrev pub new_memory_store : {S : Type 0} → MemoryStore S
new_memory_store = record {
  submissions = [];
  idempotency = [];
  idem_hash = [];
  jobs = [];
  results = [];
  merged_results = [];
  decisions = [];
  events = [];
  artifacts = [];
  cap_snapshots = [];
  providers = [];
}

-- api.CloneJSON of a submission
unfoldable pub clone : Submission → Submission
clone sub = record sub { artifact = record (sub.artifact) { content = [] } }

abbrev pub clone_option : Option Submission → Option Submission
clone_option none = none
clone_option (some sub) = some (clone sub)

-- The zero value for a missing key.
abbrev pub or_empty : Option String → String
or_empty none = ""
or_empty (some s) = s

-- What PutSubmissionIdempotent returns: nothing for nil, a prior submission, or the new one.
pub data Stored : Type 0 where
  ignored : Stored
  refused : StoreError → Stored
  replayed created : Submission → Stored

abbrev pub is_accepted : SubmissionStatus → Bool
is_accepted SubmissionStatus.accepted = true
is_accepted _ = false

abbrev pub is_deferred : SubmissionStatus → Bool
is_deferred SubmissionStatus.deferred = true
is_deferred _ = false

abbrev pub is_running : SubmissionStatus → Bool
is_running SubmissionStatus.running = true
is_running _ = false

module _ {S : Type 0} where
  -- PutSubmission
  unfoldable pub put_submission : Option Submission → MemoryStore S → MemoryStore S
  unfolding clone
  put_submission none s = s
  put_submission (some sub) s = record s { submissions = insert sub.id (clone sub) s.submissions }

  -- GetSubmission
  unfoldable pub get_submission : String → MemoryStore S → Option Submission
  unfolding clone
  get_submission id s = clone_option (lookup id s.submissions)

  -- s.submissions[cp.ID] = &cp, and a copy is returned as created
  abbrev create : Submission → MemoryStore S → MemoryStore S × Stored
  create cp s = (record s { submissions = insert cp.id cp s.submissions }, created (clone cp))

  -- The binding of a key, with the two map writes.
  abbrev bind_key : String → String → String → MemoryStore S → MemoryStore S
  bind_key key hash id s = record s {
    idempotency = insert key id s.idempotency;
    idem_hash = insert key hash s.idem_hash;
  }

  abbrev free_key : String → MemoryStore S → MemoryStore S
  free_key key s = record s {
    idempotency = delete key s.idempotency;
    idem_hash = delete key s.idem_hash;
  }

  -- A key that is bound: a dangling binding is replaced, a live one replayed or refused.
  abbrev on_bound :
      Option Submission → String → String → Submission → MemoryStore S → MemoryStore S × Stored
  on_bound none key hash cp s = create cp (bind_key key hash cp.id (free_key key s))
  on_bound (some existing) key hash cp s =
      if not (or_empty (lookup key s.idem_hash) == "")
        && (not (hash == "") && not (or_empty (lookup key s.idem_hash) == hash))
      then (s, refused StoreError.idempotency_conflict)
      else (s, replayed (clone existing))

  abbrev on_key :
      Option String → String → String → Submission → MemoryStore S → MemoryStore S × Stored
  on_key none key hash cp s = create cp (bind_key key hash cp.id s)
  on_key (some id) key hash cp s = on_bound (lookup id s.submissions) key hash cp s

  -- PutSubmissionIdempotent
  unfoldable pub put_submission_idempotent :
      String → String → Option Submission → MemoryStore S → MemoryStore S × Stored
  unfolding clone
  put_submission_idempotent key hash none s = (s, ignored)
  put_submission_idempotent key hash (some sub) s =
      if key == ""
      then create (clone sub) s
      else on_key (lookup key s.idempotency) key hash (clone sub) s

  -- RememberIdempotencyKey
  unfoldable pub remember_idempotency_key : String → String → MemoryStore S → MemoryStore S
  remember_idempotency_key key id s = if key == "" then s else elim (lookup key s.idempotency) [
    | none ↦ record s { idempotency = insert key id s.idempotency }
    | some bound ↦ s
  ]

  abbrev free_if : Bool → String → MemoryStore S → MemoryStore S
  free_if true key s = free_key key s
  free_if false key s = s

  -- AbandonSubmission
  unfoldable pub abandon_submission :
      String → String → MemoryStore S → MemoryStore S × Option StoreError
  abandon_submission id key s = elim (lookup id s.submissions) [
    | none ↦ (s, some StoreError.abandon_rejected)
    | some sub ↦ if not (is_accepted sub.status) then (s, some StoreError.abandon_rejected) else (
      record (free_if (not (key == "") && or_empty (lookup key s.idempotency) == id) key
          (record s { submissions = delete id s.submissions })) { jobs = delete id s.jobs },
      none,
    )
  ]

  -- ClaimResume
  unfoldable pub claim_resume : String → MemoryStore S → MemoryStore S × Option Submission
  unfolding clone
  claim_resume id s = elim (lookup id s.submissions) [
    | none ↦ (s, none)
    | some sub ↦
        let claimed : Submission = record sub { status = SubmissionStatus.running } in
        if not (is_deferred sub.status)
        then (s, none)
        else (record s { submissions = insert id claimed s.submissions }, some (clone claimed))
  ]

  -- ReleaseResume
  unfoldable pub release_resume : String → MemoryStore S → MemoryStore S
  release_resume id s = elim (lookup id s.submissions) [
    | none ↦ s
    | some sub ↦ if not (is_running sub.status) then s else record s {
      submissions =
          insert id
            (record sub {
              status = SubmissionStatus.deferred;
              completion_reason = some CompletionReason.deferred;
              completed_at = none;
            })
            s.submissions;
    }
  ]

  abbrev find_submission : Option String → MemoryStore S → Option Submission
  find_submission none s = none
  find_submission (some id) s = clone_option (lookup id s.submissions)

  -- GetSubmissionByIdempotencyKey
  unfoldable pub get_submission_by_key : String → MemoryStore S → Option Submission
  unfolding clone
  get_submission_by_key key s =
      if key == "" then none else find_submission (lookup key s.idempotency) s
