-- ===== src/SqlStore/Records.antt =====
-- internal/store/sql_ops.go: results, merged results, decisions, events, artifacts and providers.
use scintx.Base.{
  ℕ, ◌+◌, String, Bool, true, false, Option, none, some, List, [], ◌∷◌, ◌++◌, Map, lookup, insert,
  ltb, max, ◌==◌, ◌&&◌, ◌||◌, not, nat_eq, text_le, if◌then◌else◌,
}
use scintx.Api.{ProviderResult, MergedResult, PolicyDecision, CloudEvent, ProviderCapabilities}
use scintx.Store.{ProviderEntry}
use scintx.SqlStore.{
  Codec, Codecs, ResultRow, ProviderRow, SqlStore, Fetched, found, missing, unreadable, fetch,
  decoded, SqlError,
}

-- The documents of a query, read one after the other; the first that is not readable ends it.
abbrev and_then : {A : Type 0} → Fetched A → Fetched (List A) → Fetched (List A)
and_then (found a) (found rest) = found (a ∷ rest)
and_then (found a) missing = missing
and_then (found a) unreadable = unreadable
and_then missing rest = missing
and_then unreadable rest = unreadable

unfoldable pub read_all : {A B : Type 0} → Codec A B → List B → Fetched (List A)
read_all c [] = found []
read_all c (b ∷ bs) = and_then (decoded (c.decode b)) (read_all c bs)

-- SELECT body FROM results WHERE submission_id = ?
unfoldable pub bodies_of : {B : Type 0} → String → Map (ResultRow B) → List B
bodies_of id [] = []
bodies_of id ((k, r) ∷ rows) =
    let rest = bodies_of id rows in if r.submission_id == id then r.body ∷ rest else rest

-- SELECT COALESCE(MAX(sort_order), 0) FROM providers
unfoldable pub max_order : {B : Type 0} → Map (ProviderRow B) → ℕ
max_order [] = 0
max_order ((k, r) ∷ rows) = max r.sort_order (max_order rows)

-- The INSERT of RegisterProvider: on a conflict the row keeps its place.
unfoldable pub upsert_provider :
    {B : Type 0} → String → String → B → ℕ → Map (ProviderRow B) → Map (ProviderRow B)
upsert_provider id name caps next [] =
    (id, record { name = name; capabilities = caps; sort_order = next }) ∷ []
upsert_provider id name caps next ((k, r) ∷ rows) =
    if k == id
    then (k, record r { name = name; capabilities = caps }) ∷ rows
    else (k, r) ∷ upsert_provider id name caps next rows

-- ORDER BY sort_order ASC, id ASC
abbrev pub row_before : {B : Type 0} → String × ProviderRow B → String × ProviderRow B → Bool
row_before (k, r) (j, w) =
    ltb r.sort_order w.sort_order || (nat_eq r.sort_order w.sort_order && not (text_le j k))

unfoldable pub place_row :
    {B : Type 0} → String × ProviderRow B → Map (ProviderRow B) → Map (ProviderRow B)
place_row r [] = r ∷ []
place_row r (w ∷ rows) = if row_before w r then w ∷ place_row r rows else r ∷ w ∷ rows

unfoldable pub in_order : {B : Type 0} → Map (ProviderRow B) → Map (ProviderRow B)
unfolding place_row
in_order [] = []
in_order (r ∷ rows) = place_row r (in_order rows)

abbrev pub body_of : {B : Type 0} → Option (ResultRow B) → Option B
body_of none = none
body_of (some r) = some r.body

abbrev pub entry_with : String → String → Option ProviderCapabilities → Fetched ProviderEntry
entry_with id name none = unreadable
entry_with id name (some caps) = found (record { id = id; name = name; capabilities = caps })

abbrev pub capabilities_in : {B : Type 0} → Option (ProviderRow B) → Option B
capabilities_in none = none
capabilities_in (some r) = some r.capabilities

module _ {S B : Type 0} (json : Codecs S B) where
  -- PutResult
  unfoldable pub put_result : Option (ProviderResult S) → SqlStore B → SqlStore B
  put_result none q = q
  put_result (some r) q = record q {
    results =
        insert r.id (record { submission_id = r.submission_id; body = json.result.encode r })
          q.results;
  }

  -- GetResult
  unfoldable pub get_result : String → SqlStore B → Fetched (ProviderResult S)
  get_result id q = fetch json.result (body_of (lookup id q.results))

  -- GetResultsForSubmission
  unfoldable pub get_results_for_submission :
      String → SqlStore B → Fetched (List (ProviderResult S))
  unfolding read_all bodies_of
  get_results_for_submission id q = read_all json.result (bodies_of id q.results)

  -- PutMergedResult
  unfoldable pub put_merged_result : Option (MergedResult S) → SqlStore B → SqlStore B
  put_merged_result none q = q
  put_merged_result (some r) q = record q {
    merged_results = insert r.submission_id (json.merged_result.encode r) q.merged_results;
  }

  -- GetMergedResultForSubmission
  unfoldable pub get_merged_result_for_submission : String → SqlStore B → Fetched (MergedResult S)
  get_merged_result_for_submission id q = fetch json.merged_result (lookup id q.merged_results)

  -- PutDecision
  unfoldable pub put_decision : Option (PolicyDecision S) → SqlStore B → SqlStore B
  put_decision none q = q
  put_decision (some d) q = record q {
    decisions = insert d.id (json.decision.encode d) q.decisions;
  }

  -- GetDecision
  unfoldable pub get_decision : String → SqlStore B → Fetched (PolicyDecision S)
  get_decision id q = fetch json.decision (lookup id q.decisions)

  -- AppendEvent: the id of the new row is the largest
  unfoldable pub append_event : CloudEvent → SqlStore B → SqlStore B
  append_event e q = record q { events = q.events ++ json.event.encode e ∷ [] }

  -- Events
  unfoldable pub all_events : SqlStore B → Fetched (List CloudEvent)
  unfolding read_all
  all_events q = read_all json.event q.events

  -- PutArtifact
  unfoldable pub put_artifact : String → List ℕ → SqlStore B → SqlStore B
  put_artifact digest content q = record q { artifacts = insert digest content q.artifacts }

  -- HasArtifact
  unfoldable pub has_artifact : String → SqlStore B → Bool
  has_artifact digest q = elim (lookup digest q.artifacts) [ none ↦ false | some c ↦ true ]

  -- GetArtifact
  unfoldable pub get_artifact : String → SqlStore B → Option (List ℕ)
  get_artifact digest q = lookup digest q.artifacts

  -- RegisterProvider
  unfoldable pub register_provider : ProviderEntry → SqlStore B → SqlStore B
  unfolding upsert_provider max_order
  register_provider p q = record q {
    providers =
        upsert_provider p.id p.name (json.capabilities.encode p.capabilities)
          (max_order q.providers + 1) q.providers;
  }

  unfoldable pub read_entries : Map (ProviderRow B) → Fetched (List ProviderEntry)
  read_entries [] = found []
  read_entries ((k, r) ∷ rows) =
      and_then (entry_with k r.name (json.capabilities.decode r.capabilities)) (read_entries rows)

  -- Providers
  unfoldable pub all_providers : SqlStore B → Fetched (List ProviderEntry)
  unfolding read_entries in_order
  all_providers q = read_entries (in_order q.providers)

  -- GetCapabilities
  unfoldable pub get_capabilities : String → SqlStore B → Fetched ProviderCapabilities
  get_capabilities id q = fetch json.capabilities (capabilities_in (lookup id q.providers))

  -- SnapshotCapabilities
  unfoldable pub snapshot_capabilities :
      String → ProviderCapabilities → SqlStore B → SqlStore B × Option SqlError
  snapshot_capabilities id caps q = elim (lookup id q.providers) [
    | none ↦ (q, some (SqlError.not_registered id))
    | some r ↦ (
      record q {
        providers =
            insert id (record r { capabilities = json.capabilities.encode caps }) q.providers;
      },
      none,
    )
  ]
