-- ===== src/Store/Records.antt =====
-- The rest of `MemoryStore`: results, merged results, decisions, events, artifacts and providers.
use scintx.Base.{
  ℕ, String, Bool, true, false, Option, none, some, List, [], ◌∷◌, ◌++◌, keep, values, lookup,
  insert, ◌==◌, if◌then◌else◌,
}
use scintx.Api.{ProviderResult, MergedResult, PolicyDecision, CloudEvent, ProviderCapabilities}
use scintx.Store.{MemoryStore, ProviderEntry}

module _ {S : Type 0} where
  -- PutResult
  unfoldable pub put_result : Option (ProviderResult S) → MemoryStore S → MemoryStore S
  put_result none s = s
  put_result (some r) s = record s { results = insert r.id r s.results }

  -- GetResult
  unfoldable pub get_result : String → MemoryStore S → Option (ProviderResult S)
  get_result id s = lookup id s.results

  -- GetResultsForSubmission
  unfoldable pub get_results_for_submission : String → MemoryStore S → List (ProviderResult S)
  get_results_for_submission sub_id s = keep (λ r. r.submission_id == sub_id) (values s.results)

  -- PutMergedResult
  unfoldable pub put_merged_result : Option (MergedResult S) → MemoryStore S → MemoryStore S
  put_merged_result none s = s
  put_merged_result (some r) s = record s {
    merged_results = insert r.submission_id r s.merged_results;
  }

  -- GetMergedResultForSubmission
  unfoldable pub get_merged_result_for_submission : String → MemoryStore S → Option (MergedResult S)
  get_merged_result_for_submission sub_id s = lookup sub_id s.merged_results

  -- PutDecision
  unfoldable pub put_decision : Option (PolicyDecision S) → MemoryStore S → MemoryStore S
  put_decision none s = s
  put_decision (some d) s = record s { decisions = insert d.id d s.decisions }

  -- GetDecision
  unfoldable pub get_decision : String → MemoryStore S → Option (PolicyDecision S)
  get_decision id s = lookup id s.decisions

  -- AppendEvent
  unfoldable pub append_event : CloudEvent → MemoryStore S → MemoryStore S
  append_event e s = record s { events = s.events ++ e ∷ [] }

  -- Events
  unfoldable pub all_events : MemoryStore S → List CloudEvent
  all_events s = s.events

  -- PutArtifact
  unfoldable pub put_artifact : String → List ℕ → MemoryStore S → MemoryStore S
  put_artifact digest content s = record s { artifacts = insert digest content s.artifacts }

  -- HasArtifact
  unfoldable pub has_artifact : String → MemoryStore S → Bool
  has_artifact digest s = elim (lookup digest s.artifacts) [ none ↦ false | some c ↦ true ]

  -- GetArtifact
  unfoldable pub get_artifact : String → MemoryStore S → Option (List ℕ)
  get_artifact digest s = lookup digest s.artifacts

-- The loop of RegisterProvider: the entry with the id is overwritten, or the new one is appended.
unfoldable pub replace_entry : ProviderEntry → List ProviderEntry → List ProviderEntry
replace_entry p [] = p ∷ []
replace_entry p (q ∷ qs) = if q.id == p.id then p ∷ qs else q ∷ replace_entry p qs

-- The loop of SnapshotCapabilities: the first entry with the id is updated.
unfoldable pub update_entry :
    String → ProviderCapabilities → List ProviderEntry → List ProviderEntry
update_entry id caps [] = []
update_entry id caps (q ∷ qs) =
    if q.id == id then record q { capabilities = caps } ∷ qs else q ∷ update_entry id caps qs

module _ {S : Type 0} where
  -- RegisterProvider
  unfoldable pub register_provider : ProviderEntry → MemoryStore S → MemoryStore S
  unfolding replace_entry
  register_provider p s = record s {
    providers = replace_entry p s.providers;
    cap_snapshots = insert p.id p.capabilities s.cap_snapshots;
  }

  -- Providers
  unfoldable pub all_providers : MemoryStore S → List ProviderEntry
  all_providers s = s.providers

  -- GetCapabilities
  unfoldable pub get_capabilities : String → MemoryStore S → Option ProviderCapabilities
  get_capabilities id s = lookup id s.cap_snapshots

  -- SnapshotCapabilities
  unfoldable pub snapshot_capabilities :
      String → ProviderCapabilities → MemoryStore S → MemoryStore S
  unfolding update_entry
  snapshot_capabilities id caps s = record s {
    cap_snapshots = insert id caps s.cap_snapshots;
    providers = update_entry id caps s.providers;
  }
