-- ===== src/SqlStore/Listing.antt =====
-- internal/store/sql_ops.go: results, decisions, events, artifacts and providers are kept and read
-- as by the in-memory store.
use scintx.Base.{
  ℕ, ◌+◌, String, Option, none, some, List, [], ◌∷◌, ◌++◌, Map, map, keep, values, lookup, insert,
  lookup-insert, ◌==◌, ◌≡◌, ◌≢◌, refl, sym, ap, arith, Bool-cases, Option-cases, inl, inr,
}
use mathlib.Core.List.{map-append}
use scintx.Api.{ProviderResult, MergedResult, PolicyDecision, CloudEvent, ProviderCapabilities}
use scintx.Store.{MemoryStore, ProviderEntry}
use scintx.Store.Records
use scintx.SqlStore.{Codec, Codecs, ProviderRow, SqlStore, found, fetch}
use scintx.SqlStore.Laws.{Faithful}
use scintx.SqlStore.Records.{
  put_result, get_result, get_results_for_submission, put_merged_result,
  get_merged_result_for_submission, put_decision, get_decision, append_event, all_events,
  put_artifact, register_provider, all_providers, get_capabilities, snapshot_capabilities, read_all,
  bodies_of, body_of, max_order, upsert_provider,
}
use scintx.SqlStore.Tables.{
  rows_of, row_of, lookup-rows_of, insert-rows_of, result_row, caps_in, Above, Mirrors,
}
use scintx.SqlStore.Creation.{fetched}
use scintx.SqlStore.Providers.{
  in_order_lem, upsert_provider-Above, insert-Above, names_of-upsert_provider, names_of-insert,
  lookup-names_of, read_entries_lem, caps_in-replace_entry, caps_in-update_entry,
}

-- A document that a faithful codec wrote is fetched as the value.
fetch-row_of :
    {A B : Type 0} (c : Codec A B) (o : Option A)
    → ((a : A) → c.decode (c.encode a) ≡ some a)
    → fetch c (row_of c.encode o) ≡ fetched o
fetch-row_of c none law = refl
fetch-row_of c (some a) law = rw (law a) refl

read_all-map :
    {A B : Type 0} (c : Codec A B) (xs : List A)
    → ((a : A) → c.decode (c.encode a) ≡ some a)
    → read_all c (map c.encode xs) ≡ found xs
unfolding read_all
read_all-map c [] law = refl
read_all-map c (x ∷ xs) law = rw (law x, read_all-map c xs law) refl

module _ {S B : Type 0} (json : Codecs S B) (law : Faithful json) where
  read_all-bodies_of :
      (id : String) (results : Map (ProviderResult S))
      → read_all json.result (bodies_of id (rows_of (result_row json) results))
        ≡ found (keep (λ r. r.submission_id == id) (values results))
  unfolding bodies_of read_all
  read_all-bodies_of id [] = refl
  read_all-bodies_of id ((k, r) ∷ results) = elim (Bool-cases (r.submission_id == id)) [
    | inl e ↦ rw (e, law.result r, read_all-bodies_of id results) refl
    | inr e ↦ rw e (read_all-bodies_of id results)
  ]

  body_of-rows_of :
      (id : String) (results : Map (ProviderResult S))
      → body_of (lookup id (rows_of (result_row json) results))
        ≡ row_of json.result.encode (lookup id results)
  unfolding lookup
  body_of-rows_of id [] = refl
  body_of-rows_of id ((k, r) ∷ results) = ground (arith, body_of-rows_of id results)

  module _ (q : SqlStore B) (m : MemoryStore S) (h : Mirrors json q m) where
    pub put_result-Mirrors :
        (r : Option (ProviderResult S))
        → Mirrors json (put_result json r q) (Records.put_result r m)
    unfolding put_result Records.put_result
    put_result-Mirrors none = h
    put_result-Mirrors (some r) =
        let rows : insert r.id (result_row json r) q.results
            ≡ rows_of (result_row json) (insert r.id r m.results) =
          rw h.results (insert-rows_of (result_row json) r.id r m.results) in
        ground (arith, h, rows)

    pub get_result-answer : (id : String) → get_result json id q ≡ fetched (Records.get_result id m)
    unfolding get_result Records.get_result
    get_result-answer id =
        rw (h.results, body_of-rows_of id m.results)
          (fetch-row_of json.result (lookup id m.results) law.result)

    pub get_results_for_submission-answer :
        (id : String)
        → get_results_for_submission json id q ≡ found (Records.get_results_for_submission id m)
    unfolding get_results_for_submission Records.get_results_for_submission
    get_results_for_submission-answer id = rw h.results (read_all-bodies_of id m.results)

    pub put_merged_result-Mirrors :
        (r : Option (MergedResult S))
        → Mirrors json (put_merged_result json r q) (Records.put_merged_result r m)
    unfolding put_merged_result Records.put_merged_result
    put_merged_result-Mirrors none = h
    put_merged_result-Mirrors (some r) =
        let rows : insert r.submission_id (json.merged_result.encode r) q.merged_results
            ≡ rows_of json.merged_result.encode (insert r.submission_id r m.merged_results) =
          rw h.merged_results
            (insert-rows_of json.merged_result.encode r.submission_id r m.merged_results) in
        ground (arith, h, rows)

    pub get_merged_result-answer :
        (id : String)
        → get_merged_result_for_submission json id q
          ≡ fetched (Records.get_merged_result_for_submission id m)
    unfolding get_merged_result_for_submission Records.get_merged_result_for_submission
    get_merged_result-answer id =
        rw (h.merged_results, lookup-rows_of json.merged_result.encode id m.merged_results)
          (fetch-row_of json.merged_result (lookup id m.merged_results) law.merged_result)

    pub put_decision-Mirrors :
        (d : Option (PolicyDecision S))
        → Mirrors json (put_decision json d q) (Records.put_decision d m)
    unfolding put_decision Records.put_decision
    put_decision-Mirrors none = h
    put_decision-Mirrors (some d) =
        let rows : insert d.id (json.decision.encode d) q.decisions
            ≡ rows_of json.decision.encode (insert d.id d m.decisions) =
          rw h.decisions (insert-rows_of json.decision.encode d.id d m.decisions) in
        ground (arith, h, rows)

    pub get_decision-answer :
        (id : String) → get_decision json id q ≡ fetched (Records.get_decision id m)
    unfolding get_decision Records.get_decision
    get_decision-answer id =
        rw (h.decisions, lookup-rows_of json.decision.encode id m.decisions)
          (fetch-row_of json.decision (lookup id m.decisions) law.decision)

    pub append_event-Mirrors :
        (e : CloudEvent) → Mirrors json (append_event json e q) (Records.append_event e m)
    unfolding append_event Records.append_event
    append_event-Mirrors e =
        let rows : q.events ++ json.event.encode e ∷ []
            ≡ map json.event.encode (m.events ++ e ∷ []) =
          rw h.events (sym (map-append json.event.encode m.events (e ∷ []))) in
        ground (arith, h, rows)

    pub all_events-answer : all_events json q ≡ found (Records.all_events m)
    unfolding all_events Records.all_events
    all_events-answer = rw h.events (read_all-map json.event m.events law.event)

    pub put_artifact-Mirrors :
        (digest : String) (content : List ℕ)
        → Mirrors json (put_artifact json digest content q) (Records.put_artifact digest content m)
    unfolding put_artifact Records.put_artifact
    put_artifact-Mirrors digest content =
        let rows : insert digest content q.artifacts ≡ insert digest content m.artifacts =
          ap (insert digest content) h.artifacts in
        ground (arith, h, rows)

    pub register_provider-Mirrors :
        (p : ProviderEntry)
        → Mirrors json (register_provider json p q) (Records.register_provider p m)
    unfolding register_provider Records.register_provider
    register_provider-Mirrors p =
        let caps = json.capabilities.encode p.capabilities in
        let next = max_order q.providers + 1 in
        let rows = names_of-upsert_provider json p next q.providers m.providers h.providers in
        let above : Above 0 (upsert_provider p.id p.name caps next q.providers) =
          upsert_provider-Above p.id p.name caps next 0 q.providers h.ordered (omega arith)
            (omega arith) in
        let snapshots : (k : String)
            → lookup k (insert p.id p.capabilities m.cap_snapshots)
              ≡ caps_in k (Records.replace_entry p m.providers) =
          λ k. ground (
            arith,
            lookup-insert p.id k p.capabilities m.cap_snapshots,
            caps_in-replace_entry k p m.providers,
            h.snapshots k,
          ) in
        ground (arith, h, rows, above, snapshots)

    pub all_providers-answer : all_providers json q ≡ found (Records.all_providers m)
    unfolding all_providers Records.all_providers
    all_providers-answer =
        rw (in_order_lem 0 q.providers h.ordered)
          (read_entries_lem json law q.providers m.providers h.providers)

    pub get_capabilities-answer :
        (id : String) → get_capabilities json id q ≡ fetched (Records.get_capabilities id m)
    unfolding get_capabilities Records.get_capabilities
    get_capabilities-answer id =
        rw (lookup-names_of json id q.providers m.providers h.providers, h.snapshots id)
          (fetch-row_of json.capabilities (caps_in id m.providers) law.capabilities)

    registered_row :
        (id : String)
        → caps_in id m.providers ≢ none
        → (r : ProviderRow B) × (lookup id q.providers ≡ some r)
    registered_row id n = elim (Option-cases (lookup id q.providers)) [
      | inl e ↦ elim (Option-cases (caps_in id m.providers)) [
        | inl c ↦ absurd (n c)
        | inr (caps, c) ↦ cc (lookup-names_of json id q.providers m.providers h.providers)
      ]
      | inr (r, e) ↦ (r, e)
    ]

    pub snapshot_capabilities-Mirrors :
        (id : String) (caps : ProviderCapabilities)
        → caps_in id m.providers ≢ none
        → Mirrors json
            (snapshot_capabilities json id caps q).0
            (Records.snapshot_capabilities id caps m)
    unfolding snapshot_capabilities Records.snapshot_capabilities
    snapshot_capabilities-Mirrors id caps n =
        let (r, e) = registered_row id n in
        let rows = names_of-insert json id caps r q.providers m.providers h.providers e in
        let above = insert-Above id (json.capabilities.encode caps) r 0 q.providers e h.ordered in
        let snapshots : (k : String)
            → lookup k (insert id caps m.cap_snapshots)
              ≡ caps_in k (Records.update_entry id caps m.providers) =
          λ k. ground (
            arith,
            lookup-insert id k caps m.cap_snapshots,
            caps_in-update_entry k id caps m.providers n,
            h.snapshots k,
          ) in
        rw (e, snapshot_capabilities) (ground (arith, h, rows, above, snapshots))

    pub snapshot_capabilities-answer :
        (id : String) (caps : ProviderCapabilities)
        → caps_in id m.providers ≢ none
        → (snapshot_capabilities json id caps q).1 ≡ none
    unfolding snapshot_capabilities
    snapshot_capabilities-answer id caps n =
        rw ((registered_row id n).1, snapshot_capabilities) refl
