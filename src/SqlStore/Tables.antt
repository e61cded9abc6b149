-- ===== src/SqlStore/Tables.antt =====
-- The tables of internal/store/sql_ops.go that hold what the maps of the in-memory store hold.
use scintx.Base.{
  ℕ, ◌<◌, String, Option, none, some, List, [], ◌∷◌, Map, lookup, insert, delete, map, ◌==◌, eq_iff,
  eq_refl, ◌≡◌, refl, arith, Bool-cases, inl, inr, if◌then◌else◌, lookup-insert, lookup-delete,
}
use scintx.Api.{ProviderCapabilities, ProviderResult}
use scintx.Store.{MemoryStore, ProviderEntry, or_empty}
use scintx.Jobs.Invariant.{IsValid}
use scintx.SqlQueue.Abstraction.{jobs_of, AllTimed}
use scintx.SqlStore.{Codecs, KeyRow, ResultRow, ProviderRow, SqlStore}

-- The rows of a map, one for each key.
abbrev pub rows_of : {A R : Type 0} → (A → R) → Map A → Map R
rows_of f [] = []
rows_of f ((k, a) ∷ m) = (k, f a) ∷ rows_of f m

abbrev pub row_of : {A R : Type 0} → (A → R) → Option A → Option R
row_of f none = none
row_of f (some a) = some (f a)

module _ {A R : Type 0} (f : A → R) where
  pub lookup-rows_of : (k : String) (m : Map A) → lookup k (rows_of f m) ≡ row_of f (lookup k m)
  unfolding lookup
  lookup-rows_of k [] = refl
  lookup-rows_of k ((j, a) ∷ m) = ground (arith, lookup-rows_of k m)

  pub insert-rows_of :
      (k : String) (a : A) (m : Map A) → insert k (f a) (rows_of f m) ≡ rows_of f (insert k a m)
  unfolding insert
  insert-rows_of k a [] = refl
  insert-rows_of k a ((j, b) ∷ m) = ground (arith, insert-rows_of k a m)

  pub delete-rows_of : (k : String) (m : Map A) → delete k (rows_of f m) ≡ rows_of f (delete k m)
  unfolding delete
  delete-rows_of k [] = refl
  delete-rows_of k ((j, b) ∷ m) = ground (arith, delete-rows_of k m)

-- The row of a key that leads to an id, with its hash from the other map.
abbrev pub key_row : String → Map String → String → KeyRow
key_row k hashes id = record { submission_id = id; request_hash = or_empty (lookup k hashes) }

abbrev pub key_rows : Map String → Map String → Map KeyRow
key_rows [] hashes = []
key_rows ((k, id) ∷ m) hashes = (k, key_row k hashes id) ∷ key_rows m hashes

abbrev pub key_row_of : String → Map String → Option String → Option KeyRow
key_row_of k hashes none = none
key_row_of k hashes (some id) = some (key_row k hashes id)

pub lookup-key_rows :
    (k : String) (m hashes : Map String)
    → lookup k (key_rows m hashes) ≡ key_row_of k hashes (lookup k m)
unfolding lookup
lookup-key_rows k [] hashes = refl
lookup-key_rows k ((j, id) ∷ m) hashes = ground (arith, lookup-key_rows k m hashes, eq_iff j k)

-- A key that is not bound gets its row at the end, as it gets its place in the map.
pub insert-key_rows :
    (k id hash : String) (m hashes : Map String)
    → lookup k m ≡ none
    → insert k (record { submission_id = id; request_hash = hash }) (key_rows m hashes)
      ≡ key_rows (insert k id m) (insert k hash hashes)
unfolding lookup insert
insert-key_rows k id hash [] hashes h = ground (arith, lookup-insert k k hash hashes, eq_refl k)
insert-key_rows k id hash ((j, i) ∷ m) hashes h = elim (Bool-cases (j == k)) [
  | inl e ↦ ground arith
  | inr e ↦ ground (
    arith,
    insert-key_rows k id hash m hashes,
    lookup-insert k j hash hashes,
    eq_iff j k,
    eq_iff k j,
  )
]

-- A key that is bound without a hash.
pub insert-key_rows_bare :
    (k id : String) (m hashes : Map String)
    → lookup k m ≡ none
    → lookup k hashes ≡ none
    → insert k (record { submission_id = id; request_hash = "" }) (key_rows m hashes)
      ≡ key_rows (insert k id m) hashes
unfolding lookup insert
insert-key_rows_bare k id [] hashes h n = ground arith
insert-key_rows_bare k id ((j, i) ∷ m) hashes h n = elim (Bool-cases (j == k)) [
  | inl e ↦ ground arith
  | inr e ↦ ground (arith, insert-key_rows_bare k id m hashes)
]

pub delete-key_rows :
    (k : String) (m hashes : Map String)
    → delete k (key_rows m hashes) ≡ key_rows (delete k m) (delete k hashes)
unfolding delete
delete-key_rows k [] hashes = refl
delete-key_rows k ((j, i) ∷ m) hashes =
    ground (arith, delete-key_rows k m hashes, lookup-delete k j hashes, eq_iff j k, eq_iff k j)

-- The place of a row in ORDER BY grows along the table.
abbrev pub Above : {B : Type 0} → ℕ → Map (ProviderRow B) → Type 0
Above n [] = Unit
Above n ((k, r) ∷ rows) = (n < r.sort_order) × Above r.sort_order rows

abbrev pub names_of : {B : Type 0} → Map (ProviderRow B) → List (String × String × B)
names_of [] = []
names_of ((k, r) ∷ rows) = (k, r.name, r.capabilities) ∷ names_of rows

abbrev pub caps_in : String → List ProviderEntry → Option ProviderCapabilities
caps_in id [] = none
caps_in id (p ∷ ps) = if p.id == id then some p.capabilities else caps_in id ps

module _ {S B : Type 0} (json : Codecs S B) where
  abbrev pub result_row : ProviderResult S → ResultRow B
  result_row r = record { submission_id = r.submission_id; body = json.result.encode r }

  abbrev pub named_entry : ProviderEntry → String × String × B
  named_entry p = (p.id, p.name, json.capabilities.encode p.capabilities)

  -- The tables hold what the in-memory store holds.
  pub record Mirrors (q : SqlStore B) (m : MemoryStore S) : Type 0 where
    pub submissions : q.submissions ≡ rows_of json.submission.encode m.submissions
    pub idempotency : q.idempotency ≡ key_rows m.idempotency m.idem_hash
    pub unbound : (key : String) → lookup key m.idempotency ≡ none → lookup key m.idem_hash ≡ none
    pub results : q.results ≡ rows_of result_row m.results
    pub merged_results : q.merged_results ≡ rows_of json.merged_result.encode m.merged_results
    pub decisions : q.decisions ≡ rows_of json.decision.encode m.decisions
    pub events : q.events ≡ map json.event.encode m.events
    pub artifacts : q.artifacts ≡ m.artifacts
    pub providers : names_of q.providers ≡ map named_entry m.providers
    pub ordered : Above 0 q.providers
    pub snapshots : (id : String) → lookup id m.cap_snapshots ≡ caps_in id m.providers
    pub jobs : jobs_of q.jobs ≡ m.jobs
    pub timed : AllTimed q.jobs
    pub valid : IsValid m.jobs
