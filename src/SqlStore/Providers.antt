-- ===== src/SqlStore/Providers.antt =====
-- internal/store/sql_ops.go: the table of providers lists what the in-memory store lists, in its
-- order.
use scintx.Base.{
  ℕ, ◌<◌, String, none, some, List, [], ◌∷◌, Map, map, lookup, insert, ◌==◌, eq_iff, ◌≡◌, ◌≢◌, refl,
  ap, ◌∙◌, arith, Bool-cases, inl, inr, if◌then◌else◌,
}
use scintx.Api.{ProviderCapabilities}
use scintx.Store.{ProviderEntry}
use scintx.Store.Records.{replace_entry, update_entry}
use scintx.SqlStore.{Codecs, ProviderRow, found}
use scintx.SqlStore.Laws.{Faithful}
use scintx.SqlStore.Records.{
  upsert_provider, max_order, in_order, place_row, read_entries, capabilities_in,
}
use scintx.SqlStore.Tables.{Above, names_of, caps_in, named_entry, row_of}

module _ {B : Type 0} where
  place_row-first :
      (k : String) (r : ProviderRow B) (rows : Map (ProviderRow B))
      → Above r.sort_order rows
      → place_row (k, r) rows ≡ (k, r) ∷ rows
  unfolding place_row
  place_row-first k r [] a = refl
  place_row-first k r ((j, w) ∷ rows) a = ground arith

  pub in_order_lem : (n : ℕ) (rows : Map (ProviderRow B)) → Above n rows → in_order rows ≡ rows
  unfolding in_order
  in_order_lem n [] a = refl
  in_order_lem n ((k, r) ∷ rows) a =
      ap (place_row (k, r)) (in_order_lem r.sort_order rows a.1) ∙ place_row-first k r rows a.1

  pub upsert_provider-Above :
      (id name : String) (caps : B) (next n : ℕ) (rows : Map (ProviderRow B))
      → Above n rows
      → n < next
      → max_order rows < next
      → Above n (upsert_provider id name caps next rows)
  unfolding upsert_provider max_order
  upsert_provider-Above id name caps next n [] a l b = (l, tt)
  upsert_provider-Above id name caps next n ((k, r) ∷ rows) a l b = elim (Bool-cases (k == id)) [
    | inl e ↦ rw e a
    | inr e ↦ rw e (
      a.0,
      upsert_provider-Above id name caps next r.sort_order rows a.1 (ground arith) (ground arith),
    )
  ]

  pub insert-Above :
      (id : String) (caps : B) (r : ProviderRow B) (n : ℕ) (rows : Map (ProviderRow B))
      → lookup id rows ≡ some r
      → Above n rows
      → Above n (insert id (record r { capabilities = caps }) rows)
  unfolding lookup insert
  insert-Above id caps r n [] e a = cc
  insert-Above id caps r n ((k, w) ∷ rows) e a = elim (Bool-cases (k == id)) [
    | inl h ↦ let same : w ≡ r = ground arith in rw h (ground (arith, ap (λ x. x.sort_order) same))
    | inr h ↦ rw h (a.0, insert-Above id caps r w.sort_order rows (ground arith) a.1)
  ]

module _ {S B : Type 0} (json : Codecs S B) where
  pub names_of-upsert_provider :
      (p : ProviderEntry) (next : ℕ) (rows : Map (ProviderRow B)) (ps : List ProviderEntry)
      → names_of rows ≡ map (named_entry json) ps
      → names_of (upsert_provider p.id p.name (json.capabilities.encode p.capabilities) next rows)
        ≡ map (named_entry json) (replace_entry p ps)
  unfolding upsert_provider replace_entry
  names_of-upsert_provider p next [] [] e = refl
  names_of-upsert_provider p next [] (b ∷ ps) e = cc
  names_of-upsert_provider p next ((k, r) ∷ rows) [] e = cc
  names_of-upsert_provider p next ((k, r) ∷ rows) (b ∷ ps) e =
      ground (arith, names_of-upsert_provider p next rows ps, eq_iff k p.id, eq_iff b.id p.id)

  pub names_of-insert :
      (id : String) (caps : ProviderCapabilities) (r : ProviderRow B) (rows : Map (ProviderRow B))
      (ps : List ProviderEntry)
      → names_of rows ≡ map (named_entry json) ps
      → lookup id rows ≡ some r
      → names_of (insert id (record r { capabilities = json.capabilities.encode caps }) rows)
        ≡ map (named_entry json) (update_entry id caps ps)
  unfolding lookup insert update_entry
  names_of-insert id caps r [] ps e f = cc
  names_of-insert id caps r ((k, w) ∷ rows) [] e f = cc
  names_of-insert id caps r ((k, w) ∷ rows) (b ∷ ps) e f =
      ground (arith, names_of-insert id caps r rows ps, eq_iff k id, eq_iff b.id id)

  pub lookup-names_of :
      (id : String) (rows : Map (ProviderRow B)) (ps : List ProviderEntry)
      → names_of rows ≡ map (named_entry json) ps
      → capabilities_in (lookup id rows) ≡ row_of json.capabilities.encode (caps_in id ps)
  unfolding lookup
  lookup-names_of id [] [] e = refl
  lookup-names_of id [] (b ∷ ps) e = cc
  lookup-names_of id ((k, r) ∷ rows) [] e = cc
  lookup-names_of id ((k, r) ∷ rows) (b ∷ ps) e = ground (arith, lookup-names_of id rows ps)

  pub read_entries_lem :
      (law : Faithful json) (rows : Map (ProviderRow B)) (ps : List ProviderEntry)
      → names_of rows ≡ map (named_entry json) ps
      → read_entries json rows ≡ found ps
  unfolding read_entries
  read_entries_lem law [] [] e = refl
  read_entries_lem law [] (b ∷ ps) e = cc
  read_entries_lem law ((k, r) ∷ rows) [] e = cc
  read_entries_lem law ((k, r) ∷ rows) (b ∷ ps) e =
      ground (arith, read_entries_lem law rows ps, law.capabilities b.capabilities)

pub caps_in-replace_entry :
    (k : String) (p : ProviderEntry) (ps : List ProviderEntry)
    → caps_in k (replace_entry p ps) ≡ (if p.id == k then some p.capabilities else caps_in k ps)
unfolding replace_entry
caps_in-replace_entry k p [] = refl
caps_in-replace_entry k p (b ∷ ps) =
    ground (arith, caps_in-replace_entry k p ps, eq_iff b.id p.id, eq_iff b.id k, eq_iff p.id k)

pub caps_in-update_entry :
    (k id : String) (caps : ProviderCapabilities) (ps : List ProviderEntry)
    → caps_in id ps ≢ none
    → caps_in k (update_entry id caps ps) ≡ (if id == k then some caps else caps_in k ps)
unfolding update_entry
caps_in-update_entry k id caps [] n = absurd (n refl)
caps_in-update_entry k id caps (b ∷ ps) n =
    ground (arith, caps_in-update_entry k id caps ps, eq_iff b.id id, eq_iff b.id k, eq_iff id k)
