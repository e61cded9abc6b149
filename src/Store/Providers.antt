-- ===== src/Store/Providers.antt =====
-- Registered providers and the snapshots of their capabilities.
use scintx.Base.{
  String, false, some, List, [], ◌∷◌, contains, lookup-insert, ◌==◌, ◌||◌, eq_iff, if◌then◌else◌,
  ◌≡◌, refl, arith,
}
use scintx.Store.{MemoryStore, ProviderEntry}
use scintx.Store.Records.{replace_entry, register_provider, get_capabilities}

-- The ids of the entries, in order.
abbrev entry_ids : List ProviderEntry → List String
entry_ids [] = []
entry_ids (p ∷ ps) = p.id ∷ entry_ids ps

abbrev Distinct : List ProviderEntry → Type 0
Distinct [] = Unit
Distinct (p ∷ ps) = (contains p.id (entry_ids ps) ≡ false) × Distinct ps

contains-replace_entry :
    (p : ProviderEntry) (k : String) (ps : List ProviderEntry)
    → contains k (entry_ids (replace_entry p ps)) ≡ (p.id == k || contains k (entry_ids ps))
unfolding replace_entry
contains-replace_entry p k [] = refl
contains-replace_entry p k (q ∷ qs) =
    ground (arith, eq_iff q.id p.id, eq_iff p.id k, eq_iff q.id k, contains-replace_entry p k qs)

replace_entry-Distinct :
    (p : ProviderEntry) (ps : List ProviderEntry) → Distinct ps → Distinct (replace_entry p ps)
unfolding replace_entry
replace_entry-Distinct p [] d = (refl, tt)
replace_entry-Distinct p (q ∷ qs) d = ground (
  arith,
  eq_iff q.id p.id,
  eq_iff p.id q.id,
  contains-replace_entry p q.id qs,
  replace_entry-Distinct p qs d.1,
)

-- Registering a provider keeps the listed ids distinct; the id is listed from then on, no other id
-- comes or goes, and its capabilities read back, while those of the others are as before.
register_provider-Distinct :
    {S : Type 0} (p : ProviderEntry) (s : MemoryStore S)
    → Distinct s.providers
    → Distinct (register_provider p s).providers
      × ((k : String)
          → contains k (entry_ids (register_provider p s).providers)
            ≡ (p.id == k || contains k (entry_ids s.providers)))
      × ((k : String)
          → get_capabilities k (register_provider p s)
            ≡ (if p.id == k then some p.capabilities else get_capabilities k s))
unfolding register_provider get_capabilities
register_provider-Distinct p s d = (
  replace_entry-Distinct p s.providers d,
  λ k. contains-replace_entry p k s.providers,
  λ k. lookup-insert p.id k p.capabilities s.cap_snapshots,
)
