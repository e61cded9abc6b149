-- ===== src/Registry.antt =====
-- api/registry.go: the providers and policy engines that extension packages register when the
-- process starts. A factory is called once, so it stands for what it returns; the value of the
-- environment variable SCINTX_PROVIDERS is an argument. Logging is left out.
pub mod Deterministic
use scintx.Base.{
  String, Bool, true, false, not, Option, none, some, List, [], ◌∷◌, Map, lookup, insert, keys,
  contains, ◌==◌, sort, trim_space, if◌then◌else◌,
}
use scintx.Purl.{split_on}

-- What a factory returns: a value, ErrProviderSkipped with its reason, or another error.
pub data Made (P : Type 0) : Type 0 where
  made : P → Made P
  skipped broken : String → Made P

pub data LoadError : Type 0 where
  factory_failed : String → String → LoadError
  none_matched : LoadError
  not_registered : String → LoadError

pub data Loaded (A : Type 0) : Type 0 where
  loaded : A → Loaded A
  failed : LoadError → Loaded A

-- SkipProvider
abbrev pub skip_provider : {P : Type 0} → String → Made P
skip_provider reason = if reason == "" then skipped "provider skipped" else skipped reason

-- strings.Split with the trimming of providerAllowlist
unfoldable pub listed_ids : List String → List String
listed_ids [] = []
listed_ids (part ∷ parts) =
    let rest = listed_ids parts in if trim_space part == "" then rest else trim_space part ∷ rest

abbrev none_if_empty : List String → Option (List String)
none_if_empty [] = none
none_if_empty (id ∷ ids) = some (id ∷ ids)

-- providerAllowlist: `none` lets every provider load
unfoldable pub provider_allowlist : String → Option (List String)
unfolding listed_ids trim_space split_on
provider_allowlist env =
    if trim_space env == ""
    then none
    else none_if_empty (listed_ids (split_on b',' (trim_space env)))

abbrev pub allows : Option (List String) → String → Bool
allows none id = true
allows (some ids) id = contains id ids

-- RegisterProviderFactory and RegisterPolicyEngineFactory; `none` is the panic on a second one
unfoldable pub register_factory :
    {P : Type 0} → String → Made P → Map (Made P) → Option (Map (Made P))
register_factory id f fs = elim (lookup id fs) [ some g ↦ none | none ↦ some (insert id f fs) ]

abbrev prepend : {P : Type 0} → P → Loaded (List P) → Loaded (List P)
prepend p (loaded ps) = loaded (p ∷ ps)
prepend p (failed e) = failed e

-- What the call of a factory adds to the providers that load after it.
unfoldable pub instantiate :
    {P : Type 0} → String → Option (Made P) → Loaded (List P) → Loaded (List P)
instantiate id none rest = rest
instantiate id (some (made p)) rest = prepend p rest
instantiate id (some (skipped reason)) rest = rest
instantiate id (some (broken e)) rest = failed (LoadError.factory_failed id e)

-- The loop of LoadProviders.
unfoldable pub load_ids :
    {P : Type 0} → Option (List String) → List String → Map (Made P) → Loaded (List P)
unfolding instantiate
load_ids allow [] fs = loaded []
load_ids allow (id ∷ ids) fs =
    let rest = load_ids allow ids fs in
    if allows allow id then instantiate id (lookup id fs) rest else rest

abbrev checked : {P : Type 0} → Option (List String) → Loaded (List P) → Loaded (List P)
checked (some ids) (loaded []) = failed LoadError.none_matched
checked allow result = result

-- LoadProviders
unfoldable pub load_providers : {P : Type 0} → String → Map (Made P) → Loaded (List P)
unfolding provider_allowlist load_ids sort
load_providers env fs =
    let allow = provider_allowlist env in checked allow (load_ids allow (sort (keys fs)) fs)

-- RegisteredProviderIDs and RegisteredPolicyEngineIDs
unfoldable pub registered_ids : {P : Type 0} → Map (Made P) → List String
unfolding sort
registered_ids fs = sort (keys fs)

-- LoadPolicyEngine, which returns what the factory returns.
unfoldable pub load_policy_engine : {P : Type 0} → String → Map (Made P) → Loaded (Made P)
load_policy_engine id fs = elim (lookup id fs) [
  | none ↦ failed (LoadError.not_registered id)
  | some f ↦ loaded f
]
