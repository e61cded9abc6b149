-- ===== src/Registry/Deterministic.antt =====
-- The order in which the packages of api/registry.go register does not matter.
use scintx.Base.{
  String, Bool, true, false, Option, none, some, List, [], ◌∷◌, Map, lookup, keys, contains,
  DistinctKeys, ◌≡◌, refl, sym, ap, ◌∙◌, arith, sort, sort-Ordered, sort-DistinctTexts,
  contains-sort, DistinctTexts, sorted_unique,
}
use scintx.Registry.{Made, provider_allowlist, load_ids, load_providers, registered_ids}

module _ {P : Type 0} where
  abbrev is_found : Option (Made P) → Bool
  is_found none = false
  is_found (some f) = true

  contains-keys : (k : String) (fs : Map (Made P)) → contains k (keys fs) ≡ is_found (lookup k fs)
  unfolding lookup
  contains-keys k [] = refl
  contains-keys k ((j, f) ∷ fs) = ground (arith, contains-keys k fs)

  keys-DistinctTexts : (fs : Map (Made P)) → DistinctKeys fs → DistinctTexts (keys fs)
  keys-DistinctTexts [] d = tt
  keys-DistinctTexts ((j, f) ∷ fs) d = (d.0, keys-DistinctTexts fs d.1)

  module _ (fs gs : Map (Made P)) (same : (k : String) → lookup k fs ≡ lookup k gs) where
    load_ids-same :
        (allow : Option (List String)) (ids : List String)
        → load_ids allow ids fs ≡ load_ids allow ids gs
    unfolding load_ids
    load_ids-same allow [] = refl
    load_ids-same allow (id ∷ ids) = rw (same id, load_ids-same allow ids) refl

    registered_ids-same : DistinctKeys fs → DistinctKeys gs → registered_ids fs ≡ registered_ids gs
    unfolding registered_ids
    registered_ids-same d e =
        sorted_unique (sort (keys fs)) (sort (keys gs)) (sort-Ordered (keys fs))
          (sort-Ordered (keys gs)) (sort-DistinctTexts (keys fs) (keys-DistinctTexts fs d))
          (sort-DistinctTexts (keys gs) (keys-DistinctTexts gs e))
          (λ k.
            contains-sort k (keys fs)
            ∙ contains-keys k fs
            ∙ ap is_found (same k)
            ∙ sym (contains-keys k gs)
            ∙ sym (contains-sort k (keys gs)))

  -- Two registries that hold the same factory under each id load the same providers in the same
  -- order, or fail with the same error, and list the same ids, in whatever order the
  -- packages registered.
  pub load_providers-deterministic :
      (env : String) (fs gs : Map (Made P))
      → DistinctKeys fs
      → DistinctKeys gs
      → ((k : String) → lookup k fs ≡ lookup k gs)
      → (load_providers env fs ≡ load_providers env gs) × (registered_ids fs ≡ registered_ids gs)
  unfolding load_providers registered_ids
  load_providers-deterministic env fs gs d e same =
      let ids = registered_ids-same fs gs same d e in
      (rw (ids, load_ids-same fs gs same (provider_allowlist env) (sort (keys gs))) refl, ids)
