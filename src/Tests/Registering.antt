-- ===== src/Tests/Registering.antt =====
-- The registry, at two providers that register in either order.
use scintx.Base.{ℕ, String, [], ◌∷◌, Map, lookup, ◌≡◌, refl, eq_iff, arith}
use scintx.Registry.{Made, made, skipped, load_providers, registered_ids}
use scintx.Registry.Deterministic.{load_providers-deterministic}

abbrev one_way : Map (Made ℕ)
one_way = ("osv", made 1) ∷ ("ossindex", skipped "no token") ∷ []

abbrev other_way : Map (Made ℕ)
other_way = ("ossindex", skipped "no token") ∷ ("osv", made 1) ∷ []

one_way-same : (k : String) → lookup k one_way ≡ lookup k other_way
unfolding lookup
one_way-same k = ground (arith, eq_iff "osv" k, eq_iff "ossindex" k, eq_iff "osv" "ossindex")

load_providers-deterministic_example :
    (load_providers " osv, ,ossindex" one_way ≡ load_providers " osv, ,ossindex" other_way)
    × (registered_ids one_way ≡ registered_ids other_way)
load_providers-deterministic_example =
    load_providers-deterministic " osv, ,ossindex" one_way other_way (refl, (refl, tt))
      (refl, (refl, tt)) one_way-same
