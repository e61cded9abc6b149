-- ===== src/Auth/Closed.antt =====
-- internal/auth/config.go: what a configuration that ConfigFromEnv accepts is like.
use scintx.Base.{
  String, Bool, true, false, ◌||◌, Option, none, some, List, [], ◌∷◌, ◌++◌, Map, lookup,
  lookup-insert, insert, contains, is_empty, ◌≡◌, refl, sym, subst, arith, inl, inr, Bool-cases,
  ◌==◌, eq_iff, if◌then◌else◌, trim_space, to_lower, ◌≢◌, DistinctTexts,
}
use scintx.Api.{Duration}
use scintx.Auth.{Config, profile_hmac, profile_bearer}
use scintx.Auth.Environment.{
  Environment, Read, ok, err, append_unique, add_profile, read_profiles, default_skew, or_bad_skew,
  split_key, add_key, read_keys, read_tokens, check_profiles, disabled, is_off, read_config,
  config_from_env, ◌>>=◌,
}
use scintx.Purl.{cut, split_on}

-- Every profile is one of the two, at most once, and has its keys or tokens; no secret, no key id and
-- no token is empty.
pub record IsClosed (cfg : Config) : Type 0 where
  pub known :
      (p : String)
      → contains p cfg.profiles ≡ true
      → (p == profile_hmac || p == profile_bearer) ≡ true
  pub distinct : DistinctTexts cfg.profiles
  pub keyed : contains profile_hmac cfg.profiles ≡ true → is_empty cfg.hmac_keys ≡ false
  pub tokened : contains profile_bearer cfg.profiles ≡ true → is_empty cfg.bearer_tokens ≡ false
  pub no_key : (id : String) → lookup id cfg.hmac_keys ≢ some ""
  pub no_empty_id : lookup "" cfg.hmac_keys ≡ none
  pub no_token : contains "" cfg.bearer_tokens ≡ false

-- What a profile list must be like while it is read.
abbrev Known : List String → Type 0
Known profiles =
    ((p : String) → contains p profiles ≡ true → (p == profile_hmac || p == profile_bearer) ≡ true)
    × DistinctTexts profiles

abbrev Holds : {A : Type 0} → (A → Type 0) → Read A → Type 0
Holds P (ok a) = P a
Holds P (err e) = Unit

module _ {A : Type 0} (P : A → Type 0) where
  if-Holds : (b : Bool) (x y : Read A) → Holds P x → Holds P y → Holds P (if b then x else y)
  if-Holds true x y h k = h
  if-Holds false x y h k = k

  then-Holds :
      {C : Type 0} (Q : C → Type 0) (r : Read A) (f : A → Read C)
      → Holds P r
      → ((a : A) → P a → Holds Q (f a))
      → Holds Q (r >>= f)
  then-Holds Q (ok a) f h k = k a h
  then-Holds Q (err e) f h k = tt

contains-append :
    (x y : String) (ys : List String) → contains x (ys ++ y ∷ []) ≡ (contains x ys || y == x)
contains-append x y [] = ground arith
contains-append x y (z ∷ ys) = ground (arith, contains-append x y ys)

append-DistinctTexts :
    (y : String) (ys : List String)
    → contains y ys ≡ false
    → DistinctTexts ys
    → DistinctTexts (ys ++ y ∷ [])
append-DistinctTexts y [] h d = (refl, tt)
append-DistinctTexts y (z ∷ ys) h d = (
  ground (arith, contains-append z y ys, eq_iff y z, eq_iff z y),
  append-DistinctTexts y ys (ground arith) d.1,
)

mono-Holds :
    {A : Type 0} (P Q : A → Type 0) (r : Read A) → Holds P r → ((a : A) → P a → Q a) → Holds Q r
mono-Holds P Q (ok a) h f = f a h
mono-Holds P Q (err e) h f = tt

append_unique-Known :
    (v : String) (profiles : List String)
    → (v == profile_hmac || v == profile_bearer) ≡ true
    → Known profiles
    → Known (append_unique profiles v)
append_unique-Known v profiles k h = elim (Bool-cases (contains v profiles)) [
  | inl t ↦ rw t h
  | inr t ↦ rw t (
    (λ p q. ground (arith, contains-append p v profiles, eq_iff v p, h.0 p)),
    append-DistinctTexts v profiles t h.1,
  )
]

add_profile-Known :
    (p : String) (profiles : List String) → Known profiles → Holds Known (add_profile p profiles)
unfolding add_profile
add_profile-Known p profiles h =
    if-Holds Known (p == "hmac" || p == profile_hmac || p == "rfc9421") _ _
      (append_unique-Known profile_hmac profiles refl h)
      (if-Holds Known (p == "bearer" || p == "oauth" || p == "token") _ _
        (append_unique-Known profile_bearer profiles refl h)
        (if-Holds Known (p == "") (ok profiles) (err _) h tt))

read_profiles-Known :
    (parts profiles : List String) → Known profiles → Holds Known (read_profiles parts profiles)
unfolding read_profiles
read_profiles-Known [] profiles h = h
read_profiles-Known (part ∷ parts) profiles h =
    then-Holds Known Known (add_profile (trim_space part) profiles) (read_profiles parts)
      (add_profile-Known (trim_space part) profiles h) (read_profiles-Known parts)

-- No key id and no secret is empty.
abbrev Filled : Map String → Type 0
Filled keys = ((id : String) → lookup id keys ≢ some "") × (lookup "" keys ≡ none)

insert-Filled :
    (k v : String) (keys : Map String)
    → k == "" ≡ false
    → v == "" ≡ false
    → Filled keys
    → Filled (insert k v keys)
insert-Filled k v keys a b h = (
  (λ j e. ground (arith, lookup-insert k j v keys, h.0 j, eq_iff v "")),
  ground (arith, lookup-insert k "" v keys, h.1),
)

split_key-Filled :
    (part : String) (kv : String × Option String) (keys : Map String)
    → Filled keys
    → Holds Filled (split_key part kv keys)
split_key-Filled part (id, none) keys h = tt
split_key-Filled part (id, some secret) keys h =
    elim (Bool-cases (trim_space id == "" || trim_space secret == "")) [
      | inl t ↦ rw t tt
      | inr t ↦
          rw t
            (insert-Filled (trim_space id) (trim_space secret) keys (ground arith) (ground arith) h)
    ]

add_key-Filled :
    (part : String) (keys : Map String) → Filled keys → Holds Filled (add_key part keys)
unfolding add_key
add_key-Filled part keys h =
    if-Holds Filled (part == "") (ok keys) _ h (split_key-Filled part (cut b':' part) keys h)

read_keys-Filled :
    (parts : List String) (keys : Map String) → Filled keys → Holds Filled (read_keys parts keys)
unfolding read_keys
read_keys-Filled [] keys h = h
read_keys-Filled (part ∷ parts) keys h =
    then-Holds Filled Filled (add_key (trim_space part) keys) (read_keys parts)
      (add_key-Filled (trim_space part) keys h) (read_keys-Filled parts)

read_tokens-filled : (parts : List String) → contains "" (read_tokens parts) ≡ false
unfolding read_tokens
read_tokens-filled [] = refl
read_tokens-filled (part ∷ parts) = ground (arith, read_tokens-filled parts)

-- The last loop lets a configuration through only if the profiles have their keys and tokens.
abbrev Equipped : List String → Config → Type 0
Equipped profiles cfg =
    (contains profile_hmac profiles ≡ true → is_empty cfg.hmac_keys ≡ false)
    × (contains profile_bearer profiles ≡ true → is_empty cfg.bearer_tokens ≡ false)

check_profiles-Equipped :
    (profiles : List String) (cfg : Config)
    → Holds (λ c. (c ≡ cfg) × Equipped profiles cfg) (check_profiles profiles cfg)
unfolding check_profiles
check_profiles-Equipped [] cfg = (refl, ((λ e. cc), (λ e. cc)))
check_profiles-Equipped (p ∷ ps) cfg =
    let rest = check_profiles-Equipped ps cfg in
    elim (Bool-cases (p == profile_hmac)) [
      | inl t ↦
          let q : p == profile_bearer ≡ false = rw ((eq_iff p profile_hmac).0 t) refl in
          elim (Bool-cases (is_empty cfg.hmac_keys)) [
            | inl m ↦ rw (t, m) tt
            | inr m ↦
                rw (t, m)
                  (mono-Holds _ _ (check_profiles ps cfg) rest (λ c h. (
                    h.0,
                    (
                      (λ e. refl),
                      (λ e. h.1.1 (subst (λ b. (b || contains profile_bearer ps) ≡ true) q e)),
                    ),
                  )))
          ]
      | inr t ↦ elim (Bool-cases (p == profile_bearer)) [
        | inl u ↦ elim (Bool-cases (is_empty cfg.bearer_tokens)) [
          | inl m ↦ rw (t, u, m) tt
          | inr m ↦
              rw (t, u, m)
                (mono-Holds _ _ (check_profiles ps cfg) rest (λ c h. (h.0, (h.1.0, (λ e. refl)))))
        ]
        | inr u ↦ rw (t, u) (mono-Holds _ _ (check_profiles ps cfg) rest (λ c h. h))
      ]
    ]

any_Holds : {A : Type 0} (r : Read A) → Holds (λ a. Unit) r
any_Holds (ok a) = tt
any_Holds (err e) = tt

nothing_Filled : Filled []
unfolding lookup
nothing_Filled = ((λ id e. cc), refl)

disabled-IsClosed : IsClosed disabled
disabled-IsClosed = record {
  known = λ p e. cc;
  distinct = tt;
  keyed = λ e. cc;
  tokened = λ e. cc;
  no_key = nothing_Filled.0;
  no_empty_id = nothing_Filled.1;
  no_token = refl;
}

module _ (parse_duration : String → Option Duration) (env : Environment) where
  read_config-IsClosed : (raw : String) → Holds IsClosed (read_config parse_duration env raw)
  read_config-IsClosed raw =
      then-Holds Known IsClosed (read_profiles (split_on b',' raw) []) _
        (read_profiles-Known (split_on b',' raw) [] ((λ p e. cc), tt))
        (λ profiles known.
          then-Holds (λ skew. Unit) IsClosed
            (if env.max_skew == ""
              then ok default_skew
              else or_bad_skew (parse_duration env.max_skew))
            _ (any_Holds _)
            (λ skew u.
              then-Holds Filled IsClosed (read_keys (split_on b',' env.hmac_keys) []) _
                (read_keys-Filled (split_on b',' env.hmac_keys) [] nothing_Filled)
                (λ keys filled.
                  mono-Holds _ IsClosed (check_profiles profiles _)
                    (check_profiles-Equipped profiles _)
                    (λ cfg h. subst IsClosed (sym h.0) (record {
                      known = known.0;
                      distinct = known.1;
                      keyed = h.1.0;
                      tokened = h.1.1;
                      no_key = filled.0;
                      no_empty_id = filled.1;
                      no_token = read_tokens-filled (split_on b',' env.bearer_tokens);
                    })))))

  config_Holds : Holds IsClosed (config_from_env parse_duration env)
  unfolding config_from_env
  config_Holds =
      if-Holds IsClosed (is_off (to_lower (trim_space env.auth))) (ok disabled) _ disabled-IsClosed
        (read_config-IsClosed (to_lower (trim_space env.auth)))

  -- Every configuration that ConfigFromEnv accepts has known profiles only, none of them twice, keys
  -- for the signatures and tokens for the bearers if they are enabled, and neither an empty key id,
  -- an empty secret nor an empty token.
  pub config_from_env-IsClosed :
      (cfg : Config) → config_from_env parse_duration env ≡ ok cfg → IsClosed cfg
  config_from_env-IsClosed cfg e = subst (Holds IsClosed) e config_Holds
