-- ===== src/Auth/Environment.antt =====
-- internal/auth/config.go: the configuration from the environment. The values of the variables and
-- time.ParseDuration are arguments.
use scintx.Base.{
  String, Bool, not, ◌||◌, Option, none, some, List, [], ◌∷◌, ◌++◌, Map, insert, contains, is_empty,
  ◌==◌, if◌then◌else◌, trim_space, to_lower,
}
use scintx.Api.{Duration}
use scintx.Auth.{Config, profile_hmac, profile_bearer}
use scintx.Purl.{cut, split_on}

pub record Environment : Type 0 where
  pub auth : String
  pub max_skew : String
  pub hmac_keys : String
  pub bearer_tokens : String

pub data ConfigError : Type 0 where
  unknown_profile bad_key : String → ConfigError
  bad_skew no_keys no_tokens : ConfigError

pub data Read (A : Type 0) : Type 0 where
  ok : A → Read A
  err : ConfigError → Read A

infixl 5 ◌>>=◌
abbrev pub ◌>>=◌ : {A C : Type 0} → Read A → (A → Read C) → Read C
ok a >>= f = f a
err e >>= f = err e

-- appendUnique
abbrev pub append_unique : List String → String → List String
append_unique names v = if contains v names then names else names ++ v ∷ []

-- The switch on the name of a profile.
unfoldable pub add_profile : String → List String → Read (List String)
add_profile p profiles =
    if p == "hmac" || p == profile_hmac || p == "rfc9421"
    then ok (append_unique profiles profile_hmac)
    else if p == "bearer" || p == "oauth" || p == "token"
    then ok (append_unique profiles profile_bearer)
    else if p == ""
    then ok profiles
    else err (ConfigError.unknown_profile p)

unfoldable pub read_profiles : List String → List String → Read (List String)
unfolding add_profile trim_space
read_profiles [] profiles = ok profiles
read_profiles (part ∷ parts) profiles =
    add_profile (trim_space part) profiles >>= λ next. read_profiles parts next

abbrev pub or_bad_skew : Option Duration → Read Duration
or_bad_skew none = err ConfigError.bad_skew
or_bad_skew (some d) = ok d

-- Five minutes.
abbrev pub default_skew : Duration
default_skew = Duration.ahead 300_000_000_000

abbrev pub split_key : String → String × Option String → Map String → Read (Map String)
split_key part (id, none) keys = err (ConfigError.bad_key part)
split_key part (id, some secret) keys =
    if trim_space id == "" || trim_space secret == ""
    then err (ConfigError.bad_key part)
    else ok (insert (trim_space id) (trim_space secret) keys)

unfoldable pub add_key : String → Map String → Read (Map String)
unfolding cut trim_space
add_key part keys = if part == "" then ok keys else split_key part (cut b':' part) keys

unfoldable pub read_keys : List String → Map String → Read (Map String)
unfolding add_key trim_space
read_keys [] keys = ok keys
read_keys (part ∷ parts) keys = add_key (trim_space part) keys >>= λ next. read_keys parts next

-- A set of tokens.
unfoldable pub read_tokens : List String → List String
unfolding trim_space
read_tokens [] = []
read_tokens (part ∷ parts) =
    let rest = read_tokens parts in if trim_space part == "" then rest else trim_space part ∷ rest

-- The last loop: a profile wants its keys or tokens.
unfoldable pub check_profiles : List String → Config → Read Config
check_profiles [] cfg = ok cfg
check_profiles (p ∷ ps) cfg =
    let rest = check_profiles ps cfg in
    if p == profile_hmac
    then if is_empty cfg.hmac_keys then err ConfigError.no_keys else rest
    else if p == profile_bearer
    then if is_empty cfg.bearer_tokens then err ConfigError.no_tokens else rest
    else rest

abbrev pub disabled : Config
disabled = record { profiles = []; hmac_keys = []; bearer_tokens = []; max_skew = default_skew }

abbrev pub is_off : String → Bool
is_off raw = raw == "" || raw == "off" || raw == "none"

-- The configuration, where the authentication is not off.
abbrev pub read_config : (String → Option Duration) → Environment → String → Read Config
read_config parse_duration env raw = read_profiles (split_on b',' raw) [] >>= λ profiles.
    (if env.max_skew == "" then ok default_skew else or_bad_skew (parse_duration env.max_skew))
    >>= λ skew. read_keys (split_on b',' env.hmac_keys) [] >>= λ keys.
        check_profiles profiles (record {
          profiles = profiles;
          hmac_keys = keys;
          bearer_tokens = read_tokens (split_on b',' env.bearer_tokens);
          max_skew = skew;
        })

-- ConfigFromEnv
unfoldable pub config_from_env : (String → Option Duration) → Environment → Read Config
unfolding read_profiles read_keys read_tokens check_profiles split_on trim_space to_lower
config_from_env parse_duration env =
    let raw = to_lower (trim_space env.auth) in
    if is_off raw then ok disabled else read_config parse_duration env raw

-- Config.Enabled
abbrev pub enabled : Config → Bool
enabled cfg = not (is_empty cfg.profiles)
