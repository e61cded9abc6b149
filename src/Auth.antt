-- ===== src/Auth.antt =====
-- internal/auth: the authentication of requests, by HMAC signatures or by bearer tokens. A request
-- has its headers under their canonical names; a body is a list of bytes.
pub mod Text
pub mod Numbers
pub mod Parsing
pub mod Sign
pub mod Environment
pub mod Middleware
pub mod Trims
pub mod Reading
pub mod Signed
pub mod RoundTrip
pub mod Closed
pub mod Profiles
pub mod Guarded
use scintx.Base.{ℕ, String, Option, none, some, List, [], ◌∷◌, Map, lookup, insert, contains, ◌==◌}
use scintx.Api.{Duration}

-- What the handlers of this package read of an http.Request. `url_path` is the path with its
-- escapes resolved.
pub record Request : Type 0 where
  pub method : String
  pub escaped_path : String
  pub url_path : String
  pub headers : Map String

abbrev or_no_value : Option String → String
or_no_value none = ""
or_no_value (some v) = v

-- req.Header.Get
abbrev pub header : String → Request → String
header name req = or_no_value (lookup name req.headers)

-- req.Header.Set
abbrev pub set_header : String → String → Request → Request
set_header name v req = record req { headers = insert name v req.headers }

-- SHA-256, HMAC-SHA256 under a secret, base64 and strconv.Quote.
pub record Crypto : Type 0 where
  pub sha256 : List ℕ → List ℕ
  pub hmac : String → String → List ℕ
  pub encode : List ℕ → String
  pub decode : String → Option (List ℕ)
  pub quote : String → String

-- Config
pub record Config : Type 0 where
  pub profiles : List String
  pub hmac_keys : Map String
  pub bearer_tokens : List String
  pub max_skew : Duration

abbrev pub profile_hmac : String
profile_hmac = "hmac-sha256"

abbrev pub profile_bearer : String
profile_bearer = "bearer"

-- `out_of_range` is no error but the panic of a slice.
pub data AuthError : Type 0 where
  missing_label missing_list unterminated_list bad_created bad_expires incomplete : AuthError
  bad_value digest_missing digest_mismatch type_missing unsupported : AuthError
  missing_headers bad_alg unknown_key skewed expired bad_base64 mismatch : AuthError
  missing_authorization not_bearer bad_token out_of_range : AuthError
