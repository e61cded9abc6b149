-- ===== src/Tests/Signing.antt =====
-- Requests and an environment for internal/auth.
use scintx.Base.{
  ℕ, zero, suc, String, ◌^^◌, len, Bool, true, false, Option, none, some, List, [], ◌∷◌, insert,
  lookup, ◌≢◌, ◌==◌, eq_iff, ◌≡◌, refl, arith, ◌⊎◌,
}
use scintx.Api.{Duration}
use scintx.Auth.{Request, Config, Crypto, AuthError, profile_hmac, profile_bearer}
use scintx.Auth.Environment.{Environment, ok, config_from_env}
use scintx.Auth.Closed.{IsClosed, config_from_env-IsClosed}
use scintx.Auth.Sign.{sign_request, verify_hmac, skewed_too_far}
use scintx.Auth.Middleware.{bad_request, unauthorized, read_body, middleware}
use scintx.Auth.Guarded.{Decided, middleware-Decided, middleware-closed}
use scintx.Auth.RoundTrip.{verify_hmac-sign_request}
use scintx.Purl.{cons, is_char, strip_prefix}

-- An encoding that writes a number in unary.
unfoldable encode_byte : ℕ → String → String
encode_byte zero rest = cons "b" rest
encode_byte (suc n) rest = cons "a" (encode_byte n rest)

unfoldable encode : List ℕ → String
unfolding encode_byte
encode [] = ""
encode (b ∷ bs) = encode_byte b (encode bs)

abbrev decode_mark : Bool → Option (List ℕ) → Option (List ℕ)
decode_mark ends none = none
decode_mark true (some bs) = some (zero ∷ bs)
decode_mark false (some []) = none
decode_mark false (some (b ∷ bs)) = some (suc b ∷ bs)

unfoldable decode : String → Option (List ℕ)
decode String.[] = some []
decode (String.◌∷◌ c s) = decode_mark (is_char b'b' c) (decode s)

decode-encode_byte :
    (b : ℕ) (bs : List ℕ) (s : String)
    → decode s ≡ some bs
    → decode (encode_byte b s) ≡ some (b ∷ bs)
unfolding decode encode_byte
decode-encode_byte zero bs s h = rw h refl
decode-encode_byte (suc b) bs s h = rw (decode-encode_byte b bs s h) refl

decode-encode : (bs : List ℕ) → decode (encode bs) ≡ some bs
unfolding decode encode
decode-encode [] = refl
decode-encode (b ∷ bs) = decode-encode_byte b bs (encode bs) (decode-encode bs)

-- A digest that is the content, and a code that is made of lengths.
abbrev lengths : Crypto
lengths = record {
  sha256 = λ content. content;
  hmac = λ secret base. len secret ∷ len base ∷ [];
  encode = encode;
  decode = decode;
  quote = λ s. "\"" ^^ (s ^^ "\"");
}

abbrev five_minutes : Duration
five_minutes = Duration.ahead 300_000_000_000

abbrev both_profiles : Config
both_profiles = record {
  profiles = profile_hmac ∷ profile_bearer ∷ [];
  hmac_keys = ("gateway", "s3cret") ∷ [];
  bearer_tokens = "token" ∷ [];
  max_skew = five_minutes;
}

abbrev settings : Environment
settings = record {
  auth = " HMAC, bearer ,oauth";
  max_skew = "";
  hmac_keys = "gateway: s3cret,";
  bearer_tokens = "token , ";
}

abbrev no_duration : String → Option Duration
no_duration s = none

read_settings : config_from_env no_duration settings ≡ ok both_profiles
unfolding config_from_env insert
read_settings = refl

config_from_env-IsClosed_example : IsClosed both_profiles
config_from_env-IsClosed_example =
    config_from_env-IsClosed no_duration settings both_profiles read_settings

abbrev posted : Request
posted = record {
  method = "POST";
  escaped_path = "/v1/submissions";
  url_path = "/v1/submissions";
  headers = ("Content-Type", "application/json") ∷ [];
}

filled : (s : String) → s == "" ≡ false → s ≢ ""
filled s h e = ground (arith, eq_iff s "")

-- The body that was signed is gone.
verify_hmac-sign_request_example :
    (signed : Request) × ((sign_request lengths posted "gateway" "s3cret"
          (1 ∷ 2 ∷ [])
          none
          2_000_000_000
        ≡ some signed)
      × (verify_hmac lengths both_profiles 3_000_000_000 signed [] ≡ none))
unfolding skewed_too_far lookup
verify_hmac-sign_request_example =
    verify_hmac-sign_request lengths both_profiles 3_000_000_000 "gateway" "s3cret" posted
      (1 ∷ 2 ∷ []) [] none 2_000_000_000 decode-encode refl refl refl (filled "gateway" refl)
      (filled "s3cret" refl) refl (omega arith) (λ e. cc) refl

abbrev carrying : Request
carrying = record posted { headers = ("Authorization", "Bearer token") ∷ [] }

middleware-Decided_example :
    Decided lengths both_profiles 3_000_000_000 carrying
      (some [])
      (middleware lengths both_profiles 3_000_000_000 carrying (some []))
unfolding read_body
middleware-Decided_example =
    middleware-Decided lengths both_profiles 3_000_000_000 carrying no_duration settings (some [])
      read_settings refl refl

middleware-closed_example :
    (middleware lengths both_profiles 3_000_000_000 posted (some []) ≡ bad_request)
    ⊎ ((es : List (String × AuthError)) × (middleware lengths both_profiles 3_000_000_000 posted
            (some [])
          ≡ unauthorized es))
unfolding lookup strip_prefix
middleware-closed_example =
    middleware-closed lengths both_profiles 3_000_000_000 posted no_duration settings (some [])
      read_settings refl refl refl refl
