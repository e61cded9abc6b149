-- ===== src/Auth/Sign.antt =====
-- internal/auth/sign.go: HTTP message signatures. A reading of the clock is a number of nanoseconds
-- since 1970; the time that a caller passes is `none` where it is Go's zero time.
use Prim.Native.Nat.{◌/◌}
use scintx.Base.{
  ℕ, suc, zero, ◌+◌, ◌*◌, String, ◌^^◌, Bool, true, false, not, ◌&&◌, ◌||◌, Option, none, some,
  List, [], ◌∷◌, ◌++◌, lookup, contains, ltb, nat_eq, is_empty, ◌==◌, if◌then◌else◌, trim_space,
  equal_fold, join,
}
use scintx.Api.{Duration}
use scintx.Auth.{Request, Config, Crypto, AuthError, header, set_header}
use scintx.Auth.Numbers.{ℤ, pos, negsuc, max_int, format_int}
use scintx.Purl.{strip_prefix}
use scintx.Auth.Parsing.{
  SignatureParams, Parsed, and_then, parse_signature_input, parse_signature_value, parsed, failed,
}

abbrev pub nanoseconds : ℕ → ℕ
nanoseconds seconds = seconds * 1_000_000_000

unfoldable pub same_bytes : List ℕ → List ℕ → Bool
same_bytes [] [] = true
same_bytes [] (y ∷ ys) = false
same_bytes (x ∷ xs) [] = false
same_bytes (x ∷ xs) (y ∷ ys) = nat_eq x y && same_bytes xs ys

abbrev pub type_part : String → List (String × String)
type_part ct = if ct == "" then [] else ("content-type", ct) ∷ []

abbrev pub line : String → String → String
line name value = "\"" ^^ (name ^^ ("\": " ^^ value))

abbrev pub names_in : List (String × String) → List String
names_in [] = []
names_in ((n, v) ∷ parts) = ("\"" ^^ (n ^^ "\"")) ∷ names_in parts

abbrev pub lines_in : List (String × String) → List String
lines_in [] = []
lines_in ((n, v) ∷ parts) = line n v ∷ lines_in parts

abbrev pub signature_base : List String → String → String
signature_base lines raw = join "\n" (lines ++ line "@signature-params" raw ∷ [])

abbrev pub seconds_of : Option ℕ → ℕ → ℕ
seconds_of none clock = clock / 1_000_000_000
seconds_of (some time) clock = time / 1_000_000_000

abbrev pub type_value : String → Parsed String
type_value ct = if ct == "" then failed AuthError.type_missing else parsed ct

abbrev pub add_line : String → Parsed String → Parsed (List String) → Parsed (List String)
add_line name (failed e) rest = failed e
add_line name (parsed v) (failed e) = failed e
add_line name (parsed v) (parsed lines) = parsed (line name v ∷ lines)

-- time.Unix wraps around where the seconds since the year 1 do not fit an int64.
abbrev wraps_around : ℕ → Bool
wraps_around seconds = ltb max_int (seconds + 62_135_596_800)

-- skew > cfg.MaxSkew || skew < -cfg.MaxSkew, for the skew from a time in seconds to now. Go's
-- difference of two times stops at the largest and at the smallest Duration, and a time that wraps
-- around lies far in the past.
unfoldable pub skewed_too_far : Duration → ℕ → ℤ → Bool
skewed_too_far (Duration.ahead m) now (pos s) =
    if wraps_around s
    then ltb m max_int
    else (ltb m max_int && ltb (nanoseconds s + m) now) || ltb (now + m) (nanoseconds s)
skewed_too_far (Duration.ahead m) now (negsuc s) =
    ltb m max_int && ltb m (now + nanoseconds (suc s))
skewed_too_far (Duration.back m) now (pos s) =
    wraps_around s || (ltb (nanoseconds s) (now + m) || ltb now (nanoseconds s + m))
skewed_too_far (Duration.back m) now (negsuc s) = true

unfoldable pub has_expired : ℕ → ℤ → Bool
has_expired now (pos zero) = false
has_expired now (pos (suc n)) = wraps_around (suc n) || ltb (nanoseconds (suc n)) now
has_expired now (negsuc n) = false

abbrev pub on_decoded : Option (List ℕ) → List ℕ → Option AuthError
on_decoded none mac = some AuthError.bad_base64
on_decoded (some want) mac = if same_bytes want mac then none else some AuthError.mismatch

module _ (crypto : Crypto) where
  -- ContentDigestSHA256
  abbrev pub content_digest : List ℕ → String
  content_digest body = "sha-256=:" ^^ crypto.encode (crypto.sha256 body) ^^ ":"

  abbrev pub with_digest : List ℕ → Request → Request
  with_digest [] req = req
  with_digest (b ∷ body) req = set_header "Content-Digest" (content_digest (b ∷ body)) req

  abbrev pub digest_part : List ℕ → List (String × String)
  digest_part [] = []
  digest_part (b ∷ body) = ("content-digest", content_digest (b ∷ body)) ∷ []

  -- The covered components with their values, in order.
  abbrev pub covered : Request → List ℕ → List (String × String)
  covered req body =
      ("@method", req.method) ∷ ("@path", req.escaped_path) ∷ digest_part body
      ++ type_part (header "Content-Type" req)

  abbrev pub print_params : List String → ℕ → String → String
  print_params names created key_id =
      "("
      ^^ (join " " names
          ^^ (");created="
              ^^ (format_int created
                  ^^ (";keyid=" ^^ (crypto.quote key_id ^^ ";alg=\"hmac-sha256\"")))))

  abbrev pub signed_with : String → String → Request → String → Request
  signed_with params secret req base =
      set_header "Signature" ("sig1=:" ^^ (crypto.encode (crypto.hmac secret base) ^^ ":"))
        (set_header "Signature-Input" ("sig1=" ^^ params) req)

  -- SignRequest; `none` where the key id or the secret is missing
  unfoldable pub sign_request : Request → String → String → List ℕ → Option ℕ → ℕ → Option Request
  unfolding format_int join
  sign_request req key_id secret body time clock =
      let parts = covered (with_digest body req) body in
      let params = print_params (names_in parts) (seconds_of time clock) key_id in
      if key_id == "" || secret == ""
      then none
      else some (
          signed_with params secret (with_digest body req) (signature_base (lines_in parts) params))

  -- One component of buildSignatureBase: its value in the request.
  abbrev pub digest_value : String → List ℕ → Parsed String
  digest_value digest body =
      if digest == ""
      then failed AuthError.digest_missing
      else if not (is_empty body) && not (digest == content_digest body)
      then failed AuthError.digest_mismatch
      else parsed digest

  unfoldable pub component_value : String → Request → List ℕ → Parsed String
  component_value name req body =
      if name == "@method"
      then parsed req.method
      else if name == "@path"
      then parsed req.escaped_path
      else if name == "content-digest"
      then digest_value (header "Content-Digest" req) body
      else if name == "content-type"
      then type_value (header "Content-Type" req)
      else failed AuthError.unsupported

  unfoldable pub component_lines : List String → Request → List ℕ → Parsed (List String)
  unfolding component_value
  component_lines [] req body = parsed []
  component_lines (name ∷ names) req body =
      add_line name (component_value name req body) (component_lines names req body)

  -- buildSignatureBase
  unfoldable pub build_signature_base : Request → SignatureParams → List ℕ → Parsed String
  unfolding component_lines join
  build_signature_base req sp body =
      and_then failed (λ lines. parsed (signature_base lines sp.raw))
        (component_lines sp.components req body)

  abbrev pub check_value : String → String → Request → Option AuthError
  check_value secret base req =
      and_then some (λ want. on_decoded (crypto.decode want) (crypto.hmac secret base))
        (parse_signature_value (header "Signature" req))

  abbrev pub with_secret :
      Option String → Config → ℕ → Request → List ℕ → SignatureParams → Option AuthError
  with_secret none cfg now req body sp = some AuthError.unknown_key
  with_secret (some secret) cfg now req body sp =
      if skewed_too_far cfg.max_skew now sp.created
      then some AuthError.skewed
      else if has_expired now sp.expires
      then some AuthError.expired
      else and_then some (λ base. check_value secret base req) (build_signature_base req sp body)

  abbrev pub check_params : Config → ℕ → Request → List ℕ → SignatureParams → Option AuthError
  check_params cfg now req body sp =
      if not (equal_fold sp.alg "hmac-sha256")
      then some AuthError.bad_alg
      else with_secret (lookup sp.key_id cfg.hmac_keys) cfg now req body sp

  -- verifyHMAC; `none` is no error
  unfoldable pub verify_hmac : Config → ℕ → Request → List ℕ → Option AuthError
  unfolding parse_signature_input parse_signature_value build_signature_base skewed_too_far
      has_expired same_bytes
  verify_hmac cfg now req body =
      let input = header "Signature-Input" req in
      if input == "" || header "Signature" req == ""
      then some AuthError.missing_headers
      else and_then some (check_params cfg now req body) (parse_signature_input input)

abbrev pub bearer_token : Config → Option String → Option AuthError
bearer_token cfg none = some AuthError.not_bearer
bearer_token cfg (some token) =
    if contains (trim_space token) cfg.bearer_tokens then none else some AuthError.bad_token

-- verifyBearer
unfoldable pub verify_bearer : Config → Request → Option AuthError
unfolding trim_space strip_prefix
verify_bearer cfg req =
    let h = header "Authorization" req in
    if h == ""
    then some AuthError.missing_authorization
    else bearer_token cfg (strip_prefix "Bearer " h)
