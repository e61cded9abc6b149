-- ===== src/Auth/Guarded.antt =====
-- internal/auth/middleware.go: what the middleware lets through.
use scintx.Base.{
  ℕ, String, true, false, not, Option, none, some, List, [], contains, is_empty, ◌≡◌, ◌≢◌, ◌⊎◌,
  refl, ap, arith, inl, inr, Bool-cases, ◌==◌, trim_space,
}
use scintx.Api.{Duration}
use scintx.Auth.{Request, Config, Crypto, AuthError, header, profile_hmac}
use scintx.Auth.Sign.{verify_hmac, verify_bearer, bearer_token}
use scintx.Auth.Environment.{Environment, ok, enabled, config_from_env}
use scintx.Auth.Closed.{IsClosed, config_from_env-IsClosed}
use scintx.Auth.Middleware.{
  is_public_path, read_body, Outcome, served, served_with, bad_request, unauthorized, panicked,
  Verified, verified, crashed, denied, on_verified, verify, on_body, middleware,
}
use scintx.Purl.{strip_prefix}
use scintx.Auth.Profiles.{AcceptedBy, RefusedBy, Sound, verify-Sound}

-- The token that a request carries, empty where it carries none.
abbrev trimmed : Option String → String
trimmed none = ""
trimmed (some t) = trim_space t

abbrev pub token_of : Request → String
token_of req = trimmed (strip_prefix "Bearer " (header "Authorization" req))

token_refused :
    (cfg : Config) (t : Option String)
    → contains "" cfg.bearer_tokens ≡ false
    → trimmed t ≡ ""
    → bearer_token cfg t ≢ none
token_refused cfg none h b e = cc
token_refused cfg (some t) h b e =
    let missing : contains (trim_space t) cfg.bearer_tokens ≡ false = rw b h in ground arith

-- What the middleware does with a request that is not for a public path.
module _ (crypto : Crypto) (cfg : Config) (now : ℕ) (req : Request) where
  -- The outcome is the one that the profiles ask for.
  abbrev pub Decided : Option (List ℕ) → Outcome → Type 0
  Decided none outcome = outcome ≡ bad_request
  Decided (some body) (served r) = ⊥
  Decided (some body) (served_with b r) =
      (b ≡ body) × ((r ≡ req) × AcceptedBy crypto cfg now req body cfg.profiles)
  Decided (some body) bad_request = ⊥
  Decided (some body) panicked =
      (contains profile_hmac cfg.profiles ≡ true)
      × (verify_hmac crypto cfg now req body ≡ some AuthError.out_of_range)
  Decided (some body) (unauthorized es) = RefusedBy crypto cfg now req body cfg.profiles × (es ≢ [])

  on_verified-Decided :
      (body : List ℕ) (v : Verified)
      → cfg.profiles ≢ []
      → Sound crypto cfg now req body cfg.profiles v
      → Decided (some body) (on_verified body req v)
  on_verified-Decided body verified given h = (refl, (refl, h))
  on_verified-Decided body crashed given h = h
  on_verified-Decided body (denied es) given h = (h.0, h.1 given)

  on_body-Decided :
      (content : Option (List ℕ))
      → IsClosed cfg
      → cfg.profiles ≢ []
      → Decided content (on_body crypto cfg now req content)
  on_body-Decided none closed given = refl
  on_body-Decided (some body) closed given =
      on_verified-Decided body (verify crypto cfg now req body cfg.profiles) given
        (verify-Sound crypto cfg now req body cfg.profiles closed.known)

  enabled_filled : enabled cfg ≡ true → cfg.profiles ≢ []
  enabled_filled h e =
      let off : not (is_empty cfg.profiles) ≡ false = ap (λ l. not (is_empty l)) e in cc

  -- With a configuration that ConfigFromEnv accepts and that enables a profile, a request for any
  -- other path than the two public ones is served only with the body that was read and only if an
  -- enabled profile accepts it; it is answered as unauthorized, with an error, only if every enabled
  -- profile refuses it, as a bad request if and only if its body cannot be read, and nothing else
  -- happens but the panic of verifyHMAC at a slice that is out of range.
  pub middleware-Decided :
      (parse_duration : String → Option Duration) (env : Environment) (content : Option (List ℕ))
      → config_from_env parse_duration env ≡ ok cfg
      → enabled cfg ≡ true
      → is_public_path req.url_path ≡ false
      → Decided (read_body content) (middleware crypto cfg now req content)
  unfolding middleware
  middleware-Decided parse_duration env content e on private =
      rw (on, private)
        (on_body-Decided (read_body content) (config_from_env-IsClosed parse_duration env cfg e)
          (enabled_filled on))

  no_signature :
      (body : List ℕ)
      → header "Signature" req ≡ ""
      → verify_hmac crypto cfg now req body ≡ some AuthError.missing_headers
  unfolding verify_hmac
  no_signature body h =
      let s : header "Signature" req == "" ≡ true = rw h refl in
      elim (Bool-cases (header "Signature-Input" req == "")) [
        | inl t ↦ rw t refl
        | inr t ↦ rw (t, s) refl
      ]

  no_token_refused : IsClosed cfg → token_of req ≡ "" → verify_bearer cfg req ≢ none
  unfolding verify_bearer
  no_token_refused closed h e = ground (
    arith,
    closed.no_token,
    token_refused cfg (strip_prefix "Bearer " (header "Authorization" req)) closed.no_token h,
  )

  not_accepted :
      (body : List ℕ)
      → IsClosed cfg
      → header "Signature" req ≡ ""
      → token_of req ≡ ""
      → AcceptedBy crypto cfg now req body cfg.profiles
      → ⊥
  not_accepted body closed unsigned untold (inl (c, h)) =
      let missing = no_signature body unsigned in cc
  not_accepted body closed unsigned untold (inr (c, h)) = no_token_refused closed untold h

  denied_only :
      (content : Option (List ℕ)) (outcome : Outcome)
      → IsClosed cfg
      → header "Signature" req ≡ ""
      → token_of req ≡ ""
      → Decided content outcome
      → (outcome ≡ bad_request) ⊎ ((es : List (String × AuthError)) × (outcome ≡ unauthorized es))
  denied_only none outcome closed unsigned untold d = inl d
  denied_only (some body) (served r) closed unsigned untold d = elim d [ ]
  denied_only (some body) (served_with b r) closed unsigned untold (d, (e, h)) =
      elim (not_accepted body closed unsigned untold h) [ ]
  denied_only (some body) bad_request closed unsigned untold d = elim d [ ]
  denied_only (some body) panicked closed unsigned untold (c, h) =
      let missing = no_signature body unsigned in cc
  denied_only (some body) (unauthorized es) closed unsigned untold d = inr (es, refl)

  -- With a configuration that ConfigFromEnv accepts and that enables a profile, a request for any
  -- other path than the two public ones that has no Signature header, and whose authorization is
  -- missing, of another kind than Bearer, or without a token, is never served: it is answered as a bad
  -- request or as unauthorized.
  pub middleware-closed :
      (parse_duration : String → Option Duration) (env : Environment) (content : Option (List ℕ))
      → config_from_env parse_duration env ≡ ok cfg
      → enabled cfg ≡ true
      → is_public_path req.url_path ≡ false
      → header "Signature" req ≡ ""
      → token_of req ≡ ""
      → (middleware crypto cfg now req content ≡ bad_request)
        ⊎ ((es : List (String × AuthError)) × (middleware crypto cfg now req content
              ≡ unauthorized es))
  middleware-closed parse_duration env content e on private unsigned untold =
      let closed = config_from_env-IsClosed parse_duration env cfg e in
      denied_only (read_body content) (middleware crypto cfg now req content) closed unsigned untold
        (middleware-Decided parse_duration env content e on private)
