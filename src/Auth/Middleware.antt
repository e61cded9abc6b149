-- ===== src/Auth/Middleware.antt =====
-- internal/auth/middleware.go: the middleware that lets a request through or answers it.
use Prim.Native.Nat.{◌^◌}
use scintx.Base.{
  ℕ, zero, suc, ◌*◌, String, Bool, ◌||◌, not, Option, none, some, List, [], ◌∷◌, ◌==◌,
  if◌then◌else◌,
}
use scintx.Auth.{Request, Config, Crypto, AuthError, profile_hmac, profile_bearer}
use scintx.Auth.Environment.{enabled}
use scintx.Auth.Sign.{verify_hmac, verify_bearer}

-- isPublicPath
abbrev pub is_public_path : String → Bool
is_public_path path = path == "/v1/.well-known/scintx" || path == "/.well-known/scintx"

abbrev pub take : {A : Type 0} → ℕ → List A → List A
take zero xs = []
take (suc n) [] = []
take (suc n) (x ∷ xs) = x ∷ take n xs

-- readBody, with the bytes of the body or none if they cannot be read; a request without a body has
-- no bytes
unfoldable pub read_body : Option (List ℕ) → Option (List ℕ)
read_body none = none
read_body (some content) = some (take (33 * 2 ^ 20) content)

-- What happens to a request. The body that the handler reads is that of the check; a refusal says
-- why each profile refuses.
pub data Outcome : Type 0 where
  served : Request → Outcome
  served_with : List ℕ → Request → Outcome
  bad_request panicked : Outcome
  unauthorized : List (String × AuthError) → Outcome

-- The error of one profile, or the panic that ends the loop.
pub data Tried : Type 0 where
  accepts panics : Tried
  refuses : AuthError → Tried
  skipped : Tried

abbrev pub tried : Option AuthError → Tried
tried none = accepts
tried (some AuthError.out_of_range) = panics
tried (some e) = refuses e

-- What Verifier.verify returns: the errors of all profiles, or none.
pub data Verified : Type 0 where
  verified crashed : Verified
  denied : List (String × AuthError) → Verified

abbrev pub with_error : String → AuthError → Verified → Verified
with_error p e verified = verified
with_error p e crashed = crashed
with_error p e (denied es) = denied ((p, e) ∷ es)

abbrev pub on_tried : String → Tried → Verified → Verified
on_tried p accepts rest = verified
on_tried p panics rest = crashed
on_tried p (refuses e) rest = with_error p e rest
on_tried p skipped rest = rest

abbrev pub on_verified : List ℕ → Request → Verified → Outcome
on_verified body req verified = served_with body req
on_verified body req crashed = panicked
on_verified body req (denied es) = unauthorized es

module _ (crypto : Crypto) where
  -- The switch on a profile.
  unfoldable pub try_profile : Config → ℕ → Request → List ℕ → String → Tried
  unfolding verify_hmac verify_bearer
  try_profile cfg now req body p =
      if p == profile_hmac
      then tried (verify_hmac crypto cfg now req body)
      else if p == profile_bearer
      then tried (verify_bearer cfg req)
      else skipped

  -- Verifier.verify: the loop over the profiles
  unfoldable pub verify : Config → ℕ → Request → List ℕ → List String → Verified
  unfolding try_profile
  verify cfg now req body [] = denied []
  verify cfg now req body (p ∷ ps) =
      on_tried p (try_profile cfg now req body p) (verify cfg now req body ps)

  abbrev pub on_body : Config → ℕ → Request → Option (List ℕ) → Outcome
  on_body cfg now req none = bad_request
  on_body cfg now req (some body) = on_verified body req (verify cfg now req body cfg.profiles)

  -- NewVerifier and Middleware
  unfoldable pub middleware : Config → ℕ → Request → Option (List ℕ) → Outcome
  unfolding verify read_body
  middleware cfg now req content =
      if not (enabled cfg) || is_public_path req.url_path
      then served req
      else on_body cfg now req (read_body content)
