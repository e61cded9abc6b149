-- ===== src/Auth/Profiles.antt =====
-- internal/auth/middleware.go: the loop of Verifier.verify over the profiles.
use scintx.Base.{
  ℕ, String, true, false, ◌||◌, Option, none, some, List, [], ◌∷◌, contains, ◌≡◌, ◌≢◌, ◌⊎◌, refl,
  sym, ◌∙◌, arith, inl, inr, Bool-cases, ◌==◌, eq_iff, eq_refl,
}
use scintx.Auth.{Request, Config, Crypto, AuthError, header, profile_hmac, profile_bearer}
use scintx.Auth.Sign.{verify_hmac, verify_bearer, bearer_token}
use scintx.Auth.Middleware.{
  tried, Verified, verified, crashed, denied, with_error, on_tried, try_profile, verify,
}
use scintx.Purl.{strip_prefix}

bearer_token_no_panic :
    (cfg : Config) (t : Option String) → bearer_token cfg t ≢ some AuthError.out_of_range
bearer_token_no_panic cfg none e = cc
bearer_token_no_panic cfg (some t) e = ground arith

bearer_no_panic :
    (cfg : Config) (req : Request) → verify_bearer cfg req ≢ some AuthError.out_of_range
unfolding verify_bearer
bearer_no_panic cfg req e =
    ground (arith, bearer_token_no_panic cfg (strip_prefix "Bearer " (header "Authorization" req)))

no_common_name : (p : String) → p ≡ profile_hmac → p ≢ profile_bearer
no_common_name p a b =
    let e : false ≡ true = (eq_iff profile_hmac profile_bearer).1 (sym a ∙ b) in cc

module _ (crypto : Crypto) (cfg : Config) (now : ℕ) (req : Request) (body : List ℕ) where
  -- One of some profiles accepts the request, and each of them refuses it.
  abbrev pub AcceptedBy : List String → Type 0
  AcceptedBy profiles =
      ((contains profile_hmac profiles ≡ true) × (verify_hmac crypto cfg now req body ≡ none))
      ⊎ ((contains profile_bearer profiles ≡ true) × (verify_bearer cfg req ≡ none))

  abbrev pub RefusedBy : List String → Type 0
  RefusedBy profiles =
      (contains profile_hmac profiles ≡ true → verify_hmac crypto cfg now req body ≢ none)
      × (contains profile_bearer profiles ≡ true → verify_bearer cfg req ≢ none)

  -- What the loop over some profiles says.
  abbrev pub Sound : List String → Verified → Type 0
  Sound profiles verified = AcceptedBy profiles
  Sound profiles crashed =
      (contains profile_hmac profiles ≡ true)
      × (verify_hmac crypto cfg now req body ≡ some AuthError.out_of_range)
  Sound profiles (denied es) = RefusedBy profiles × (profiles ≢ [] → es ≢ [])

  contains-later :
      (x p : String) (ps : List String) → contains x ps ≡ true → contains x (p ∷ ps) ≡ true
  contains-later x p ps h = ground arith

  begins_with : (x p : String) (ps : List String) → p ≡ x → contains x (p ∷ ps) ≡ true
  begins_with x p ps q = ground (arith, eq_iff p x)

  -- A profile that refuses the request leaves the verdict to the others.
  with_error-Sound :
      (p : String) (e : AuthError) (ps : List String) (rest : Verified)
      → (p ≡ profile_hmac → verify_hmac crypto cfg now req body ≢ none)
      → (p ≡ profile_bearer → verify_bearer cfg req ≢ none)
      → Sound ps rest
      → Sound (p ∷ ps) (with_error p e rest)
  with_error-Sound p e ps verified a b (inl (c, h)) = inl (contains-later profile_hmac p ps c, h)
  with_error-Sound p e ps verified a b (inr (c, h)) = inr (contains-later profile_bearer p ps c, h)
  with_error-Sound p e ps crashed a b (c, h) = (contains-later profile_hmac p ps c, h)
  with_error-Sound p e ps (denied es) a b h =
      let later = h.0 in
      (
        (
          (λ c. ground (arith, a, later.0, eq_iff p profile_hmac)),
          (λ c. ground (arith, b, later.1, eq_iff p profile_bearer)),
        ),
        (λ q z. cc),
      )

  -- The error, or its absence, is the one of the profile.
  abbrev Says : String → Option AuthError → Type 0
  Says p o =
      ((p ≡ profile_hmac) × (verify_hmac crypto cfg now req body ≡ o))
      ⊎ ((p ≡ profile_bearer) × (verify_bearer cfg req ≡ o))

  on_tried-Sound :
      (p : String) (ps : List String) (o : Option AuthError) (rest : Verified)
      → Says p o
      → Sound ps rest
      → Sound (p ∷ ps) (on_tried p (tried o) rest)
  on_tried-Sound p ps none rest (inl (q, h)) k = inl (begins_with profile_hmac p ps q, h)
  on_tried-Sound p ps none rest (inr (q, h)) k = inr (begins_with profile_bearer p ps q, h)
  on_tried-Sound p ps (some AuthError.out_of_range) rest (inl (q, h)) k =
      (begins_with profile_hmac p ps q, h)
  on_tried-Sound p ps (some AuthError.out_of_range) rest (inr (q, h)) k =
      elim (bearer_no_panic cfg req h) [ ]
  on_tried-Sound p ps (some e) rest (inl (q, h)) k =
      with_error-Sound p e ps rest (λ r z. cc) (λ r. elim (no_common_name p q r) [ ]) k
  on_tried-Sound p ps (some e) rest (inr (q, h)) k =
      with_error-Sound p e ps rest (λ r. elim (no_common_name p r q) [ ]) (λ r z. cc) k

  pub verify-Sound :
      (profiles : List String)
      → ((p : String)
          → contains p profiles ≡ true
          → (p == profile_hmac || p == profile_bearer) ≡ true)
      → Sound profiles (verify crypto cfg now req body profiles)
  unfolding verify try_profile
  verify-Sound [] known = (((λ c. cc), (λ c. cc)), (λ q. elim (q refl) [ ]))
  verify-Sound (p ∷ ps) known =
      let sound = verify-Sound ps (λ q h. known q (contains-later q p ps h)) in
      elim (Bool-cases (p == profile_hmac)) [
        | inl t ↦ rw t (
            on_tried-Sound p ps (verify_hmac crypto cfg now req body) _
              (inl ((eq_iff p profile_hmac).0 t, refl)) sound)
        | inr t ↦
            let bearer : p == profile_bearer ≡ true = ground (arith, known p, eq_refl p) in
            rw (t, bearer)
              (on_tried-Sound p ps (verify_bearer cfg req) _
                (inr ((eq_iff p profile_bearer).0 bearer, refl)) sound)
      ]
