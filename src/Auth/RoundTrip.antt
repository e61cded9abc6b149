-- ===== src/Auth/RoundTrip.antt =====
-- internal/auth/sign.go: SignRequest, and what verifyHMAC says of the request that it has signed.
use scintx.Base.{
  ℕ, ◌≤◌, String, Bool, true, false, ◌||◌, Option, none, some, List, [], ◌∷◌, lookup, lookup-insert,
  ◌≡◌, ◌≢◌, ◌⊎◌, refl, ◌∙◌, arith, inl, inr, Bool-cases, ◌==◌, eq_iff, is_empty, if◌then◌else◌,
  join,
}
use scintx.Auth.{Request, Config, Crypto, AuthError, header, set_header}
use scintx.Auth.Text.{fields, trim_marks}
use scintx.Auth.Numbers.{pos, max_int}
use scintx.Auth.Parsing.{Parsed, parsed, failed, and_then, components_of}
use scintx.Auth.Sign.{
  content_digest, with_digest, covered, type_part, names_in, lines_in, signature_base, seconds_of,
  signed_with, sign_request, component_lines, component_value, skewed_too_far, verify_hmac,
}
use scintx.Auth.Trims.{append-filled}
use scintx.Auth.Reading.{params_of, quoted}
use scintx.Auth.Signed.{checked}
use scintx.Purl.{is_char}
use scintx.Purl.Cuts.{free, nonempty_eq}

header-set_header :
    (k j v : String) (req : Request)
    → header j (set_header k v req) ≡ (if k == j then v else header j req)
header-set_header k j v req = rw (lookup-insert k j v req.headers) (ground arith)

module _ (crypto : Crypto) where
  -- The received body is accepted with the digest that the headers hold, where they hold one.
  abbrev pub agrees : List ℕ → List ℕ → Bool
  agrees body received =
      is_empty body
      || is_empty received
      || content_digest crypto body == content_digest crypto received

  abbrev pub again_of : List ℕ → List ℕ → List String → Parsed (List String)
  again_of body received lines =
      if agrees body received then parsed lines else failed AuthError.digest_mismatch

  abbrev names_of : List (String × String) → List String
  names_of [] = []
  names_of ((name, value) ∷ parts) = name ∷ names_of parts

  type_lem :
      (req : Request) (received : List ℕ) (ct : String)
      → header "Content-Type" req ≡ ct
      → component_lines crypto (names_of (type_part ct)) req received
        ≡ parsed (lines_in (type_part ct))
  unfolding component_lines component_value
  type_lem req received ct h = elim (Bool-cases (ct == "")) [
    | inl t ↦ rw t refl
    | inr t ↦ rw (t, h, t) refl
  ]

  -- Signing leaves the other headers as they are.
  header-signed_with :
      (j params secret base : String) (req : Request)
      → "Signature" == j ≡ false
      → "Signature-Input" == j ≡ false
      → header j (signed_with crypto params secret req base) ≡ header j req
  header-signed_with j params secret base req s i =
      rw (header-set_header "Signature" j, header-set_header "Signature-Input" j, s, i) refl

  digest_filled : (body : List ℕ) → content_digest crypto body == "" ≡ false
  digest_filled body = nonempty_eq (content_digest crypto body) (append-filled "sha-256=:" _ refl)

  module _ (req : Request) (secret : String) where
    abbrev parts_of : List ℕ → List (String × String)
    parts_of body = covered crypto (with_digest crypto body req) body

    built :
        (body received : List ℕ) (params base : String)
        → component_lines crypto
            (names_of (parts_of body))
            (signed_with crypto params secret (with_digest crypto body req) base)
            received
          ≡ again_of body received (lines_in (parts_of body))
    unfolding component_lines component_value
    built [] received params base =
        rw
          (type_lem (signed_with crypto params secret req base) received _
            (header-signed_with "Content-Type" params secret base req refl refl))
          refl
    built (b ∷ body) received params base =
        let sent = set_header "Content-Digest" (content_digest crypto (b ∷ body)) req in
        let digest : header "Content-Digest" (signed_with crypto params secret sent base)
            ≡ content_digest crypto (b ∷ body) =
          header-signed_with "Content-Digest" params secret base sent refl refl
          ∙ header-set_header "Content-Digest" "Content-Digest" _ req in
        rw
          (
            digest,
            digest_filled (b ∷ body),
            type_lem (signed_with crypto params secret sent base) received _
                (header-signed_with "Content-Type" params secret base sent refl refl),
          )
          (ground arith)

    abbrev list_of : List ℕ → String
    list_of body = join " " (names_in (parts_of body))

    -- The printed list of components is read as their names.
    listed :
        (body : List ℕ)
        → (components_of (fields (list_of body)) ≡ names_of (parts_of body))
          × (free (is_char b')') (list_of body) ≡ true)
    unfolding components_of fields join trim_marks
    listed [] = elim (Bool-cases (header "Content-Type" req == "")) [
      | inl t ↦ rw t (refl, refl)
      | inr t ↦ rw t (refl, refl)
    ]
    listed (b ∷ body) =
        elim (Bool-cases (header "Content-Type" (with_digest crypto (b ∷ body) req) == "")) [
          | inl t ↦ rw t (refl, refl)
          | inr t ↦ rw t (refl, refl)
        ]

  again_cases :
      (body received : List ℕ) (lines : List String)
      → (again_of body received lines ≡ parsed lines)
        ⊎ ((e : AuthError) × (again_of body received lines ≡ failed e))
  again_cases body received lines = elim (Bool-cases (agrees body received)) [
    | inl t ↦ inl (rw t refl)
    | inr t ↦ inr (AuthError.digest_mismatch, rw t refl)
  ]

  said :
      (body received : List ℕ) (lines : List String)
      → and_then some (λ read. none) (again_of body received lines)
        ≡ (if agrees body received then none else some AuthError.digest_mismatch)
  said body received lines = elim (Bool-cases (agrees body received)) [
    | inl t ↦ rw t refl
    | inr t ↦ rw t refl
  ]

  -- Under a key id without quotation marks and semicolons, which strconv.Quote leaves as it is, and a
  -- secret that is not empty, SignRequest signs every request at a time after 1970 that fits an int64.
  -- If base64 reads back what it writes, verifyHMAC, with the same key and a clock within the skew of
  -- the signer's, accepts the signed request exactly where the signed body or the received body is
  -- empty or both have one digest, and refuses it for its digest otherwise.
  pub verify_hmac-sign_request :
      (cfg : Config) (now : ℕ) (key_id secret : String) (req : Request) (body received : List ℕ)
      (time : Option ℕ) (clock : ℕ)
      → ((b : List ℕ) → crypto.decode (crypto.encode b) ≡ some b)
      → crypto.quote key_id ≡ quoted key_id
      → free (is_char b'"') key_id ≡ true
      → free (is_char b';') key_id ≡ true
      → key_id ≢ ""
      → secret ≢ ""
      → lookup key_id cfg.hmac_keys ≡ some secret
      → seconds_of time clock ≤ max_int
      → seconds_of time clock ≢ 0
      → skewed_too_far cfg.max_skew now (pos (seconds_of time clock)) ≡ false
      → (signed : Request) × ((sign_request crypto req key_id secret body time clock ≡ some signed)
          × (verify_hmac crypto cfg now signed received
              ≡ (if agrees body received then none else some AuthError.digest_mismatch)))
  unfolding sign_request
  verify_hmac-sign_request cfg now key_id secret req body received time clock reads quotes unmarked
        whole given keyed known fits later recent =
      let n = seconds_of time clock in
      let list = list_of req secret body in
      let lines = lines_in (parts_of req secret body) in
      let params = params_of list n key_id in
      let sent = with_digest crypto body req in
      let signed = signed_with crypto params secret sent (signature_base lines params) in
      let k : key_id == "" ≡ false = ground (arith, eq_iff key_id "") in
      let s : secret == "" ≡ false = ground (arith, eq_iff secret "") in
      let (names, closed) = listed req secret body in
      let verdict =
        checked crypto reads cfg now key_id secret unmarked whole given known n fits later recent
          signed received list "@method" _ lines closed names
          (rw
            (
              header-set_header "Signature" "Signature-Input",
              header-set_header "Signature-Input" "Signature-Input",
            )
            refl)
          (rw (header-set_header "Signature" "Signature") refl) (again_of body received lines)
          (again_cases body received lines)
          (built req secret body received params (signature_base lines params)) in
      (signed, (rw (k, s, quotes) refl, verdict ∙ said body received lines))
