-- ===== src/Auth/Signed.antt =====
-- internal/auth/sign.go: what SignRequest signs, verifyHMAC accepts.
use Prim.Native.String.append.{cons as cons-append}
use scintx.Base.{
  ℕ, ◌≤◌, String, ◌^^◌, true, false, none, some, List, [], ◌∷◌, lookup, ◌≡◌, ◌≢◌, ◌⊎◌, refl, sym,
  ap, ◌∙◌, arith, inl, inr, equal_fold,
}
use scintx.Base.Text.{is_space, trim_right}
use scintx.Auth.{Request, Config, Crypto, AuthError, header}
use scintx.Auth.Text.{fields}
use scintx.Auth.Numbers.{pos, max_int}
use scintx.Auth.Parsing.{
  Parsed, parsed, failed, components_of, parse_signature_value, inner, value_in, before_mark,
  and_then,
}
use scintx.Auth.Sign.{
  same_bytes, signature_base, component_lines, build_signature_base, skewed_too_far, has_expired,
  verify_hmac,
}
use scintx.Auth.Trims.{
  Ended, append-Ended, trim_space-append, before_mark-append, append-filled, cut-mark,
}
use scintx.Auth.Reading.{params_of, parse_signature_input-read_back}
use scintx.Purl.{cons, is_char}
use scintx.Purl.Cuts.{free, append_assoc, mark-append, nonempty_eq}

same_bytes_refl : (xs : List ℕ) → same_bytes xs xs ≡ true
unfolding same_bytes
same_bytes_refl [] = refl
same_bytes_refl (x ∷ xs) = ground (arith, same_bytes_refl xs)

inner-closed : (s : String) → inner (some (s ^^ ":")) ≡ parsed s
unfolding before_mark
inner-closed String.[] = refl
inner-closed (String.◌∷◌ d s) =
    let e : before_mark b':' (cons d s ^^ ":") ≡ some (cons d s) =
      before_mark-append b':' ":" (cons d s) refl in
    let split : cons d s ^^ ":" ≡ cons d (s ^^ ":") = cons-append d s ":" in
    rw split (ap value_in (ap (before_mark b':') (sym split) ∙ e))

colon-Ended : Ended ":"
unfolding trim_right
colon-Ended = record { kept = refl; filled = refl }

parse_signature_value-closed :
    (s : String) → parse_signature_value ("sig1=:" ^^ (s ^^ ":")) ≡ parsed s
unfolding parse_signature_value is_space
parse_signature_value-closed s =
    let ended : Ended (s ^^ ":") = append-Ended s ":" colon-Ended in
    let begun : "sig1=:" ^^ (s ^^ ":") ≡ "sig1=" ^^ (":" ^^ (s ^^ ":")) =
      append_assoc "sig1=" ":" (s ^^ ":") in
    rw
      (
        trim_space-append "sig1=:" (s ^^ ":") refl ended,
        begun,
        cut-mark b'=' "sig1" "=" (":" ^^ (s ^^ ":")) refl refl,
        trim_space-append ":" (s ^^ ":") refl ended,
        mark-append ":" (s ^^ ":"),
      )
      (inner-closed s)

module _ (crypto : Crypto) (reads : (b : List ℕ) → crypto.decode (crypto.encode b) ≡ some b)
    (cfg : Config) (now : ℕ) (key_id secret : String) (unmarked : free (is_char b'"') key_id ≡ true)
    (whole : free (is_char b';') key_id ≡ true) (given : key_id ≢ "")
    (known : lookup key_id cfg.hmac_keys ≡ some secret) (n : ℕ) (fits : n ≤ max_int) (later : n ≢ 0)
    (recent : skewed_too_far cfg.max_skew now (pos n) ≡ false) where
  module _ (req : Request) (body : List ℕ) (list name : String) (names lines : List String)
      (closed : free (is_char b')') list ≡ true)
      (listed : components_of (fields list) ≡ name ∷ names)
      (input : header "Signature-Input" req ≡ "sig1=" ^^ params_of list n key_id)
      (value : header "Signature" req
        ≡ "sig1=:"
          ^^ (crypto.encode (crypto.hmac secret (signature_base lines (params_of list n key_id)))
              ^^ ":")) where
    -- The verdict on a request whose headers hold the signature of these lines is what the code finds
    -- when it builds the lines again.
    pub checked :
        (again : Parsed (List String))
        → (again ≡ parsed lines) ⊎ ((e : AuthError) × (again ≡ failed e))
        → component_lines crypto (name ∷ names) req body ≡ again
        → verify_hmac crypto cfg now req body ≡ and_then some (λ read. none) again
    unfolding verify_hmac build_signature_base has_expired equal_fold
    checked again cases built =
        let mac = crypto.hmac secret (signature_base lines (params_of list n key_id)) in
        let some_input =
          nonempty_eq ("sig1=" ^^ params_of list n key_id) (append-filled "sig1=" _ refl) in
        let some_value =
          nonempty_eq ("sig1=:" ^^ (crypto.encode mac ^^ ":")) (append-filled "sig1=:" _ refl) in
        rw
          (
            input,
            value,
            some_input,
            some_value,
            parse_signature_input-read_back crypto key_id unmarked whole n fits list name names
                closed listed given later,
            known,
            recent,
            built,
          )
          (elim cases [
            | inl same ↦
                rw
                  (
                    same,
                    value,
                    parse_signature_value-closed (crypto.encode mac),
                    reads mac,
                    same_bytes_refl mac,
                  )
                  refl
            | inr (e, same) ↦ rw same refl
          ])
