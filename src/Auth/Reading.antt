-- ===== src/Auth/Reading.antt =====
-- parseSignatureInput and parseSignatureValue of internal/auth/sign.go on what SignRequest prints.
use Prim.Native.Char.{Char}
use scintx.Base.{
  ℕ, ◌≤◌, String, ◌^^◌, true, false, some, List, [], ◌∷◌, ◌≡◌, ◌≢◌, refl, sym, ap, ◌∙◌, arith,
  trim_space, ◌==◌, eq_iff,
}
use scintx.Base.Text.{is_space, trim_right}
use scintx.Auth.{Crypto}
use scintx.Auth.Text.{trim_marks, drop_prefix, fields}
use scintx.Auth.Numbers.{pos, format_int, is_digit, max_int, free-format_int, parse_int-format_int}
use scintx.Auth.Parsing.{
  SignatureParams, parsed, components_of, set_param, add_param, add_params, initial_params,
  parse_signature_input, after_mark,
}
use scintx.Auth.Trims.{
  Ended, append-Ended, trim_space-append, trim_space-free, trim_marks-between, trim_marks-free,
  cut-mark, append-filled,
}
use scintx.Purl.{is_char, cut, split_on}
use scintx.Purl.Cuts.{
  free, free-append, append_assoc, cut-append, split_on-append, mark-append, nonempty_eq,
}

digit_no_space : (c : Char) → is_digit c ≡ true → is_space c ≡ false
unfolding is_space
digit_no_space c t = ground arith

alg-Ended : Ended ";alg=\"hmac-sha256\""
unfolding trim_right
alg-Ended = record { kept = refl; filled = refl }

mark-Ended : Ended "\""
unfolding trim_right
mark-Ended = record { kept = refl; filled = refl }

abbrev pub quoted : String → String
quoted key_id = "\"" ^^ (key_id ^^ "\"")

abbrev key_tail_of : String → String
key_tail_of key_id = quoted key_id ^^ ";alg=\"hmac-sha256\""

abbrev created_tail_of : ℕ → String → String
created_tail_of n key_id = format_int n ^^ (";keyid=" ^^ key_tail_of key_id)

-- The parameters as SignRequest prints them.
abbrev pub params_of : String → ℕ → String → String
params_of list n key_id = "(" ^^ (list ^^ (");created=" ^^ created_tail_of n key_id))

abbrev pub read_back : List String → ℕ → String → String → SignatureParams
read_back names n key_id raw = record {
  components = names;
  created = pos n;
  expires = pos 0;
  key_id = key_id;
  alg = "hmac-sha256";
  raw = raw;
}

-- The three parameters, one after the other.
add_param-created :
    (n : ℕ) (sp : SignatureParams)
    → n ≤ max_int
    → add_param (trim_space ("created=" ^^ format_int n)) sp
      ≡ parsed (record sp { created = pos n })
unfolding add_param set_param is_space
add_param-created n sp h =
    let plain : free is_space ("created=" ^^ format_int n) ≡ true =
      free-append is_space "created=" (format_int n)
      ∙ rw (free-format_int is_space n digit_no_space) refl in
    let unmarked : free (is_char b'"') (format_int n) ≡ true =
      free-format_int (is_char b'"') n (λ c d. ground arith) in
    let given =
      nonempty_eq ("created=" ^^ format_int n) (append-filled "created=" (format_int n) refl) in
    rw
      (
        trim_space-free ("created=" ^^ format_int n) plain,
        add_param,
        given,
        cut-mark b'=' "created" "=" (format_int n) refl refl,
        trim_marks-free b'"' (format_int n) unmarked,
        parse_int-format_int n h,
      )
      refl

module _ (key_id : String) (unmarked : free (is_char b'"') key_id ≡ true) where
  add_param-keyid :
      (sp : SignatureParams)
      → add_param (trim_space ("keyid=" ^^ (quoted key_id))) sp
        ≡ parsed (record sp { key_id = key_id })
  unfolding add_param set_param is_space
  add_param-keyid sp =
      let ended : Ended (quoted key_id) =
        append-Ended "\"" (key_id ^^ "\"") (append-Ended key_id "\"" mark-Ended) in
      let given =
        nonempty_eq ("keyid=" ^^ (quoted key_id)) (append-filled "keyid=" (quoted key_id) refl) in
      let value : trim_marks b'"' (quoted key_id) ≡ key_id =
        ap (trim_marks b'"') (mark-append "\"" (key_id ^^ "\""))
        ∙ trim_marks-between b'"' "\"" key_id unmarked refl in
      rw
        (
          trim_space-append "keyid=" (quoted key_id) refl ended,
          add_param,
          given,
          cut-mark b'=' "keyid" "=" (quoted key_id) refl refl,
          value,
        )
        refl

add_param-alg :
    (sp : SignatureParams)
    → add_param (trim_space "alg=\"hmac-sha256\"") sp ≡ parsed (record sp { alg = "hmac-sha256" })
unfolding add_param set_param trim_space trim_marks cut
add_param-alg sp = refl

-- What stands behind the list of components.
module _ (crypto : Crypto) (key_id : String) (unmarked : free (is_char b'"') key_id ≡ true)
    (whole : free (is_char b';') key_id ≡ true) (n : ℕ) (fits : n ≤ max_int) where
  quoted-whole : free (is_char b';') ("keyid=" ^^ quoted key_id) ≡ true
  quoted-whole =
      free-append (is_char b';') "keyid=" (quoted key_id)
      ∙ free-append (is_char b';') "\"" (key_id ^^ "\"")
      ∙ free-append (is_char b';') key_id "\""
      ∙ rw whole refl

  created-whole : free (is_char b';') ("created=" ^^ format_int n) ≡ true
  created-whole =
      free-append (is_char b';') "created=" (format_int n)
      ∙ free-format_int (is_char b';') n (λ c d. ground arith)

  split-tail :
      split_on b';' ("created=" ^^ created_tail_of n key_id)
      ≡ ("created=" ^^ format_int n) ∷ ("keyid=" ^^ quoted key_id) ∷ "alg=\"hmac-sha256\"" ∷ []
  unfolding split_on
  split-tail =
      let second : split_on b';' ("keyid=" ^^ key_tail_of key_id)
          ≡ ("keyid=" ^^ quoted key_id) ∷ "alg=\"hmac-sha256\"" ∷ [] =
        ap (split_on b';') (sym (append_assoc "keyid=" (quoted key_id) ";alg=\"hmac-sha256\""))
        ∙ split_on-append b';' ("keyid=" ^^ quoted key_id) ";" "alg=\"hmac-sha256\"" quoted-whole
            refl in
      ap (split_on b';') (
        sym (append_assoc "created=" (format_int n) (";keyid=" ^^ key_tail_of key_id))
        ∙ ap (λ t. ("created=" ^^ format_int n) ^^ t)
            (append_assoc ";" "keyid=" (key_tail_of key_id)
              ∙ mark-append ";" ("keyid=" ^^ key_tail_of key_id)))
      ∙ split_on-append b';' ("created=" ^^ format_int n) ";" ("keyid=" ^^ key_tail_of key_id)
          created-whole refl
      ∙ ap (λ t. ("created=" ^^ format_int n) ∷ t) second

  add_params-tail :
      (raw list : String)
      → add_params
          (split_on b';' ("created=" ^^ created_tail_of n key_id))
          (initial_params raw list)
        ≡ parsed (read_back (components_of (fields list)) n key_id raw)
  unfolding add_params
  add_params-tail raw list =
      rw
        (
          split-tail,
          add_param-created n (initial_params raw list) fits,
          add_param-keyid key_id unmarked _,
        )
        refl

  module _ (list name : String) (names : List String) (closed : free (is_char b')') list ≡ true)
      (listed : components_of (fields list) ≡ name ∷ names) (given : key_id ≢ "")
      (later : n ≢ 0) where
    rest_Ended : Ended (list ^^ (");created=" ^^ created_tail_of n key_id))
    rest_Ended = append-Ended list _ (
        append-Ended ");created=" _ (
          append-Ended (format_int n) _
            (append-Ended ";keyid=" _ (append-Ended (quoted key_id) _ alg-Ended))))

    params-Ended : Ended (params_of list n key_id)
    params-Ended = append-Ended "(" _ rest_Ended

    pub parse_signature_input-read_back :
        parse_signature_input ("sig1=" ^^ (params_of list n key_id))
        ≡ parsed (read_back (name ∷ names) n key_id (params_of list n key_id))
    unfolding parse_signature_input is_space
    parse_signature_input-read_back =
        let ended : Ended ("sig1=" ^^ (params_of list n key_id)) =
          append-Ended "sig1=" (params_of list n key_id) params-Ended in
        let k : (key_id == "") ≡ false = ground (arith, eq_iff key_id "") in
        let opened : after_mark b'(' (params_of list n key_id)
            ≡ some (list ^^ (");created=" ^^ created_tail_of n key_id)) =
          ap (after_mark b'(')
            (mark-append "(" (list ^^ (");created=" ^^ created_tail_of n key_id))) in
        let cut_list : cut b')' (list ^^ (");created=" ^^ created_tail_of n key_id))
            ≡ (list, some (";created=" ^^ created_tail_of n key_id)) =
          ap (λ t. cut b')' (list ^^ t))
            (append_assoc ")" ";created=" (created_tail_of n key_id)
              ∙ mark-append ")" (";created=" ^^ created_tail_of n key_id))
          ∙ cut-append b')' list ")" (";created=" ^^ created_tail_of n key_id) closed refl in
        let dropped : drop_prefix b';' (";created=" ^^ created_tail_of n key_id)
            ≡ "created=" ^^ created_tail_of n key_id =
          ap (drop_prefix b';') (
            append_assoc ";" "created=" (created_tail_of n key_id)
            ∙ mark-append ";" ("created=" ^^ created_tail_of n key_id)) in
        rw
          (
            trim_space-append "sig1=" (params_of list n key_id) refl params-Ended,
            cut-mark b'=' "sig1" "=" (params_of list n key_id) refl refl,
            trim_space-append "(" (list ^^ (");created=" ^^ created_tail_of n key_id)) refl
                rest_Ended,
            opened,
            cut_list,
            dropped,
            add_params-tail (params_of list n key_id) list,
            listed,
            k,
          )
          (ground arith)
