-- ===== src/Auth/Parsing.antt =====
-- internal/auth/sign.go: the headers of a signature, as parseSignatureInput and
-- parseSignatureValue read them.
use Prim.Native.Char.{Char}
use scintx.Base.{
  ℕ, String, Bool, false, ◌||◌, Option, none, some, List, [], ◌∷◌, nat_eq, is_empty, ◌==◌,
  if◌then◌else◌, trim_space,
}
use scintx.Auth.{AuthError}
use scintx.Auth.Text.{trim_marks, drop_prefix, fields}
use scintx.Auth.Numbers.{ℤ, pos, negsuc, parse_int}
use scintx.Purl.{cut, split_on, is_char, cons}

-- strings.HasPrefix(s, "("), with s[1:]
abbrev pub after_mark : ℕ → String → Option String
after_mark n String.[] = none
after_mark n (String.◌∷◌ c s) = if is_char n c then some s else none

-- strings.HasSuffix(s, ":"), with s[:len(s)-1]
abbrev pub last_mark : ℕ → Char → String → Option String → Option String
last_mark n c String.[] rest = if is_char n c then some "" else none
last_mark n c (String.◌∷◌ d s) none = none
last_mark n c (String.◌∷◌ d s) (some t) = some (cons c t)

unfoldable pub before_mark : ℕ → String → Option String
before_mark n String.[] = none
before_mark n (String.◌∷◌ c s) = last_mark n c s (before_mark n s)

pub record SignatureParams : Type 0 where
  pub components : List String
  pub created : ℤ
  pub expires : ℤ
  pub key_id : String
  pub alg : String
  pub raw : String

pub data Parsed (A : Type 0) : Type 0 where
  parsed : A → Parsed A
  failed : AuthError → Parsed A

abbrev pub and_then {ℓ} : {A : Type 0} {R : Type ℓ} → (AuthError → R) → (A → R) → Parsed A → R
and_then fail next (parsed a) = next a
and_then fail next (failed e) = fail e

-- The quoted names of the covered components.
unfoldable pub components_of : List String → List String
unfolding trim_marks
components_of [] = []
components_of (part ∷ parts) =
    let rest = components_of parts in
    if trim_marks b'"' part == "" then rest else trim_marks b'"' part ∷ rest

abbrev with_created : Option ℤ → SignatureParams → Parsed SignatureParams
with_created none sp = failed AuthError.bad_created
with_created (some n) sp = parsed (record sp { created = n })

abbrev with_expires : Option ℤ → SignatureParams → Parsed SignatureParams
with_expires none sp = failed AuthError.bad_expires
with_expires (some n) sp = parsed (record sp { expires = n })

-- The switch on the name of a parameter.
unfoldable pub set_param : String → String → SignatureParams → Parsed SignatureParams
unfolding parse_int
set_param k v sp =
    if k == "created"
    then with_created (parse_int v) sp
    else if k == "expires"
    then with_expires (parse_int v) sp
    else if k == "keyid"
    then parsed (record sp { key_id = v })
    else if k == "alg"
    then parsed (record sp { alg = v })
    else parsed sp

abbrev on_pair : String × Option String → SignatureParams → Parsed SignatureParams
on_pair (k, none) sp = parsed sp
on_pair (k, some v) sp = set_param k (trim_marks b'"' v) sp

unfoldable pub add_param : String → SignatureParams → Parsed SignatureParams
unfolding set_param trim_marks cut
add_param part sp = if part == "" then parsed sp else on_pair (cut b'=' part) sp

-- The loop over the parameters.
unfoldable pub add_params : List String → SignatureParams → Parsed SignatureParams
unfolding add_param trim_space
add_params [] sp = parsed sp
add_params (part ∷ parts) sp =
    and_then failed (λ next. add_params parts next) (add_param (trim_space part) sp)

abbrev is_zero : ℤ → Bool
is_zero (pos n) = nat_eq n 0
is_zero (negsuc n) = false

abbrev pub complete : SignatureParams → Parsed SignatureParams
complete sp =
    if sp.key_id == "" || is_zero sp.created || is_empty sp.components
    then failed AuthError.incomplete
    else parsed sp

abbrev pub initial_params : String → String → SignatureParams
initial_params raw list = record {
  components = components_of (fields list);
  created = pos 0;
  expires = pos 0;
  key_id = "";
  alg = "hmac-sha256";
  raw = raw;
}

abbrev pub on_list : String → String × Option String → Parsed SignatureParams
on_list raw (list, none) = failed AuthError.unterminated_list
on_list raw (list, some tail) =
    and_then failed complete
      (add_params (split_on b';' (drop_prefix b';' tail)) (initial_params raw list))

abbrev pub on_rest : String → Option String → Parsed SignatureParams
on_rest raw none = failed AuthError.missing_list
on_rest raw (some body) = on_list raw (cut b')' body)

abbrev pub on_label : String × Option String → Parsed SignatureParams
on_label (label, none) = failed AuthError.missing_label
on_label (label, some rest) = on_rest (trim_space rest) (after_mark b'(' (trim_space rest))

-- parseSignatureInput
unfoldable pub parse_signature_input : String → Parsed SignatureParams
unfolding cut split_on add_params components_of fields trim_space
parse_signature_input input = on_label (cut b'=' (trim_space input))

abbrev pub value_in : Option String → Parsed String
value_in none = failed AuthError.bad_value
value_in (some s) = parsed s

-- rest[1 : len(rest)-1], out of range where the rest is one colon
abbrev pub inner : Option String → Parsed String
inner none = failed AuthError.bad_value
inner (some String.[]) = failed AuthError.out_of_range
inner (some (String.◌∷◌ c s)) = value_in (before_mark b':' (cons c s))

abbrev pub on_value : String × Option String → Parsed String
on_value (label, none) = failed AuthError.missing_label
on_value (label, some rest) = inner (after_mark b':' (trim_space rest))

-- parseSignatureValue
unfoldable pub parse_signature_value : String → Parsed String
unfolding cut trim_space before_mark
parse_signature_value value = on_value (cut b'=' (trim_space value))
