-- ===== src/Purl/Parts.antt =====
-- The parts of a purl that api/purl.go prints, told apart again one by one.
use Prim.Native.Char.{Char, code}
use Prim.Native.String.append.{nil as empty-append, cons as cons-append}
use scintx.Base.{
  String, ◌^^◌, true, false, Option, none, some, [], ◌∷◌, Map, contains, ◌==◌, ◌≡◌, ◌⊎◌, inl, inr,
  refl, sym, arith, eq_iff, if◌then◌else◌, to_lower, ◌∙◌, ap, Bool-cases,
}
use scintx.Purl.{
  cons, is_char, cut, split_on, qualifiers_of, strip_prefix, ParsedPurl, namespace_lower_types,
  ends_type, ends_path, has_line_break, or_empty, path_parts, split_path, extract_version,
  strip_version, split_hash, Tail, parse_tail, lower_if, drop_char, prefixed, print_qualifiers,
  print_purl, trim_slashes,
}
use scintx.Purl.Cuts.{
  free, free-append, append-empty, append_assoc, cut-free, cut-append, mark-append,
}
use scintx.Purl.Qualifiers.{
  Readable, query, print_qualifiers-query, qualifiers_of-query, query-free,
}

-- The version with its mark, behind the name.
abbrev pub named : ParsedPurl → String
named p = p.name ^^ prefixed "@" p.version

-- The part from ? or # on.
abbrev pub tail_text : ParsedPurl → String
tail_text p = print_qualifiers p.qualifiers ^^ (prefixed "#" p.hash ^^ p.subpath)

-- Parts that can be told apart in the text: none has a mark in it that ends it, the type and the
-- names are in lower case where they are read so, and a subpath follows a hash.
pub record IsCanonical (p : ParsedPurl) : Type 0 where
  pub type_plain : free ends_type p.type ≡ true
  pub type_nonempty : (p.type == "") ≡ false
  pub type_lower : to_lower p.type ≡ p.type
  pub namespace_plain : free (is_char b'/') p.namespace ≡ true
  pub namespace_path : free ends_path p.namespace ≡ true
  pub namespace_lower : lower_if (contains p.type namespace_lower_types) p.namespace ≡ p.namespace
  pub name_plain : free (is_char b'@') p.name ≡ true
  pub name_lower : lower_if (contains p.type namespace_lower_types) p.name ≡ p.name
  pub named_path : free ends_path (named p) ≡ true
  pub named_plain : (p.namespace == "") ≡ true → free (is_char b'/') (named p) ≡ true
  pub readable : Readable p.qualifiers
  pub hash_plain : free (is_char b'/') p.hash ≡ true
  pub hash_leads : (p.hash == "") ≡ true → p.subpath ≡ ""
  pub subpath_slash : (p.subpath ≡ "") ⊎ ((rest : String) × (p.subpath ≡ cons "/" rest))
  pub subpath_trimmed : trim_slashes p.subpath ≡ p.subpath
  pub one_line : has_line_break (tail_text p) ≡ false

is_char-code : (c : Char) → is_char (code c) c ≡ true
is_char-code c = ground arith

pub strip_prefix-append : (s x : String) → strip_prefix s (s ^^ x) ≡ some x
unfolding strip_prefix
strip_prefix-append String.[] x = rw empty-append refl
strip_prefix-append (String.◌∷◌ c s) x = rw (cons-append, is_char-code c) (strip_prefix-append s x)

empty_lem : (s : String) → (s == "") ≡ true → s ≡ ""
empty_lem s h = ground (arith, eq_iff s "")

prefixed-empty : (mark s : String) → (s == "") ≡ true → prefixed mark s ≡ ""
prefixed-empty mark s h = rw h refl

prefixed-cons : (c : Char) (s : String) → (s == "") ≡ false → prefixed (cons c "") s ≡ cons c s
prefixed-cons c s h = rw (h, mark-append c s) refl

pub has_line_break-drop_char :
    (s : String) → has_line_break s ≡ false → has_line_break (drop_char s) ≡ false
unfolding has_line_break
has_line_break-drop_char String.[] h = refl
has_line_break-drop_char (String.◌∷◌ c s) h = ground (arith, h)

-- Hash and subpath are told apart again.
pub split_hash-append :
    (hash subpath : String)
    → free (is_char b'/') hash ≡ true
    → (subpath ≡ "") ⊎ ((rest : String) × (subpath ≡ cons "/" rest))
    → split_hash (hash ^^ subpath) ≡ (hash, subpath)
unfolding split_hash
split_hash-append hash subpath f (inl e) = rw (e, append-empty hash, cut-free b'/' hash f) refl
split_hash-append hash subpath f (inr (rest, e)) =
    rw (e, cut-append b'/' hash "/" rest f refl, mark-append "/" rest) refl

-- So are name and version.
pub version_lem :
    (name version : String)
    → free (is_char b'@') name ≡ true
    → (strip_version (name ^^ prefixed "@" version) ≡ name)
      × (or_empty (extract_version (name ^^ prefixed "@" version)) ≡ version)
unfolding strip_version extract_version
version_lem name version f = elim (Bool-cases (version == "")) [
  | inl h ↦
      let q : cut b'@' (name ^^ prefixed "@" version) ≡ (name, none) =
        rw (prefixed-empty "@" version h, append-empty name) (cut-free b'@' name f) in
      (ap (λ t. t.0) q, ap (λ t. or_empty t.1) q ∙ sym (empty_lem version h))
  | inr h ↦
      let q : cut b'@' (name ^^ prefixed "@" version) ≡ (name, some version) =
        rw (prefixed-cons "@" version h) (cut-append b'@' name "@" version f refl) in
      (ap (λ t. t.0) q, ap (λ t. or_empty t.1) q)
]

-- The path behind its first slash.
abbrev pub body : ParsedPurl → String
body p = if p.namespace == "" then named p else p.namespace ^^ cons "/" (named p)

-- The path, as it is printed.
abbrev pub path : ParsedPurl → String
path p = prefixed "/" p.namespace ^^ ("/" ^^ named p)

pub path-body : (p : ParsedPurl) → path p ≡ cons "/" (body p)
path-body p = elim (Bool-cases (p.namespace == "")) [
  | inl h ↦
      rw
        (
          prefixed-empty "/" p.namespace h,
          h,
          empty-append ("/" ^^ named p),
          mark-append "/" (named p),
        )
        refl
  | inr h ↦
      rw
        (prefixed-cons "/" p.namespace h, h, mark-append "/" (named p), cons-append "/" p.namespace)
        refl
]

pub print_purl-path :
    (p : ParsedPurl) → print_purl p ≡ "pkg:" ^^ (p.type ^^ (path p ^^ tail_text p))
unfolding print_purl
print_purl-path p = simp append_assoc

pub body-free : (p : ParsedPurl) → IsCanonical p → free ends_path (body p) ≡ true
body-free p v = elim (Bool-cases (p.namespace == "")) [
  | inl h ↦ rw h v.named_path
  | inr h ↦
      rw (h, free-append ends_path p.namespace (cons "/" (named p)), v.namespace_path) v.named_path
]

-- Namespace and name are told apart again.
pub split_path-body :
    (p : ParsedPurl) → IsCanonical p → split_path (cons "/" (body p)) ≡ (p.namespace, named p)
unfolding split_path
split_path-body p v = elim (Bool-cases (p.namespace == "")) [
  | inl h ↦
      let q : cut b'/' (body p) ≡ (named p, none) =
        rw h (cut-free b'/' (named p) (v.named_plain h)) in
      ap path_parts q ∙ ap (λ s. (s, named p)) (sym (empty_lem p.namespace h))
  | inr h ↦
      let q : cut b'/' (body p) ≡ (p.namespace, some (named p)) =
        rw h (cut-append b'/' p.namespace "/" (named p) v.namespace_plain refl) in
      ap path_parts q
]

abbrev pub hash_text : String → String → String
hash_text hash subpath = prefixed "#" hash ^^ subpath

pub hash_text-cons :
    (hash subpath : String)
    → (hash == "") ≡ false
    → hash_text hash subpath ≡ cons "#" (hash ^^ subpath)
hash_text-cons hash subpath h = rw (prefixed-cons "#" hash h, cons-append "#" hash subpath) refl

pub hash_text-empty :
    (hash subpath : String) → (hash == "") ≡ true → subpath ≡ "" → hash_text hash subpath ≡ ""
hash_text-empty hash subpath h e = rw (prefixed-empty "#" hash h, e) refl

abbrev pub tail_of : Map String → String × String → Tail
tail_of q (hash, subpath) = record { qualifiers = q; hash = hash; subpath = subpath }

parse_tail-hash : (s : String) → parse_tail (cons "#" s) ≡ tail_of [] (split_hash s)
unfolding parse_tail
parse_tail-hash s = refl

parse_tail-query :
    (s queries : String) (after : Option String)
    → cut b'#' s ≡ (queries, after)
    → parse_tail (cons "?" s)
      ≡ tail_of (qualifiers_of (split_on b'&' queries) []) (split_hash (or_empty after))
unfolding parse_tail
parse_tail-query s queries after e =
    ap (λ t. tail_of (qualifiers_of (split_on b'&' t.0) []) (split_hash (or_empty t.1))) e

split_hash-empty :
    (hash subpath : String) → (hash == "") ≡ true → subpath ≡ "" → split_hash "" ≡ (hash, subpath)
unfolding split_hash
split_hash-empty hash subpath h e = rw (empty_lem hash h, e) refl

parse_tail-empty :
    (hash subpath : String)
    → (hash == "") ≡ true
    → subpath ≡ ""
    → parse_tail "" ≡ tail_of [] (hash, subpath)
unfolding parse_tail
parse_tail-empty hash subpath h e = rw (empty_lem hash h, e) refl

-- The tail is told apart again.
pub parse_tail_lem :
    (q : Map String) (hash subpath : String)
    → Readable q
    → (split_hash (hash ^^ subpath) ≡ (hash, subpath))
    → ((hash == "") ≡ true → subpath ≡ "")
    → parse_tail (print_qualifiers q ^^ hash_text hash subpath) ≡ tail_of q (hash, subpath)
parse_tail_lem [] hash subpath r s l = elim (Bool-cases (hash == "")) [
  | inl h ↦ rw (hash_text-empty hash subpath h (l h)) (parse_tail-empty hash subpath h (l h))
  | inr h ↦
      rw (hash_text-cons hash subpath h, empty-append (cons "#" (hash ^^ subpath)))
        (parse_tail-hash (hash ^^ subpath) ∙ ap (tail_of []) s)
]
parse_tail_lem (e ∷ q) hash subpath r s l =
    let t = query (e ∷ q) in
    let f = query-free (e ∷ q) r.plain in
    rw (print_qualifiers-query e q r, mark-append "?" t, cons-append "?" t (hash_text hash subpath))
      (elim (Bool-cases (hash == "")) [
        | inl h ↦
            rw (hash_text-empty hash subpath h (l h), append-empty t)
              (parse_tail-query t t none (cut-free b'#' t f)
                ∙ rw (qualifiers_of-query e q r)
                    (ap (tail_of (e ∷ q)) (split_hash-empty hash subpath h (l h))))
        | inr h ↦ rw (hash_text-cons hash subpath h) (
            parse_tail-query (t ^^ cons "#" (hash ^^ subpath)) t (some (hash ^^ subpath))
              (cut-append b'#' t "#" (hash ^^ subpath) f refl)
            ∙ rw (qualifiers_of-query e q r) (ap (tail_of (e ∷ q)) s))
      ])
