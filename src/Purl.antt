-- ===== src/Purl.antt =====
-- api/purl.go: package URLs, their parts and their canonical form. The regular expression purlRe is
-- written out: a type, an optional path from its slash on, and an optional tail from ? or # on,
-- which holds no line break.
use Prim.Native.Char.{Char, code}
use scintx.Base.{
  ℕ, String, ◌^^◌, Bool, true, false, ◌||◌, Option, none, some, List, [], ◌∷◌, map, Map, contains,
  lookup, insert, keys, nat_eq, ◌==◌, if◌then◌else◌, to_lower, sort, join, ◌≡◌, refl,
}
pub mod Cuts
pub mod Qualifiers
pub mod Parts
pub mod RoundTrip

abbrev pub cons : Char → String → String
cons c s = String.◌∷◌ c s

abbrev pub is_char : ℕ → Char → Bool
is_char n c = nat_eq (code c) n

-- The longest prefix without a character that stops it, and what is left.
unfoldable pub span : (Char → Bool) → String → String × String
span stop String.[] = ("", "")
span stop (String.◌∷◌ c s) =
    let (before, after) = span stop s in if stop c then ("", cons c s) else (cons c before, after)

abbrev pub after_first : String → Option String
after_first String.[] = none
after_first (String.◌∷◌ c s) = some s

-- s[:i], and s[i+1:] unless i is -1, for the index i of a character in s
unfoldable pub cut : ℕ → String → String × Option String
unfolding span
cut n s = let (before, after) = span (is_char n) s in (before, after_first after)

unfoldable pub strip_prefix : String → String → Option String
strip_prefix String.[] s = some s
strip_prefix (String.◌∷◌ c p) String.[] = none
strip_prefix (String.◌∷◌ c p) (String.◌∷◌ d s) =
    let rest = strip_prefix p s in if is_char (code c) d then rest else none

-- strings.Split, by one character
unfoldable pub split_on : ℕ → String → List String
split_on n String.[] = "" ∷ []
split_on n (String.◌∷◌ c s) = elim (split_on n s) [
  | [] ↦ []
  | part ∷ parts ↦ if is_char n c then "" ∷ part ∷ parts else cons c part ∷ parts
]

abbrev cons_unless : Bool → Char → String → String
cons_unless true c String.[] = ""
cons_unless true c (String.◌∷◌ d s) = cons c (cons d s)
cons_unless false c s = cons c s

-- strings.TrimRight(s, "/")
unfoldable pub trim_slashes : String → String
trim_slashes String.[] = ""
trim_slashes (String.◌∷◌ c s) = cons_unless (is_char b'/' c) c (trim_slashes s)

-- parsedPurl
pub record ParsedPurl : Type 0 where
  pub type : String
  pub namespace : String
  pub name : String
  pub version : String
  pub qualifiers : Map String
  pub subpath : String
  pub hash : String

-- namespaceLowerTypes
abbrev pub namespace_lower_types : List String
namespace_lower_types = "pypi" ∷ "npm" ∷ "gem" ∷ "composer" ∷ "golang" ∷ []

abbrev pub ends_type : Char → Bool
ends_type c = is_char b'/' c || is_char b'#' c || is_char b'?' c

abbrev pub ends_path : Char → Bool
ends_path c = is_char b'#' c || is_char b'?' c

unfoldable pub has_line_break : String → Bool
has_line_break String.[] = false
has_line_break (String.◌∷◌ c s) = is_char 10 c || has_line_break s

abbrev pub or_empty : Option String → String
or_empty none = ""
or_empty (some s) = s

-- Namespace and name: the path is cut at its first slash.
abbrev pub path_parts : String × Option String → String × String
path_parts (name, none) = ("", name)
path_parts (namespace, some name) = (namespace, name)

unfoldable pub split_path : String → String × String
unfolding cut
split_path String.[] = ("", "")
split_path (String.◌∷◌ c body) = path_parts (cut b'/' body)

-- extractVersion and stripVersion: the text after the first @, and the text before it
unfoldable pub extract_version : String → Option String
unfolding cut
extract_version s = (cut b'@' s).1

unfoldable pub strip_version : String → String
unfolding cut
strip_version s = (cut b'@' s).0

abbrev pub add_qualifier : String × Option String → Map String → Map String
add_qualifier (k, none) m = m
add_qualifier (k, some v) m = insert (to_lower k) v m

-- The loop over the qualifiers.
unfoldable pub qualifiers_of : List String → Map String → Map String
unfolding cut
qualifiers_of [] m = m
qualifiers_of (kv ∷ kvs) m =
    qualifiers_of kvs (if kv == "" then m else add_qualifier (cut b'=' kv) m)

abbrev pub hash_parts : String × Option String → String × String
hash_parts (hash, none) = (hash, "")
hash_parts (hash, some rest) = (hash, "/" ^^ rest)

-- Hash and subpath, of the text after #.
unfoldable pub split_hash : String → String × String
unfolding cut
split_hash s = hash_parts (cut b'/' s)

pub record Tail : Type 0 where
  pub qualifiers : Map String
  pub hash : String
  pub subpath : String

-- The part from ? or # on.
unfoldable pub parse_tail : String → Tail
unfolding cut split_hash qualifiers_of split_on
parse_tail String.[] = record { qualifiers = []; hash = ""; subpath = "" }
parse_tail (String.◌∷◌ c body) =
    let (queries, after) = cut b'#' body in
    let (hash, subpath) = split_hash (or_empty after) in
    let (hash', subpath') = split_hash body in
    if is_char b'?' c
    then record {
      qualifiers = qualifiers_of (split_on b'&' queries) [];
      hash = hash;
      subpath = subpath;
    }
    else record { qualifiers = []; hash = hash'; subpath = subpath' }

abbrev pub lower_if : Bool → String → String
lower_if true s = to_lower s
lower_if false s = s

-- The parts of a text that the expression matches, from its three groups.
unfoldable pub from_groups : String → String → String → ParsedPurl
unfolding split_path extract_version strip_version parse_tail trim_slashes
from_groups type rest tail =
    let typ = to_lower type in
    let lower = contains typ namespace_lower_types in
    let (namespace, name) = split_path rest in
    let t = parse_tail tail in
    record {
      type = typ;
      namespace = lower_if lower namespace;
      name = lower_if lower (strip_version name);
      version = or_empty (extract_version name);
      qualifiers = t.qualifiers;
      subpath = trim_slashes t.subpath;
      hash = t.hash;
    }

abbrev pub drop_char : String → String
drop_char String.[] = ""
drop_char (String.◌∷◌ c s) = s

abbrev pub is_slash : String → Bool
is_slash String.[] = false
is_slash (String.◌∷◌ c s) = is_char b'/' c

-- The second and the third group, of what follows the type.
unfoldable pub path_and_tail : String → String × String
unfolding span
path_and_tail s = if is_slash s then span ends_path s else ("", s)

-- parsePurl
unfoldable pub parse_purl : String → Option ParsedPurl
unfolding strip_prefix span from_groups has_line_break path_and_tail
parse_purl purl = elim (strip_prefix "pkg:" purl) [
  | none ↦ none
  | some s ↦
      let (type, after) = span ends_type s in
      let (rest, tail) = path_and_tail after in
      if type == "" || has_line_break (drop_char tail)
      then none
      else some (from_groups type rest tail)
]

abbrev pub prefixed : String → String → String
prefixed mark s = if s == "" then "" else mark ^^ s

abbrev pub value_of : Map String → String → String
value_of m k = or_empty (lookup k m)

abbrev pub print_qualifiers : Map String → String
print_qualifiers [] = ""
print_qualifiers (q ∷ qs) =
    "?" ^^ join "&" (map (λ k. k ^^ ("=" ^^ value_of (q ∷ qs) k)) (sort (keys (q ∷ qs))))

-- The printing half of CanonicalPurl.
unfoldable pub print_purl : ParsedPurl → String
print_purl p =
    "pkg:"
    ^^ (p.type
        ^^ (prefixed "/" p.namespace
            ^^ ("/"
                ^^ (p.name
                    ^^ (prefixed "@" p.version
                        ^^ (print_qualifiers p.qualifiers
                            ^^ (prefixed "#" p.hash ^^ p.subpath)))))))

-- CanonicalPurl
unfoldable pub canonical_purl : String → Option String
unfolding parse_purl print_purl
canonical_purl purl = elim (parse_purl purl) [ none ↦ none | some p ↦ some (print_purl p) ]

-- PurlType; the empty text stands beside its error
unfoldable pub purl_type : String → String
unfolding parse_purl
purl_type purl = elim (parse_purl purl) [ none ↦ "" | some p ↦ p.type ]

-- PurlName
unfoldable pub purl_name : String → Option String
unfolding parse_purl
purl_name purl = elim (parse_purl purl) [ none ↦ none | some p ↦ some p.name ]

-- PurlVersion: an error is `none`, and a missing version `some none`
unfoldable pub purl_version : String → Option (Option String)
unfolding parse_purl
purl_version purl = elim (parse_purl purl) [
  | none ↦ none
  | some p ↦ some (if p.version == "" then none else some p.version)
]

full_example :
    canonical_purl "pkg:NPM/Scope/Left@1.0?B=2&a=1&&x#h/sub/"
    ≡ some "pkg:npm/scope/left@1.0?a=1&b=2#h/sub"
unfolding canonical_purl to_lower lookup insert sort join
full_example = refl

hashless_example : canonical_purl "pkg:npm/x#/sub" ≡ some "pkg:npm/x/sub"
unfolding canonical_purl to_lower lookup insert sort join
hashless_example = refl

line_break_example : canonical_purl "pkg:npm/x?a=\n" ≡ none
unfolding canonical_purl
line_break_example = refl
