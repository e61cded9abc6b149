-- ===== src/Purl/RoundTrip.antt =====
-- What api/purl.go prints, it reads back.
use Prim.Native.String.append.{nil as empty-append, cons as cons-append}
use scintx.Base.{
  String, ◌^^◌, true, false, some, [], ◌∷◌, Map, contains, ◌==◌, ◌≡◌, inl, inr, refl, to_lower,
  subst, ◌∙◌, ap, Bool-cases,
}
use scintx.Purl.{
  cons, span, strip_prefix, ParsedPurl, namespace_lower_types, ends_type, ends_path, has_line_break,
  or_empty, split_path, extract_version, strip_version, Tail, parse_tail, lower_if, from_groups,
  drop_char, path_and_tail, parse_purl, print_qualifiers, print_purl, canonical_purl, trim_slashes,
}
use scintx.Purl.Cuts.{stops, span-append, mark-append}
use scintx.Purl.Qualifiers.{Readable, query, print_qualifiers-query}
use scintx.Purl.Parts.{
  named, tail_text, IsCanonical, strip_prefix-append, has_line_break-drop_char, split_hash-append,
  version_lem, body, path-body, print_purl-path, body-free, split_path-body, hash_text,
  hash_text-cons, hash_text-empty, tail_of, parse_tail_lem,
}

from_groups-parts :
    (p : ParsedPurl) (rest : String) (namespace name : String) (t : Tail)
    → split_path rest ≡ (namespace, name)
    → parse_tail (tail_text p) ≡ t
    → from_groups p.type rest (tail_text p) ≡ record {
      type = to_lower p.type;
      namespace = lower_if (contains (to_lower p.type) namespace_lower_types) namespace;
      name = lower_if (contains (to_lower p.type) namespace_lower_types) (strip_version name);
      version = or_empty (extract_version name);
      qualifiers = t.qualifiers;
      subpath = trim_slashes t.subpath;
      hash = t.hash;
    }
unfolding from_groups
from_groups-parts p rest namespace name t a b = rw (a, b) refl

from_groups-print :
    (p : ParsedPurl) → IsCanonical p → from_groups p.type (cons "/" (body p)) (tail_text p) ≡ p
from_groups-print p v =
    let (n, w) = version_lem p.name p.version v.name_plain in
    from_groups-parts p (cons "/" (body p)) p.namespace (named p)
      (tail_of p.qualifiers (p.hash, p.subpath)) (split_path-body p v)
      (parse_tail_lem p.qualifiers p.hash p.subpath v.readable
        (split_hash-append p.hash p.subpath v.hash_plain v.subpath_slash) v.hash_leads)
    ∙ rw (n, w, v.type_lower, v.namespace_lower, v.name_lower, v.subpath_trimmed) refl

stops-tail_text : (p : ParsedPurl) → IsCanonical p → stops ends_path (tail_text p) ≡ true
stops-tail_text p v = go p.qualifiers v.readable
  where
    go :
        (q : Map String)
        → Readable q
        → stops ends_path (print_qualifiers q ^^ hash_text p.hash p.subpath) ≡ true
    go [] r = elim (Bool-cases (p.hash == "")) [
      | inl h ↦ rw (hash_text-empty p.hash p.subpath h (v.hash_leads h)) refl
      | inr h ↦
          rw (hash_text-cons p.hash p.subpath h, empty-append (cons "#" (p.hash ^^ p.subpath))) refl
    ]
    go (e ∷ q) r =
        rw
          (
            print_qualifiers-query e q r,
            mark-append "?" (query (e ∷ q)),
            cons-append "?" (query (e ∷ q)) (hash_text p.hash p.subpath),
          )
          refl

path_and_tail-print :
    (p : ParsedPurl)
    → IsCanonical p
    → path_and_tail (cons "/" (body p) ^^ tail_text p) ≡ (cons "/" (body p), tail_text p)
unfolding path_and_tail
path_and_tail-print p v = rw (cons-append "/" (body p) (tail_text p)) (
    subst (λ s. span ends_path s ≡ (cons "/" (body p), tail_text p))
      (cons-append "/" (body p) (tail_text p))
      (span-append ends_path (cons "/" (body p)) (tail_text p) (body-free p v)
        (stops-tail_text p v)))

span-print :
    (p : ParsedPurl)
    → IsCanonical p
    → span ends_type (p.type ^^ (cons "/" (body p) ^^ tail_text p))
      ≡ (p.type, cons "/" (body p) ^^ tail_text p)
span-print p v =
    span-append ends_type p.type (cons "/" (body p) ^^ tail_text p) v.type_plain
      (rw (cons-append "/" (body p) (tail_text p)) refl)

parse_purl-parts :
    (purl s type after rest tail : String)
    → strip_prefix "pkg:" purl ≡ some s
    → span ends_type s ≡ (type, after)
    → path_and_tail after ≡ (rest, tail)
    → (type == "") ≡ false
    → has_line_break (drop_char tail) ≡ false
    → parse_purl purl ≡ some (from_groups type rest tail)
unfolding parse_purl from_groups
parse_purl-parts purl s type after rest tail a b c d e = rw (parse_purl, a, b, c, d, e) refl

-- A purl that is printed from parts that can be told apart is read as these parts, all of them:
-- type, namespace, name, version, qualifiers, hash and subpath.
pub parse_purl-print_purl : (p : ParsedPurl) → IsCanonical p → parse_purl (print_purl p) ≡ some p
parse_purl-print_purl p v =
    rw (print_purl-path p, path-body p)
      (parse_purl-parts _ _ _ _ _ _
          (strip_prefix-append "pkg:" (p.type ^^ (cons "/" (body p) ^^ tail_text p)))
          (span-print p v) (path_and_tail-print p v) v.type_nonempty
          (has_line_break-drop_char (tail_text p) v.one_line)
        ∙ ap some (from_groups-print p v))

-- So its canonical form is the text itself.
pub canonical_purl-print_purl :
    (p : ParsedPurl) → IsCanonical p → canonical_purl (print_purl p) ≡ some (print_purl p)
unfolding canonical_purl print_purl
canonical_purl-print_purl p v = rw (canonical_purl, parse_purl-print_purl p v) refl
