-- ===== src/Tests/Purls.antt =====
-- Purls, at a scoped package with qualifiers and a subpath.
use scintx.Base.{some, [], ◌∷◌, ◌≡◌, inr, refl, sort, lookup, to_lower, join}
use scintx.Purl.{ParsedPurl, parse_purl, print_purl, has_line_break, trim_slashes}
use scintx.Purl.Qualifiers.{Readable}
use scintx.Purl.Parts.{IsCanonical}
use scintx.Purl.RoundTrip.{parse_purl-print_purl}

abbrev scoped : ParsedPurl
scoped = record {
  type = "npm";
  namespace = "@angular";
  name = "core";
  version = "12.3.1";
  qualifiers = ("arch", "x64") ∷ ("os", "linux") ∷ [];
  subpath = "/src/main";
  hash = "sub";
}

qualifiers-Readable : Readable scoped.qualifiers
unfolding to_lower sort
qualifiers-Readable = record {
  plain = ((refl, refl, refl, refl), ((refl, refl, refl, refl), tt));
  distinct = (refl, (refl, tt));
  ordered = refl;
}

scoped-IsCanonical : IsCanonical scoped
unfolding to_lower trim_slashes has_line_break sort join lookup
scoped-IsCanonical = record {
  type_plain = refl;
  type_nonempty = refl;
  type_lower = refl;
  namespace_plain = refl;
  namespace_path = refl;
  namespace_lower = refl;
  name_plain = refl;
  name_lower = refl;
  named_path = refl;
  named_plain = λ h. refl;
  readable = qualifiers-Readable;
  hash_plain = refl;
  hash_leads = λ h. cc;
  subpath_slash = inr ("src/main", refl);
  subpath_trimmed = refl;
  one_line = refl;
}

parse_purl-print_purl_example : parse_purl (print_purl scoped) ≡ some scoped
parse_purl-print_purl_example = parse_purl-print_purl scoped scoped-IsCanonical
