-- ===== src/Merging/Identifiers.antt =====
-- The identifiers of a finding: the anchor of its key, and their union over the sources.
use scintx.Base.{
  String, ◌^^◌, not, ◌||◌, Option, none, some, List, [], ◌∷◌, ◌++◌, map, flat_map, Map, contains,
  lookup, insert, ◌==◌, starts_with, if◌then◌else◌, trim_space, to_upper, sort, join,
}
use scintx.Api.{Finding, TypedIdentifier, IdentifierRelation, ArtifactRef, ProviderResult}

-- sourcePair
pub record SourcePair (S : Type 0) : Type 0 where
  pub result : ProviderResult S
  pub finding : Finding S

-- strings.ToUpper(strings.TrimSpace(id.Value))
unfoldable pub normalize : TypedIdentifier → String
normalize id = to_upper (trim_space id.value)

-- The variables of the loop over the identifiers.
pub record Split : Type 0 where
  pub seen : List String
  pub cves : List String
  pub others : List String

abbrev pub no_identifiers : Split
no_identifiers = record { seen = []; cves = []; others = [] }

-- One round of the loop.
unfoldable pub sift : String → Split → Split
sift norm p =
    if norm == "" || contains norm p.seen
    then p
    else if starts_with norm "CVE-"
    then record p { seen = norm ∷ p.seen; cves = p.cves ++ norm ∷ [] }
    else record p { seen = norm ∷ p.seen; others = p.others ++ norm ∷ [] }

unfoldable pub sift_all : List TypedIdentifier → Split → Split
unfolding sift
sift_all [] p = p
sift_all (id ∷ ids) p = sift_all ids (sift (normalize id) p)

abbrev or_else : List String → List String → List String
or_else [] others = others
or_else (c ∷ cs) others = c ∷ cs

-- anchorIdentifiers
unfoldable pub anchor_identifiers : List TypedIdentifier → List String
unfolding sift_all
anchor_identifiers ids =
    let p = sift_all ids no_identifiers in or_else (sort p.cves) (sort p.others)

-- canonicalIdentifiers
unfoldable pub canonical_identifiers : List TypedIdentifier → List String
unfolding sift_all
canonical_identifiers ids = let p = sift_all ids no_identifiers in sort p.cves ++ sort p.others

abbrev or_no_text : Option String → String
or_no_text none = ""
or_no_text (some s) = s

-- The loop of firstSubjectPURL.
unfoldable pub first_purl : List ArtifactRef → String
first_purl [] = ""
first_purl (s ∷ subjects) =
    if not (or_no_text s.purl == "") then or_no_text s.purl else first_purl subjects

-- correlationKey; `hash` stands for hashStr, a SHA-256 digest in hexadecimal digits
module _ {S : Type 0} (hash : String → String) where
  unfoldable pub correlation_key : ProviderResult S → Finding S → String
  unfolding first_purl anchor_identifiers
  correlation_key r f = elim f.identifiers [
    | [] ↦
        if f.type == "secret"
        then hash ("secret/v1|" ^^ (f.type ^^ ("|" ^^ first_purl f.subjects)))
        else hash (r.provider.id ^^ ("|" ^^ f.id))
    | id ∷ ids ↦
        hash (
          "sca/v1|" ^^ (first_purl f.subjects ^^ ("|" ^^ join "," (anchor_identifiers (id ∷ ids)))))
  ]

-- normToID: the first identifier under each text
unfoldable pub by_norm : List TypedIdentifier → Map TypedIdentifier → Map TypedIdentifier
by_norm [] m = m
by_norm (id ∷ ids) m = elim (lookup (normalize id) m) [
  | none ↦ by_norm ids (insert (normalize id) id m)
  | some first ↦ by_norm ids m
]

-- normToID[norm], which is the zero value for a missing key
abbrev pub or_zero : Option TypedIdentifier → TypedIdentifier
or_zero none = record { scheme = ""; value = ""; relation = IdentifierRelation.unset }
or_zero (some id) = id

-- mergeIdentifiers
unfoldable pub merge_identifiers : {S : Type 0} → List (SourcePair S) → List TypedIdentifier
unfolding by_norm canonical_identifiers
merge_identifiers pairs =
    let ids = flat_map (λ p. p.finding.identifiers) pairs in
    map (λ norm. or_zero (lookup norm (by_norm ids []))) (canonical_identifiers ids)
