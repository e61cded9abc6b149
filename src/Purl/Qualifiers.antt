-- ===== src/Purl/Qualifiers.antt =====
-- The qualifiers of api/purl.go: what is printed of them is read back.
use Prim.Native.Char.{Char}
use scintx.Base.{
  String, ◌^^◌, Bool, true, false, some, List, [], ◌∷◌, ◌++◌, map, All, All-mono, All-map, Map,
  contains, lookup, insert, keys, DistinctKeys, ◌==◌, ◌≡◌, refl, sym, arith, eq_iff, if◌then◌else◌,
  to_lower, sort, join, ◌∙◌, ap,
}
use mathlib.Core.List.{append_assoc, append-nil}
use scintx.Purl.{is_char, cut, split_on, qualifiers_of, add_qualifier, value_of, print_qualifiers}
use scintx.Purl.Cuts.{
  free, free-append, cut-append, split_on-free, split_on-append, mark-append, append-nonempty,
}

abbrev pub pair_text : String × String → String
pair_text (k, v) = k ^^ ("=" ^^ v)

-- A qualifier that can be told apart: its key is in lower case and without the sign of equality,
-- and neither key nor value has one of the marks that end it.
abbrev pub Plain : String × String → Type 0
Plain (k, v) =
    (to_lower k ≡ k)
    × (free (is_char b'=') k ≡ true)
    × (free (is_char b'&') (pair_text (k, v)) ≡ true)
    × (free (is_char b'#') (pair_text (k, v)) ≡ true)

-- The map has the pairs of the list.
abbrev Has : Map String → Map String → Type 0
Has m [] = Unit
Has m ((k, v) ∷ q) = (lookup k m ≡ some v) × Has m q

Has-cons :
    (m q : Map String) (j w : String) → contains j (keys q) ≡ false → Has m q → Has ((j, w) ∷ m) q
unfolding lookup
Has-cons m [] j w c h = tt
Has-cons m ((k, v) ∷ q) j w c h =
    (ground (arith, eq_iff j k, eq_iff k j), Has-cons m q j w (ground arith) h.1)

Has-DistinctKeys : (q : Map String) → DistinctKeys q → Has q q
unfolding lookup
Has-DistinctKeys [] d = tt
Has-DistinctKeys ((k, v) ∷ q) d =
    (ground (arith, eq_iff k k), Has-cons q q k v d.0 (Has-DistinctKeys q d.1))

map-pair_text :
    (m q : Map String) → Has m q → map (λ k. k ^^ ("=" ^^ value_of m k)) (keys q) ≡ map pair_text q
map-pair_text m [] h = refl
map-pair_text m ((k, v) ∷ q) h = rw (h.0, map-pair_text m q h.1) refl

insert-new :
    (k v : String) (acc : Map String)
    → contains k (keys acc) ≡ false
    → insert k v acc ≡ acc ++ (k, v) ∷ []
unfolding insert
insert-new k v [] c = refl
insert-new k v ((j, w) ∷ acc) c = ground (arith, eq_iff j k, eq_iff k j, insert-new k v acc)

-- No key of the second is a key of the first.
abbrev New : Map String → Map String → Type 0
New acc q = All (λ e. contains e.0 (keys acc) ≡ false) q

New-snoc :
    (acc q : Map String) (k v : String)
    → contains k (keys q) ≡ false
    → New acc q
    → New (acc ++ (k, v) ∷ []) q
New-snoc acc [] k v c n = tt
New-snoc acc ((j, w) ∷ q) k v c n =
    (go acc n.0 (ground (arith, eq_iff j k, eq_iff k j)), New-snoc acc q k v (ground arith) n.1)
  where
    go :
        (acc : Map String)
        → contains j (keys acc) ≡ false
        → (k == j) ≡ false
        → contains j (keys (acc ++ (k, v) ∷ [])) ≡ false
    go [] a e = ground arith
    go ((i, u) ∷ acc) a e = ground (arith, go acc)

add-Plain :
    (k v : String) (acc : Map String)
    → Plain (k, v)
    → contains k (keys acc) ≡ false
    → (if pair_text (k, v) == "" then acc else add_qualifier (cut b'=' (pair_text (k, v))) acc)
      ≡ acc ++ (k, v) ∷ []
add-Plain k v acc p c =
    rw (mark-append "=" v, append-nonempty k "=" v, cut-append b'=' k "=" v p.1 refl, p.0)
      (insert-new k v acc c)

qualifiers_of-append :
    (q acc : Map String)
    → All Plain q
    → DistinctKeys q
    → New acc q
    → qualifiers_of (map pair_text q) acc ≡ acc ++ q
unfolding qualifiers_of
qualifiers_of-append [] acc p d n = sym (append-nil acc)
qualifiers_of-append ((k, v) ∷ q) acc p d n =
    ap (qualifiers_of (map pair_text q)) (add-Plain k v acc p.0 n.0)
    ∙ qualifiers_of-append q (acc ++ (k, v) ∷ []) p.1 d.1 (New-snoc acc q k v d.0 n.1)
    ∙ append_assoc acc ((k, v) ∷ []) q

free-join :
    (stop : Char → Bool) (ps : List String)
    → free stop "&" ≡ true
    → All (λ p. free stop p ≡ true) ps
    → free stop (join "&" ps) ≡ true
unfolding join
free-join stop [] a h = refl
free-join stop (p ∷ []) a h = h.0
free-join stop (p ∷ r ∷ ps) a h =
    rw
      (
        free-append stop p ("&" ^^ join "&" (r ∷ ps)),
        free-append stop "&" (join "&" (r ∷ ps)),
        h.0,
        a,
      )
      (free-join stop (r ∷ ps) a h.1)

split_on-join :
    (p : String) (ps : List String)
    → All (λ p. free (is_char b'&') p ≡ true) (p ∷ ps)
    → split_on b'&' (join "&" (p ∷ ps)) ≡ p ∷ ps
unfolding join
split_on-join p [] h = split_on-free b'&' p h.0
split_on-join p (r ∷ ps) h = rw mark-append (
    split_on-append b'&' p "&" (join "&" (r ∷ ps)) h.0 refl
    ∙ ap (λ l. p ∷ l) (split_on-join r ps h.1))

-- The qualifiers are told apart, and their keys are distinct and in order.
pub record Readable (q : Map String) : Type 0 where
  pub plain : All Plain q
  pub distinct : DistinctKeys q
  pub ordered : sort (keys q) ≡ keys q

-- The text of the qualifiers, without its mark.
abbrev pub query : Map String → String
query q = join "&" (map pair_text q)

pub print_qualifiers-query :
    (e : String × String) (q : Map String)
    → Readable (e ∷ q)
    → print_qualifiers (e ∷ q) ≡ "?" ^^ query (e ∷ q)
print_qualifiers-query e q r =
    rw (r.ordered, map-pair_text (e ∷ q) (e ∷ q) (Has-DistinctKeys (e ∷ q) r.distinct)) refl

pub qualifiers_of-query :
    (e : String × String) (q : Map String)
    → Readable (e ∷ q)
    → qualifiers_of (split_on b'&' (query (e ∷ q))) [] ≡ e ∷ q
qualifiers_of-query e q r =
    rw
      (split_on-join (pair_text e) (map pair_text q)
        (All-map _ pair_text (e ∷ q) (All-mono (λ x p. p.2) (e ∷ q) r.plain)))
      (qualifiers_of-append (e ∷ q) [] r.plain r.distinct (All-mono (λ x p. refl) (e ∷ q) r.plain))

pub query-free : (q : Map String) → All Plain q → free (is_char b'#') (query q) ≡ true
query-free q p =
    free-join (is_char b'#') (map pair_text q) refl
      (All-map _ pair_text q (All-mono (λ x p. p.3) q p))
