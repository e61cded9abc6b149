-- ===== src/Purl/Cuts.antt =====
-- Cutting a text that was put together: the searches of api/purl.go on what it prints.
use Prim.Native.Char.{Char}
use Prim.Native.String.append.{nil as empty-append, cons as cons-append}
use scintx.Base.{
  ℕ, String, ◌^^◌, Bool, true, false, not, ◌&&◌, none, some, List, [], ◌∷◌, ◌==◌, ◌≡◌, refl, subst,
  ◌∙◌, ap, inl, inr, arith, eq_iff, Bool-cases,
}
use scintx.Purl.{cons, is_char, span, cut, split_on}

-- No character of the text stops the search.
abbrev pub free : (Char → Bool) → String → Bool
free stop String.[] = true
free stop (String.◌∷◌ c s) = not (stop c) && free stop s

-- The text is empty or its first character stops the search.
abbrev pub stops : (Char → Bool) → String → Bool
stops stop String.[] = true
stops stop (String.◌∷◌ c s) = stop c

pub ruleset appends = (empty-append, cons-append)

pub span-append :
    (stop : Char → Bool) (a b : String)
    → free stop a ≡ true
    → stops stop b ≡ true
    → span stop (a ^^ b) ≡ (a, b)
unfolding span
span-append stop String.[] String.[] f h = refl
span-append stop String.[] (String.◌∷◌ c b) f h = rw empty-append (ground arith)
span-append stop (String.◌∷◌ c a) b f h = rw cons-append (ground (arith, span-append stop a b))

pub append-empty : (a : String) → a ^^ "" ≡ a
append-empty String.[] = empty-append ""
append-empty (String.◌∷◌ c a) = rw (cons-append, append-empty a) refl

pub append_assoc : (a b c : String) → (a ^^ b) ^^ c ≡ a ^^ (b ^^ c)
append_assoc String.[] b c = simp appends
append_assoc (String.◌∷◌ x a) b c = simp (appends, append_assoc a b c)

pub free-append :
    (stop : Char → Bool) (a b : String) → free stop (a ^^ b) ≡ (free stop a && free stop b)
free-append stop String.[] b = rw empty-append refl
free-append stop (String.◌∷◌ c a) b = rw cons-append (ground (arith, free-append stop a b))

-- A text without the character is left whole.
pub cut-free : (n : ℕ) (a : String) → free (is_char n) a ≡ true → cut n a ≡ (a, none)
unfolding cut
cut-free n a f =
    let q : span (is_char n) a ≡ (a, "") =
      subst (λ s. span (is_char n) s ≡ (a, "")) (append-empty a)
        (span-append (is_char n) a "" f refl) in
    rw q refl

-- A text is cut at the first such character.
pub cut-append :
    (n : ℕ) (a : String) (c : Char) (b : String)
    → free (is_char n) a ≡ true
    → is_char n c ≡ true
    → cut n (a ^^ cons c b) ≡ (a, some b)
unfolding cut
cut-append n a c b f h = rw (span-append (is_char n) a (cons c b) f h) refl

pub split_on-free : (n : ℕ) (a : String) → free (is_char n) a ≡ true → split_on n a ≡ a ∷ []
unfolding split_on
split_on-free n String.[] f = refl
split_on-free n (String.◌∷◌ c a) f = ground (arith, split_on-free n a)

split_on-cases :
    (n : ℕ) (s : String) → (part : String) × (parts : List String) × (split_on n s ≡ part ∷ parts)
unfolding split_on
split_on-cases n String.[] = ("", [], refl)
split_on-cases n (String.◌∷◌ c s) =
    let (part, parts, e) = split_on-cases n s in
    elim (Bool-cases (is_char n c)) [
      | inl h ↦ ("", part ∷ parts, rw (e, h) refl)
      | inr h ↦ (cons c part, parts, rw (e, h) refl)
    ]

pub split_on-append :
    (n : ℕ) (a : String) (c : Char) (b : String)
    → free (is_char n) a ≡ true
    → is_char n c ≡ true
    → split_on n (a ^^ cons c b) ≡ a ∷ split_on n b
unfolding split_on
split_on-append n String.[] c b f h =
    let (part, parts, e) = split_on-cases n b in rw empty-append (ground (arith, e))
split_on-append n (String.◌∷◌ d a) c b f h =
    rw cons-append (ground (arith, split_on-append n a c b))

pub mark-append : (c : Char) (s : String) → cons c "" ^^ s ≡ cons c s
mark-append c s = cons-append c "" s ∙ ap (cons c) (empty-append s)

abbrev pub is_blank : String → Bool
is_blank String.[] = true
is_blank (String.◌∷◌ c s) = false

pub nonempty_eq : (s : String) → is_blank s ≡ false → (s == "") ≡ false
nonempty_eq s h = elim (Bool-cases (s == "")) [
  | inr e ↦ e
  | inl e ↦
      let q : s ≡ "" = ground (arith, eq_iff s "") in
      let w : is_blank "" ≡ false = subst (λ t. is_blank t ≡ false) q h in cc
]

-- A text with a character in it is not empty.
pub append-nonempty : (a : String) (c : Char) (b : String) → ((a ^^ cons c b) == "") ≡ false
append-nonempty String.[] c b = rw empty-append (nonempty_eq (cons c b) refl)
append-nonempty (String.◌∷◌ d a) c b = rw cons-append (nonempty_eq (cons d (a ^^ cons c b)) refl)
