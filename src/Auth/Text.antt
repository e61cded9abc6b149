-- ===== src/Auth/Text.antt =====
-- What internal/auth uses of Go's package strings.
use Prim.Native.Char.{Char}
use Prim.Native.String.{String}
use scintx.Base.{ℕ, Bool, true, false, List, [], ◌∷◌, if◌then◌else◌, ◌≡◌, refl}
use scintx.Base.Text.{is_space}
use scintx.Purl.{cons, is_char}

-- strings.Trim, by one character
unfoldable pub drop_marks : ℕ → String → String
drop_marks n String.[] = ""
drop_marks n (String.◌∷◌ c s) = let rest = drop_marks n s in if is_char n c then rest else cons c s

abbrev pub cons_unless_mark : Bool → Char → String → String
cons_unless_mark true c String.[] = ""
cons_unless_mark true c (String.◌∷◌ d s) = cons c (cons d s)
cons_unless_mark false c s = cons c s

unfoldable pub drop_last_marks : ℕ → String → String
drop_last_marks n String.[] = ""
drop_last_marks n (String.◌∷◌ c s) = cons_unless_mark (is_char n c) c (drop_last_marks n s)

unfoldable pub trim_marks : ℕ → String → String
unfolding drop_marks drop_last_marks
trim_marks n s = drop_marks n (drop_last_marks n s)

-- strings.TrimPrefix, by one character
abbrev pub drop_prefix : ℕ → String → String
drop_prefix n String.[] = ""
drop_prefix n (String.◌∷◌ c s) = if is_char n c then s else cons c s

-- strings.Fields: the word that is being read stands first, empty between words
abbrev pub add_word : String → List String → List String
add_word String.[] words = words
add_word (String.◌∷◌ c s) words = cons c s ∷ words

abbrev pub Words : Type 0
Words = String × List String

abbrev pub put_char : Char → Words → Words
put_char c (word, words) = if is_space c then ("", add_word word words) else (cons c word, words)

unfoldable pub words_of : String → Words
unfolding is_space
words_of String.[] = ("", [])
words_of (String.◌∷◌ c s) = put_char c (words_of s)

unfoldable pub fields : String → List String
unfolding words_of
fields s = let (word, words) = words_of s in add_word word words

fields_example : fields " a  bc\td" ≡ "a" ∷ "bc" ∷ "d" ∷ []
unfolding fields
fields_example = refl

trim_marks_example : trim_marks b'"' "\"\"a\"b\"" ≡ "a\"b"
unfolding trim_marks
trim_marks_example = refl
