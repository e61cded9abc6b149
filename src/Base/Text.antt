-- ===== src/Base/Text.antt =====
-- What the program uses of Go's package strings. Letters outside ASCII have no case here.
use Prim.Native.Nat.{ℕ, zero, suc, ◌+◌, ◌-◌}
use Prim.Native.Char.{Char, code}
use Prim.Native.String.{String, ◌++◌ as ◌^^◌, count, char_at}
use mathlib.Core.Path.{◌≡◌, refl}
use mathlib.Core.Bool.{Bool, true, false, ◌&&◌, ◌||◌}
use mathlib.Core.List.{List, [], ◌∷◌}
use native.Mathlib.Omega.{arith}
use text.Mathlib.Text.{starts_with}
use scintx.Base.Tests.{leb, nat_eq, if◌then◌else◌}

-- unicode.IsSpace, on code points
unfoldable pub is_space : Char → Bool
is_space c =
    (leb 9 (code c) && leb (code c) 13)
    || nat_eq (code c) 32
    || nat_eq (code c) 0x85
    || nat_eq (code c) 0xA0
    || nat_eq (code c) 0x1680
    || (leb 0x2000 (code c) && leb (code c) 0x200A)
    || nat_eq (code c) 0x2028
    || nat_eq (code c) 0x2029
    || nat_eq (code c) 0x202F
    || nat_eq (code c) 0x205F
    || nat_eq (code c) 0x3000

unfoldable pub trim_left : String → String
unfolding is_space
trim_left String.[] = ""
trim_left (String.◌∷◌ c s) = let rest = trim_left s in if is_space c then rest else String.◌∷◌ c s

abbrev pub cons_unless_blank : Bool → Char → String → String
cons_unless_blank true c String.[] = ""
cons_unless_blank true c (String.◌∷◌ d s) = String.◌∷◌ c (String.◌∷◌ d s)
cons_unless_blank false c s = String.◌∷◌ c s

unfoldable pub trim_right : String → String
unfolding is_space
trim_right String.[] = ""
trim_right (String.◌∷◌ c s) = cons_unless_blank (is_space c) c (trim_right s)

-- strings.TrimSpace
unfoldable pub trim_space : String → String
unfolding trim_left trim_right
trim_space s = trim_left (trim_right s)

-- the code of the lower-case letter
unfoldable pub fold_code : ℕ → ℕ
fold_code c = if leb b'A' c && leb c b'Z' then c + 32 else c

-- strings.EqualFold
unfoldable pub equal_fold : String → String → Bool
unfolding fold_code
equal_fold String.[] String.[] = true
equal_fold String.[] (String.◌∷◌ d t) = false
equal_fold (String.◌∷◌ c s) String.[] = false
equal_fold (String.◌∷◌ c s) (String.◌∷◌ d t) =
    nat_eq (fold_code (code c)) (fold_code (code d)) && equal_fold s t

-- strings.ToUpper and strings.ToLower, on the letters that have a case here
abbrev upper_char : Char → Char
upper_char c =
    if leb b'a' (code c) && leb (code c) b'z'
    then char_at "ABCDEFGHIJKLMNOPQRSTUVWXYZ" (code c - b'a')
    else c

abbrev lower_char : Char → Char
lower_char c =
    if leb b'A' (code c) && leb (code c) b'Z'
    then char_at "abcdefghijklmnopqrstuvwxyz" (code c - b'A')
    else c

unfoldable pub to_upper : String → String
to_upper String.[] = ""
to_upper (String.◌∷◌ c s) = String.◌∷◌ (upper_char c) (to_upper s)

unfoldable pub to_lower : String → String
to_lower String.[] = ""
to_lower (String.◌∷◌ c s) = String.◌∷◌ (lower_char c) (to_lower s)

-- The scan of strings.ReplaceAll, with the number of characters of a match still to skip.
unfoldable pub replace_from : ℕ → String → String → String → String
replace_from skip old new String.[] = ""
replace_from (suc k) old new (String.◌∷◌ c s) = replace_from k old new s
replace_from zero old new (String.◌∷◌ c s) =
    let hit = new ^^ replace_from (count old - 1) old new s in
    let miss = String.◌∷◌ c (replace_from 0 old new s) in
    if starts_with (String.◌∷◌ c s) old then hit else miss

-- strings.ReplaceAll, for a text to replace that is not empty
unfoldable pub replace_all : String → String → String → String
unfolding replace_from
replace_all s old new = replace_from 0 old new s

-- strings.Join
unfoldable pub join : String → List String → String
join sep [] = ""
join sep (s ∷ []) = s
join sep (s ∷ t ∷ r) = s ^^ sep ^^ join sep (t ∷ r)

pub equal_fold_refl : (s : String) → equal_fold s s ≡ true
unfolding equal_fold
equal_fold_refl String.[] = refl
equal_fold_refl (String.◌∷◌ c s) = ground (arith, equal_fold_refl s)

trim_space_example : trim_space "\t a b \n" ≡ "a b"
unfolding trim_space
trim_space_example = refl

replace_all_example : replace_all "x {{id}} {{id}}y" "{{id}}" "f1" ≡ "x f1 f1y"
unfolding replace_all
replace_all_example = refl

to_upper_example : to_upper "Cve-2024-a z" ≡ "CVE-2024-A Z"
unfolding to_upper
to_upper_example = refl

to_lower_example : to_lower "NPM_[x]" ≡ "npm_[x]"
unfolding to_lower
to_lower_example = refl
