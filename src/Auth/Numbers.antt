-- ===== src/Auth/Numbers.antt =====
-- Decimal numbers, as internal/auth/sign.go prints and reads them: %d and strconv.ParseInt with base
-- 10 and 64 bits.
use Prim.Native.Char.{Char, code}
use Prim.Native.Nat.{◌/◌, ◌%◌}
use scintx.Base.{
  ℕ, zero, suc, ◌+◌, ◌-◌, ◌*◌, ◌<◌, ◌≤◌, String, Bool, true, false, ◌&&◌, Option, none, some, ltb,
  leb, if◌then◌else◌, ◌≡◌, refl, ap, sym, ◌∙◌, arith, inl, inr, Bool-cases,
}
use scintx.Purl.{cons, is_char}
use scintx.Purl.Cuts.{free}

-- `negsuc n` is -(n + 1).
pub data ℤ : Type 0 where
  pos negsuc : ℕ → ℤ

abbrev pub digit : ℕ → Char
digit zero = "0"
digit (suc zero) = "1"
digit (suc (suc zero)) = "2"
digit (suc (suc (suc zero))) = "3"
digit (suc (suc (suc (suc zero)))) = "4"
digit (suc (suc (suc (suc (suc zero))))) = "5"
digit (suc (suc (suc (suc (suc (suc zero)))))) = "6"
digit (suc (suc (suc (suc (suc (suc (suc zero))))))) = "7"
digit (suc (suc (suc (suc (suc (suc (suc (suc zero)))))))) = "8"
digit _ = "9"

-- The digits of a number before a text; the fuel exceeds the number.
unfoldable pub digits : ℕ → ℕ → String → String
digits zero n out = out
digits (suc fuel) n out = elim (ltb n 10) [
  | true ↦ cons (digit n) out
  | false ↦ digits fuel (n / 10) (cons (digit (n % 10)) out)
]

-- fmt.Sprintf("%d", n)
unfoldable pub format_int : ℕ → String
unfolding digits
format_int n = digits (n + 1) n ""

abbrev pub is_digit : Char → Bool
is_digit c = leb b'0' (code c) && leb (code c) b'9'

unfoldable pub read_digits : String → ℕ → Option ℕ
read_digits String.[] n = some n
read_digits (String.◌∷◌ c s) n =
    let rest = read_digits s (n * 10 + (code c - b'0')) in if is_digit c then rest else none

abbrev pub max_int : ℕ
max_int = 9_223_372_036_854_775_807

abbrev pub with_sign : Bool → Option ℕ → Option ℤ
with_sign minus none = none
with_sign false (some n) = if leb n max_int then some (pos n) else none
with_sign true (some zero) = some (pos 0)
with_sign true (some (suc n)) = if leb n max_int then some (negsuc n) else none

-- One digit at least.
unfoldable pub read_number : String → Option ℕ
unfolding read_digits
read_number String.[] = none
read_number (String.◌∷◌ c s) = read_digits (cons c s) 0

-- strconv.ParseInt(s, 10, 64)
unfoldable pub parse_int : String → Option ℤ
unfolding read_number
parse_int String.[] = none
parse_int (String.◌∷◌ c s) =
    if is_char b'-' c
    then with_sign true (read_number s)
    else if is_char b'+' c
    then with_sign false (read_number s)
    else with_sign false (read_number (cons c s))

digit_code : (d : ℕ) → d < 10 → code (digit d) ≡ 48 + d
digit_code zero h = refl
digit_code (suc zero) h = refl
digit_code (suc (suc zero)) h = refl
digit_code (suc (suc (suc zero))) h = refl
digit_code (suc (suc (suc (suc zero)))) h = refl
digit_code (suc (suc (suc (suc (suc zero))))) h = refl
digit_code (suc (suc (suc (suc (suc (suc zero)))))) h = refl
digit_code (suc (suc (suc (suc (suc (suc (suc zero))))))) h = refl
digit_code (suc (suc (suc (suc (suc (suc (suc (suc zero)))))))) h = refl
digit_code (suc (suc (suc (suc (suc (suc (suc (suc (suc zero))))))))) h = refl
digit_code (suc (suc (suc (suc (suc (suc (suc (suc (suc (suc d)))))))))) h = absurd (omega arith)

read_digits-digits :
    (fuel n : ℕ) (out : String) → n < fuel → read_digits (digits fuel n out) 0 ≡ read_digits out n
unfolding read_digits digits
read_digits-digits zero n out h = elim h [ ]
read_digits-digits (suc fuel) n out h = elim (Bool-cases (ltb n 10)) [
  | inl e ↦ ground (arith, digit_code n)
  | inr e ↦
      ground
        (arith, read_digits-digits fuel (n / 10) (cons (digit (n % 10)) out), digit_code (n % 10))
]

-- A printed number has digits only.
free-digits :
    (stop : Char → Bool) (fuel n : ℕ) (out : String)
    → ((c : Char) → is_digit c ≡ true → stop c ≡ false)
    → free stop out ≡ true
    → free stop (digits fuel n out) ≡ true
unfolding digits
free-digits stop zero n out only f = f
free-digits stop (suc fuel) n out only f = elim (Bool-cases (ltb n 10)) [
  | inl e ↦ ground (arith, digit_code n, only (digit n))
  | inr e ↦
      let last : free stop (cons (digit (n % 10)) out) ≡ true =
        ground (arith, digit_code (n % 10), only (digit (n % 10))) in
      let rest = free-digits stop fuel (n / 10) (cons (digit (n % 10)) out) only last in
      ground (arith, rest)
]

pub free-format_int :
    (stop : Char → Bool) (n : ℕ)
    → ((c : Char) → is_digit c ≡ true → stop c ≡ false)
    → free stop (format_int n) ≡ true
unfolding format_int
free-format_int stop n only = free-digits stop (n + 1) n "" only refl

starts_with_digit :
    (fuel n : ℕ) (out : String)
    → n < fuel
    → (c : Char) × (s : String) × (digits fuel n out ≡ cons c s) × (is_digit c ≡ true)
unfolding digits
starts_with_digit zero n out h = elim h [ ]
starts_with_digit (suc fuel) n out h = elim (Bool-cases (ltb n 10)) [
  | inl e ↦ (digit n, out, ground arith, ground (arith, digit_code n))
  | inr e ↦
      let (c, s, p, d) =
        starts_with_digit fuel (n / 10) (cons (digit (n % 10)) out) (ground arith) in
      (c, s, ground (arith, p), d)
]

-- A number that an int64 holds is read back from its print.
pub parse_int-format_int : (n : ℕ) → n ≤ max_int → parse_int (format_int n) ≡ some (pos n)
unfolding parse_int format_int
parse_int-format_int n h =
    let (c, s, p, d) = starts_with_digit (n + 1) n "" (omega arith) in
    let read : read_digits (cons c s) 0 ≡ some n =
      ap (λ t. read_digits t 0) (sym p) ∙ read_digits-digits (n + 1) n "" (omega arith) in
    rw (p, read) (ground arith)

pub format_int-filled :
    (n : ℕ) → (c : Char) × (s : String) × (format_int n ≡ cons c s) × (is_digit c ≡ true)
unfolding format_int
format_int-filled n = starts_with_digit (n + 1) n "" (omega arith)
