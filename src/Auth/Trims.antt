-- ===== src/Auth/Trims.antt =====
-- Trimming a text that internal/auth/sign.go has put together.
use Prim.Native.Char.{Char}
use Prim.Native.String.append.{nil as empty-append, cons as cons-append}
use scintx.Base.{ℕ, String, ◌^^◌, Bool, true, false, not, some, ◌≡◌, refl, subst, arith, trim_space}
use scintx.Base.Text.{is_space, trim_left, trim_right, cons_unless_blank}
use scintx.Auth.Text.{trim_marks, drop_marks, drop_last_marks}
use scintx.Auth.Parsing.{before_mark, last_mark}
use scintx.Purl.{cons, is_char, cut}
use scintx.Purl.Cuts.{free, is_blank, append_assoc, cut-append, mark-append}

-- The text ends in a character that is not a space.
pub record Ended (s : String) : Type 0 where
  pub kept : trim_right s ≡ s
  pub filled : is_blank s ≡ false

keep_filled :
    (b : Bool) (c : Char) (s : String) → is_blank s ≡ false → cons_unless_blank b c s ≡ cons c s
keep_filled true c String.[] f = cc
keep_filled true c (String.◌∷◌ d s) f = refl
keep_filled false c s f = refl

pub append-Ended : (a b : String) → Ended b → Ended (a ^^ b)
unfolding trim_right
append-Ended String.[] b e = rw empty-append e
append-Ended (String.◌∷◌ c a) b e =
    let rest = append-Ended a b e in
    rw cons-append (record {
      kept = rw rest.kept (keep_filled (is_space c) c (a ^^ b) rest.filled);
      filled = refl;
    })

-- A text without spaces at both ends is left as it is.
pub trim_space-Ended :
    (c : Char) (s : String)
    → is_space c ≡ false
    → Ended (cons c s)
    → trim_space (cons c s) ≡ cons c s
unfolding trim_space trim_left
trim_space-Ended c s n e = rw (e.kept, trim_left, n) refl

trim_right-free : (s : String) → free is_space s ≡ true → trim_right s ≡ s
unfolding trim_right
trim_right-free String.[] f = refl
trim_right-free (String.◌∷◌ c s) f =
    let n : is_space c ≡ false = ground arith in
    let rest : trim_right s ≡ s = trim_right-free s (ground arith) in rw (n, rest) refl

-- A text without spaces is left as it is.
pub trim_space-free : (s : String) → free is_space s ≡ true → trim_space s ≡ s
unfolding trim_space trim_left
trim_space-free String.[] f = refl
trim_space-free (String.◌∷◌ c s) f =
    let n : is_space c ≡ false = ground arith in
    rw (trim_right-free (cons c s) f, trim_left, n) refl

drop_last-mark :
    (n : ℕ) (c : Char) (s : String)
    → free (is_char n) s ≡ true
    → is_char n c ≡ true
    → drop_last_marks n (s ^^ cons c "") ≡ s
unfolding drop_last_marks
drop_last-mark n c String.[] f h = rw (empty-append, h) refl
drop_last-mark n c (String.◌∷◌ d s) f h =
    let m : is_char n d ≡ false = ground arith in
    let rest : drop_last_marks n (s ^^ cons c "") ≡ s = drop_last-mark n c s (ground arith) h in
    rw (cons-append, m, rest) refl

drop_marks-free : (n : ℕ) (s : String) → free (is_char n) s ≡ true → drop_marks n s ≡ s
unfolding drop_marks
drop_marks-free n String.[] f = refl
drop_marks-free n (String.◌∷◌ d s) f = ground arith

-- A value between marks is unwrapped.
pub trim_marks-between :
    (n : ℕ) (c : Char) (s : String)
    → free (is_char n) s ≡ true
    → is_char n c ≡ true
    → trim_marks n (cons c (s ^^ cons c "")) ≡ s
unfolding trim_marks drop_last_marks drop_marks
trim_marks-between n c String.[] f h = rw (empty-append, h) refl
trim_marks-between n c (String.◌∷◌ d s) f h =
    rw (drop_last-mark n c (cons d s) f h, h, drop_marks-free n (cons d s) f, h) refl

-- A value without marks is left as it is.
pub trim_marks-free : (n : ℕ) (s : String) → free (is_char n) s ≡ true → trim_marks n s ≡ s
unfolding trim_marks drop_last_marks
trim_marks-free n String.[] f = refl
trim_marks-free n (String.◌∷◌ d s) f = go (cons d s) f
  where
    keep : (s : String) → free (is_char n) s ≡ true → drop_last_marks n s ≡ s
    keep String.[] f = refl
    keep (String.◌∷◌ d s) f =
        let m : is_char n d ≡ false = ground arith in
        let rest : drop_last_marks n s ≡ s = keep s (ground arith) in rw (m, rest) refl

    go : (s : String) → free (is_char n) s ≡ true → drop_marks n (drop_last_marks n s) ≡ s
    go s f = rw (keep s f) (drop_marks-free n s f)

-- The text before the last mark.
pub before_mark-append :
    (n : ℕ) (c : Char) (s : String) → is_char n c ≡ true → before_mark n (s ^^ cons c "") ≡ some s
unfolding before_mark
before_mark-append n c String.[] h = rw (empty-append, h) refl
before_mark-append n c (String.◌∷◌ d s) h = rw (cons-append, before_mark-append n c s h) (go s)
  where
    go : (s : String) → last_mark n d (s ^^ cons c "") (some s) ≡ some (cons d s)
    go String.[] = rw empty-append refl
    go (String.◌∷◌ e s) = rw cons-append refl

-- The first character is there and is no space.
abbrev pub begins : String → Bool
begins String.[] = false
begins (String.◌∷◌ c s) = not (is_space c)

pub trim_space-append : (a b : String) → begins a ≡ true → Ended b → trim_space (a ^^ b) ≡ a ^^ b
trim_space-append String.[] b h e = cc
trim_space-append (String.◌∷◌ c a) b h e = rw cons-append (
    trim_space-Ended c (a ^^ b) (ground arith)
      (subst Ended (cons-append c a b) (append-Ended (cons c a) b e)))

pub append-filled : (a b : String) → is_blank a ≡ false → is_blank (a ^^ b) ≡ false
append-filled String.[] b h = cc
append-filled (String.◌∷◌ c a) b h = rw cons-append refl

pub cut-mark :
    (n : ℕ) (a : String) (c : Char) (b : String)
    → free (is_char n) a ≡ true
    → is_char n c ≡ true
    → cut n ((a ^^ cons c "") ^^ b) ≡ (a, some b)
cut-mark n a c b f h = rw (append_assoc a (cons c "") b, mark-append c b) (cut-append n a c b f h)
