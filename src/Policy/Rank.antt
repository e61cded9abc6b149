-- ===== src/Policy/Rank.antt =====
-- extensions/policies/yaml/evaluate.go: `decisionOr` and `escalate`.
use scintx.Base.{ℕ, max, String, ◌≡◌, refl, List, [], ◌∷◌, ◌++◌, arith, ltb, if◌then◌else◌, ◌==◌}
use scintx.Api.{PolicyDecisionValue, decision_value}

-- The map `rank`; a key that it lacks reads 0.
unfoldable pub rank : PolicyDecisionValue → ℕ
rank PolicyDecisionValue.allow = 0
rank PolicyDecisionValue.defer = 1
rank PolicyDecisionValue.review = 2
rank PolicyDecisionValue.deny = 3
rank (PolicyDecisionValue.other s) = 0

unfoldable pub escalate : PolicyDecisionValue → PolicyDecisionValue → PolicyDecisionValue
escalate current next = if ltb (rank current) (rank next) then next else current

-- PolicyDecisionValue(raw), or the fallback for the empty string.
unfoldable pub decision_or : String → PolicyDecisionValue → PolicyDecisionValue
decision_or raw fallback = if raw == "" then fallback else decision_value raw

-- One of the four constants.
abbrev pub IsConstant : PolicyDecisionValue → Type 0
IsConstant (PolicyDecisionValue.other s) = ⊥
IsConstant _ = Unit

pub rank-escalate : (a b : PolicyDecisionValue) → rank (escalate a b) ≡ max (rank a) (rank b)
unfolding escalate
rank-escalate a b = ground arith

pub escalate-IsConstant : (a b : PolicyDecisionValue) → IsConstant a → IsConstant (escalate a b)
unfolding escalate rank
escalate-IsConstant PolicyDecisionValue.allow b h = ground arith
escalate-IsConstant _ b h = ground arith

-- Among the constants the rank tells the decisions apart.
pub rank_injective :
    (a b : PolicyDecisionValue) → IsConstant a → IsConstant b → rank a ≡ rank b → a ≡ b
unfolding rank
rank_injective a b ca cb e = ground arith

-- The highest rank of a list of decisions.
unfoldable pub top_rank : List PolicyDecisionValue → ℕ
top_rank [] = 0
top_rank (d ∷ ds) = max (rank d) (top_rank ds)

-- Escalation by each decision in turn.
unfoldable pub escalate_all : PolicyDecisionValue → List PolicyDecisionValue → PolicyDecisionValue
escalate_all d [] = d
escalate_all d (e ∷ es) = escalate_all (escalate d e) es

pub rank-escalate_all :
    (d : PolicyDecisionValue) (es : List PolicyDecisionValue)
    → rank (escalate_all d es) ≡ max (rank d) (top_rank es)
unfolding escalate_all top_rank
rank-escalate_all d [] = omega arith
rank-escalate_all d (e ∷ es) = omega (arith, rank-escalate_all (escalate d e) es, rank-escalate d e)

pub escalate_all-IsConstant :
    (d : PolicyDecisionValue) (es : List PolicyDecisionValue)
    → IsConstant d
    → IsConstant (escalate_all d es)
unfolding escalate_all
escalate_all-IsConstant d [] h = h
escalate_all-IsConstant d (e ∷ es) h =
    escalate_all-IsConstant (escalate d e) es (escalate-IsConstant d e h)

pub escalate_all-append :
    (d : PolicyDecisionValue) (xs ys : List PolicyDecisionValue)
    → escalate_all d (xs ++ ys) ≡ escalate_all (escalate_all d xs) ys
unfolding escalate_all
escalate_all-append d [] ys = refl
escalate_all-append d (x ∷ xs) ys = escalate_all-append (escalate d x) xs ys

pub top_rank-append :
    (xs ys : List PolicyDecisionValue) → top_rank (xs ++ ys) ≡ max (top_rank xs) (top_rank ys)
unfolding top_rank
top_rank-append [] ys = omega arith
top_rank-append (x ∷ xs) ys = omega (arith, top_rank-append xs ys)
