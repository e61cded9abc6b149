-- ===== src/Policy/Order.antt =====
-- The decision depends neither on the order of the results nor does another result lower it.
use mathlib.Core.List.{Perm, Permᴰ}
use mathlib.Core.Logic.{∥∥₁_elim}
use native.Mathlib.Nat.{ℕ_set}
use scintx.Base.{
  ◌≤◌, max, String, List, [], ◌∷◌, ◌++◌, flat_map, ◌⊎◌, Option, ◌≡◌, ◌≢◌, refl, ap, ◌∙◌, arith,
}
use scintx.Api.{
  Time, Duration, Submission, Score, ProviderResult, ExecutionStatus, Verdict, PolicyDecisionValue,
}
use scintx.Policy.Rank.{rank, decision_or, rank_injective, top_rank, top_rank-append}
use scintx.Policy.Document.{Spec, Document}
use scintx.Policy.Evaluate.{evaluate_doc}
use scintx.Policy.Asks.{asks, asks_of}
use scintx.Policy.Outcome.{Joins, evaluate_doc-asks}

pub Joins-unique :
    {d e : PolicyDecisionValue} (ds es : List PolicyDecisionValue)
    → Joins d ds
    → Joins e es
    → top_rank ds ≡ top_rank es
    → d ≡ e
unfolding Joins
Joins-unique {d} {e} ds es j k h = rank_injective d e j.0 k.0 (omega arith)

module _ {A : Type 0} (f : A → List PolicyDecisionValue) where
  top_rank-permᴰ :
      (xs ys : List A) → Permᴰ xs ys → top_rank (flat_map f xs) ≡ top_rank (flat_map f ys)
  top_rank-permᴰ _ _ Permᴰ.nil = refl
  top_rank-permᴰ _ _ (Permᴰ.cons {a} {b} {l₁} {l₂} e p) = omega (
    arith,
    ap (λ (x : A). top_rank (f x)) e,
    top_rank-permᴰ l₁ l₂ p,
    top_rank-append (f a) (flat_map f l₁),
    top_rank-append (f b) (flat_map f l₂),
  )
  top_rank-permᴰ _ _ (Permᴰ.swap {a} {b} {a'} {b'} {l} e g) =
      rw (e, g, top_rank-append, top_rank-append)
        (omega (
          arith,
          top_rank-append (f b') (flat_map f l),
          top_rank-append (f a') (f b' ++ flat_map f l),
          top_rank-append (f a') (flat_map f l),
        ))
  top_rank-permᴰ _ _ (Permᴰ.trans {l₁} {l₂} {l₃} p q) =
      top_rank-permᴰ l₁ l₂ p ∙ top_rank-permᴰ l₂ l₃ q

  top_rank-perm :
      {xs ys : List A} → Perm xs ys → top_rank (flat_map f xs) ≡ top_rank (flat_map f ys)
  top_rank-perm {xs} {ys} p = ∥∥₁_elim p (ℕ_set _ _) (top_rank-permᴰ xs ys)

  top_rank-flat_map_append :
      (xs ys : List A)
      → top_rank (flat_map f (xs ++ ys)) ≡ max (top_rank (flat_map f xs)) (top_rank (flat_map f ys))
  unfolding top_rank
  top_rank-flat_map_append [] ys = omega arith
  top_rank-flat_map_append (x ∷ xs) ys = omega (
    arith,
    top_rank-flat_map_append xs ys,
    top_rank-append (f x) (flat_map f (xs ++ ys)),
    top_rank-append (f x) (flat_map f xs),
  )

module _ {S : Type 0} ⦃F : Score S⦄ (spec : Spec S) (r : ProviderResult S) where
  asks-of_failed :
      (s : ExecutionStatus) (v : Option Verdict)
      → spec.on_timeout ≡ ""
      → spec.on_error ≡ ""
      → s ≢ ExecutionStatus.completed
      → asks_of s v spec r ≡ PolicyDecisionValue.review ∷ []
  unfolding asks_of decision_or
  asks-of_failed ExecutionStatus.completed v t e h = absurd (h refl)
  asks-of_failed ExecutionStatus.timeout v t e h = rw t
  asks-of_failed _ v t e h = rw e

  asks-failed :
      spec.on_timeout ≡ ""
      → spec.on_error ≡ ""
      → r.execution.status ≢ ExecutionStatus.completed
      → top_rank (asks spec r) ≡ 2
  unfolding asks top_rank rank
  asks-failed t e h = rw (asks-of_failed r.execution.status r.verdict t e h)

review-or_deny :
    {d : PolicyDecisionValue}
    → 2 ≤ rank d
    → (d ≡ PolicyDecisionValue.review) ⊎ (d ≡ PolicyDecisionValue.deny)
unfolding rank
review-or_deny {d} h = ground arith

module _ {S : Type 0} (parse_duration : String → Option Duration) (random_hex : String)
    (now later : Time) ⦃F : Score S⦄ (doc : Document S) (sub : Submission) where
  abbrev decide : List (ProviderResult S) → PolicyDecisionValue
  decide rs = (evaluate_doc parse_duration random_hex now later doc sub rs).decision

  decide-Joins : (rs : List (ProviderResult S)) → Joins (decide rs) (flat_map (asks doc.spec) rs)
  decide-Joins rs = (evaluate_doc-asks parse_duration random_hex now later doc sub rs).0

  -- The providers may answer in any order: the decision is the same.
  pub evaluate_doc-perm :
      (rs ts : List (ProviderResult S))
      → Perm rs ts
      → (evaluate_doc parse_duration random_hex now later doc sub rs).decision
        ≡ (evaluate_doc parse_duration random_hex now later doc sub ts).decision
  evaluate_doc-perm rs ts p =
      Joins-unique _ _ (decide-Joins rs) (decide-Joins ts) (top_rank-perm (asks doc.spec) p)

  -- Further results never lower the decision.
  pub evaluate_doc_mono :
      (rs ts : List (ProviderResult S))
      → rank (evaluate_doc parse_duration random_hex now later doc sub rs).decision
        ≤ rank (evaluate_doc parse_duration random_hex now later doc sub (rs ++ ts)).decision
  unfolding Joins
  evaluate_doc_mono rs ts = omega (
    arith,
    (decide-Joins rs).1,
    (decide-Joins (rs ++ ts)).1,
    top_rank-flat_map_append (asks doc.spec) rs ts,
  )

  -- Under a policy that names no decision for timeouts and none for errors, a result that did not
  -- complete makes the decision review or deny, whatever the other providers say.
  pub evaluate_doc-fail_closed :
      (before after : List (ProviderResult S)) (r : ProviderResult S)
      → doc.spec.on_timeout ≡ ""
      → doc.spec.on_error ≡ ""
      → r.execution.status ≢ ExecutionStatus.completed
      → let d =
          (evaluate_doc parse_duration random_hex now later doc sub
            (before ++ r ∷ after)).decision in
        (d ≡ PolicyDecisionValue.review) ⊎ (d ≡ PolicyDecisionValue.deny)
  unfolding Joins
  evaluate_doc-fail_closed before after r t e h = review-or_deny (
      omega (
        arith,
        (decide-Joins (before ++ r ∷ after)).1,
        asks-failed doc.spec r t e h,
        top_rank-flat_map_append (asks doc.spec) before (r ∷ after),
        top_rank-append (asks doc.spec r) (flat_map (asks doc.spec) after),
      ))
