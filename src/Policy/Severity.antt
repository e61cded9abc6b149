-- ===== src/Policy/Severity.antt =====
-- When a rule with a minimum score matches: the loop of `topSeverity` against a direct reading.
use scintx.Base.{
  String, ◌≡◌, refl, Bool, true, false, ◌||◌, ◌&&◌, Option, none, some, List, [], ◌∷◌, ◌==◌,
  if◌then◌else◌, equal_fold, any, arith, Bool-cases, Option-cases, inl, inr,
}
use scintx.Api.{Score, Finding, SeverityObservation}
use scintx.Policy.Document.{FindingWhen}
use scintx.Policy.Rules.{top_severity_from, top_severity, reaches, assessment_is, when_matches}

module _ {S : Type 0} ⦃F : Score S⦄ where
  abbrev pub scored : S → Option S → Bool
  scored m none = false
  scored m (some v) = F.le m v

  -- An observation of the scheme asked for, with at least the score m.
  abbrev pub qualifies : String → S → SeverityObservation S → Bool
  qualifies scheme m s = (scheme == "" || equal_fold s.scheme scheme) && scored m s.score

  -- What the loop keeps: `best` has the score `top`, which is 0 while there is none.
  abbrev Tops : S → Option (SeverityObservation S) → Type 0
  Tops top none = top ≡ F.zero_score
  Tops top (some s) = s.score ≡ some top

  reaches-take :
      (m top v : S) (best : Option (SeverityObservation S)) (s : SeverityObservation S)
      → Tops top best
      → s.score ≡ some v
      → F.le top v ≡ true
      → reaches (some m) (v, some s) ≡ (reaches (some m) (top, best) || F.le m v)
  unfolding reaches
  reaches-take m top v none s t e h = ground arith
  reaches-take m top v (some b) s t e h = ground (arith, F.le_trans m top v)

  reaches-skip :
      (m top v : S) (best : Option (SeverityObservation S))
      → Tops top best
      → F.le F.zero_score m ≡ true
      → F.le top v ≡ false
      → reaches (some m) (top, best) ≡ (reaches (some m) (top, best) || F.le m v)
  unfolding reaches
  reaches-skip m top v none t z h = ground (arith, F.le_trans F.zero_score m v)
  reaches-skip m top v (some b) t z h = ground (arith, F.le_trans m v top, F.le_total top v)

  -- The observation in front, if it is taken into account, and the rest of the list.
  top_severity_from-step :
      (scheme : String) (m top v : S) (best : Option (SeverityObservation S))
      (s : SeverityObservation S) (rest : List (SeverityObservation S))
      → Tops top best
      → F.le F.zero_score m ≡ true
      → s.score ≡ some v
      → ((top' : S) (best' : Option (SeverityObservation S))
          → Tops top' best'
          → reaches (some m) (top_severity_from scheme top' best' rest)
            ≡ (reaches (some m) (top', best') || any (qualifies scheme m) rest))
      → reaches (some m) (
          if F.le top v
          then top_severity_from scheme v (some s) rest
          else top_severity_from scheme top best rest)
        ≡ (reaches (some m) (top, best) || (F.le m v || any (qualifies scheme m) rest))
  top_severity_from-step scheme m top v best s rest t z e ih = elim (Bool-cases (F.le top v)) [
    | inl h ↦ rw h (ground (arith, ih v (some s) e, reaches-take m top v best s t e h))
    | inr h ↦ rw h (ground (arith, ih top best t, reaches-skip m top v best t z h))
  ]

  reaches-top_severity_from :
      (scheme : String) (m top : S) (best : Option (SeverityObservation S))
      (l : List (SeverityObservation S))
      → Tops top best
      → F.le F.zero_score m ≡ true
      → reaches (some m) (top_severity_from scheme top best l)
        ≡ (reaches (some m) (top, best) || any (qualifies scheme m) l)
  unfolding top_severity_from
  reaches-top_severity_from scheme m top best [] t z = ground arith
  reaches-top_severity_from scheme m top best (s ∷ rest) t z = elim (Option-cases s.score) [
    | inl e ↦ ground (arith, reaches-top_severity_from scheme m top best rest t z)
    | inr (v, e) ↦ ground (
      arith,
      reaches-top_severity_from scheme m top best rest t z,
      top_severity_from-step scheme m top v best s rest t z e
          (λ top' best' t'. reaches-top_severity_from scheme m top' best' rest t' z),
    )
  ]

  -- A rule with a minimum score of at least 0 matches a finding exactly when type and assessment
  -- fit and some observation, of the rule's scheme if it names one, scores at least the minimum.
  pub when_matches-min_score :
      (w : FindingWhen S) (f : Finding S) (m : S)
      → w.min_score ≡ some m
      → F.le F.zero_score m ≡ true
      → when_matches w f ≡ (
          (w.finding_type == "" || f.type == w.finding_type)
          && ((w.assessment == "" || assessment_is w.assessment f.assessment)
              && any (qualifies w.severity_scheme m) f.severity))
  unfolding when_matches top_severity reaches
  when_matches-min_score w f m e z = rw e (
      ground
        (arith, reaches-top_severity_from w.severity_scheme m F.zero_score none f.severity refl z))
