-- ===== src/Merging/Maximum.antt =====
-- The consensus severity under the strategy "max", and under any other that is not a mean.
use scintx.Base.{
  String, Bool, true, false, Option, none, some, List, [], ◌∷◌, All, ◌==◌, eq_iff, ◌≡◌, ◌≢◌, ◌⊎◌,
  inl, inr, refl, sym, subst, arith, Bool-cases, List-cases,
}
use scintx.Api.{Score, SeverityObservation}
use scintx.Merging.Severity.{
  ScoredObservation, Scored, with_score, scored_entries, max_score, first_reaching,
  merge_scheme_observations,
}

later : {b : Bool} {R : Type 0} → b ≡ false → (b ≡ true) ⊎ R → R
later h (inl t) = cc
later h (inr t) = t

module _ {S : Type 0} where
  -- An observation of the list.
  abbrev pub Among : SeverityObservation S → List (ScoredObservation S) → Type 0
  Among o [] = ⊥
  Among o (e ∷ es) = (o ≡ e.obs) ⊎ Among o es

  -- The scores of the list are those of their entries.
  abbrev Genuine : List (Scored S) → Type 0
  Genuine [] = Unit
  Genuine (e ∷ es) = (e.entry.obs.score ≡ some e.score) × Genuine es

  with_score-Genuine :
      (e : ScoredObservation S) (o : Option S) (rest : List (Scored S))
      → e.obs.score ≡ o
      → Genuine rest
      → Genuine (with_score e o rest)
  with_score-Genuine e none rest p g = g
  with_score-Genuine e (some v) rest p g = (p, g)

  scored_entries-Genuine : (es : List (ScoredObservation S)) → Genuine (scored_entries es)
  unfolding scored_entries
  scored_entries-Genuine [] = tt
  scored_entries-Genuine (e ∷ es) =
      with_score-Genuine e e.obs.score (scored_entries es) refl (scored_entries-Genuine es)

module _ {S : Type 0} ⦃F : Score S⦄ where
  -- A score, if there is one, is at most the other.
  abbrev pub AtMost : Option S → Option S → Type 0
  AtMost none top = Unit
  AtMost (some v) none = ⊥
  AtMost (some v) (some top) = F.le v top ≡ true

  abbrev Reached : S → List (Scored S) → Type 0
  Reached final [] = ⊥
  Reached final (e ∷ es) = (F.le final e.score ≡ true) ⊎ Reached final es

  abbrev Upper : S → List (Scored S) → Type 0
  Upper m = All (λ e. F.le e.score m ≡ true)

  max_score-step :
      (final : S) (e : Scored S) (es : List (Scored S))
      → ((F.le e.score final ≡ true) × (max_score final (e ∷ es) ≡ max_score final es))
        ⊎ ((F.le e.score final ≡ false) × (max_score final (e ∷ es) ≡ max_score e.score es))
  unfolding max_score
  max_score-step final e es = elim (Bool-cases (F.le e.score final)) [
    | inl h ↦ inl (h, rw h)
    | inr h ↦ inr (h, rw h)
  ]

  -- The loop ends at a score that is as high as where it starts and as every entry.
  max_score-Upper :
      (final : S) (es : List (Scored S))
      → (F.le final (max_score final es) ≡ true) × Upper (max_score final es) es
  max_score-Upper final [] = unfold max_score in (F.le_refl final, tt)
  max_score-Upper final (e ∷ es) = elim (max_score-step final e es) [
    | inl (h, q) ↦
        let (above, rest) = max_score-Upper final es in
        subst (λ m. (F.le final m ≡ true) × Upper m (e ∷ es)) (sym q)
          (above, (F.le_trans e.score final (max_score final es) h above, rest))
    | inr (h, q) ↦
        let (above, rest) = max_score-Upper e.score es in
        subst (λ m. (F.le final m ≡ true) × Upper m (e ∷ es)) (sym q)
          (
            ground
                (arith, F.le_total final e.score, F.le_trans final e.score (max_score e.score es)),
            (above, rest),
          )
  ]

  max_score-Reached :
      (final : S) (es : List (Scored S))
      → (max_score final es ≡ final) ⊎ Reached (max_score final es) es
  max_score-Reached final [] = unfold max_score in inl refl
  max_score-Reached final (e ∷ es) = elim (max_score-step final e es) [
    | inl (h, q) ↦
        subst (λ m. (m ≡ final) ⊎ Reached m (e ∷ es)) (sym q)
          (elim (max_score-Reached final es) [ inl p ↦ inl p | inr p ↦ inr (inr p) ])
    | inr (h, q) ↦
        subst (λ m. (m ≡ final) ⊎ Reached m (e ∷ es)) (sym q)
          (elim (max_score-Reached e.score es) [
            | inl p ↦ inr (inl (rw p (F.le_refl e.score)))
            | inr p ↦ inr (inr p)
          ])
  ]

  first_reaching-step :
      (final : S) (e : Scored S) (es : List (Scored S))
      → ((F.le final e.score ≡ true) × (first_reaching final (e ∷ es) ≡ e.entry.obs))
        ⊎ ((F.le final e.score ≡ false) × (first_reaching final (e ∷ es) ≡ first_reaching final es))
  unfolding first_reaching
  first_reaching-step final e es = elim (Bool-cases (F.le final e.score)) [
    | inl h ↦ inl (h, rw h)
    | inr h ↦ inr (h, rw h)
  ]

  first_reaching-score :
      (final : S) (es : List (Scored S))
      → Reached final es
      → Genuine es
      → (v : S) × ((first_reaching final es).score ≡ some v) × (F.le final v ≡ true)
  first_reaching-score final [] r g = absurd r
  first_reaching-score final (e ∷ es) r g = elim (first_reaching-step final e es) [
    | inl (h, q) ↦ (e.score, rw q g.0, h)
    | inr (h, q) ↦ rw q (first_reaching-score final es (later h r) g.1)
  ]

  with_score-Among :
      (final : S) (e : ScoredObservation S) (es : List (ScoredObservation S)) (o : Option S)
      (rest : List (Scored S))
      → (Reached final rest → Among (first_reaching final rest) es)
      → Reached final (with_score e o rest)
      → Among (first_reaching final (with_score e o rest)) (e ∷ es)
  with_score-Among final e es none rest ih r = inr (ih r)
  with_score-Among final e es (some v) rest ih r =
      elim (first_reaching-step final (record { entry = e; score = v }) rest) [
        | inl (h, q) ↦ inl q
        | inr (h, q) ↦ inr (subst (λ o. Among o es) (sym q) (ih (later h r)))
      ]

  first_reaching-Among :
      (final : S) (es : List (ScoredObservation S))
      → Reached final (scored_entries es)
      → Among (first_reaching final (scored_entries es)) es
  unfolding scored_entries
  first_reaching-Among final [] r = r
  first_reaching-Among final (e ∷ es) r =
      with_score-Among final e es e.obs.score (scored_entries es) (first_reaching-Among final es) r

  with_score-AtMost :
      (m top : S) (e : ScoredObservation S) (o : Option S) (rest : List (Scored S))
      → F.le m top ≡ true
      → Upper m (with_score e o rest)
      → AtMost o (some top) × Upper m rest
  with_score-AtMost m top e none rest h u = (tt, u)
  with_score-AtMost m top e (some v) rest h u = (F.le_trans v m top u.0 h, u.1)

  AtMost-entries :
      (m top : S) (es : List (ScoredObservation S))
      → F.le m top ≡ true
      → Upper m (scored_entries es)
      → All (λ e. AtMost e.obs.score (some top)) es
  unfolding scored_entries
  AtMost-entries m top [] h u = tt
  AtMost-entries m top (e ∷ es) h u =
      let (here, rest) = with_score-AtMost m top e e.obs.score (scored_entries es) h u in
      (here, AtMost-entries m top es h rest)

  with_score-none :
      (top : Option S) (e : ScoredObservation S) (o : Option S) (rest : List (Scored S))
      → with_score e o rest ≡ []
      → AtMost o top × (rest ≡ [])
  with_score-none top e none rest h = (tt, h)
  with_score-none top e (some v) rest h = cc

  AtMost-none :
      (top : Option S) (es : List (ScoredObservation S))
      → scored_entries es ≡ []
      → All (λ e. AtMost e.obs.score top) es
  unfolding scored_entries
  AtMost-none top [] h = tt
  AtMost-none top (e ∷ es) h =
      let (here, rest) = with_score-none top e e.obs.score (scored_entries es) h in
      (here, AtMost-none top es rest)

  Tops : List (ScoredObservation S) → SeverityObservation S → Type 0
  Tops es o = Among o es × All (λ x. AtMost x.obs.score o.score) es

  first_reaching-Tops :
      (es : List (ScoredObservation S)) (x : Scored S) (xs : List (Scored S))
      → scored_entries es ≡ x ∷ xs
      → Tops es (first_reaching (max_score x.score xs) (x ∷ xs))
  unfolding Tops
  first_reaching-Tops es x xs p =
      let m = max_score x.score xs in
      let upper = max_score-Upper x.score xs in
      let got : Reached m (x ∷ xs) = elim (max_score-Reached x.score xs) [
        | inl q ↦ inl (rw q (F.le_refl x.score))
        | inr q ↦ inr q
      ] in
      let (v, s, h) =
        first_reaching-score m (x ∷ xs) got (subst Genuine p (scored_entries-Genuine es)) in
      (
        subst (λ l. Among (first_reaching m l) es) p
            (first_reaching-Among m es (subst (Reached m) (sym p) got)),
        subst (λ o. All (λ x. AtMost x.obs.score o) es) (sym s)
            (AtMost-entries m v es h (subst (Upper m) (sym p) upper)),
      )

  -- Under "max" the consensus is one of the observations of the scheme, as a source gave it, and
  -- no source gives a higher score; it has no score only if none has.
  pub merge_scheme_observations-max :
      (strategy : String) (e : ScoredObservation S) (es : List (ScoredObservation S))
      → strategy ≢ "mean"
      → strategy ≢ "trust_weighted"
      → Among (merge_scheme_observations strategy e es) (e ∷ es)
        × All (λ x. AtMost x.obs.score (merge_scheme_observations strategy e es).score) (e ∷ es)
  merge_scheme_observations-max strategy e es a b = elim (List-cases (scored_entries (e ∷ es))) [
    | inl n ↦
        let q : merge_scheme_observations strategy e es ≡ e.obs =
          unfold merge_scheme_observations in rw n in
        unfold Tops in subst (Tops (e ∷ es)) (sym q) (inl refl, AtMost-none e.obs.score (e ∷ es) n)
    | inr (x, xs, p) ↦
        let a' : (strategy == "mean") ≡ false = ground (arith, eq_iff strategy "mean") in
        let b' : (strategy == "trust_weighted") ≡ false =
          ground (arith, eq_iff strategy "trust_weighted") in
        let q : merge_scheme_observations strategy e es
            ≡ first_reaching (max_score x.score xs) (x ∷ xs) =
          unfold merge_scheme_observations in rw (p, a', b') in
        unfold Tops in subst (Tops (e ∷ es)) (sym q) (first_reaching-Tops (e ∷ es) x xs p)
  ]
