-- ===== src/Matching/Eligible.antt =====
-- When a capability is eligible, and what is said when it is not.
use scintx.Base.{
  List-cases, String, Bool, true, false, Option, none, some, List, [], ◌∷◌, ◌++◌, flat_map, map,
  keep, not, All, ap, ◌∙◌, subst, any, all, ◌==◌, eq_iff, ◌≡◌, ◌≢◌, ◌⊎◌, inl, inr, refl, arith,
  Bool-cases,
}
use scintx.Api.{
  Artifact, Requirement, InputProfile, Capability, CompatibilityReason, CompatibilityReasonCode,
  kind_string, CompatibilityResult,
}
use scintx.Matching.{
  requirement_satisfied, profile_satisfied, some_profile, unmet, or_default, no_profile,
  capability_eligible, matching_capability,
}

or_default-kept : (rs : List CompatibilityReason) → rs ≢ [] → or_default rs ≡ rs
or_default-kept [] n = absurd (n refl)
or_default-kept (r ∷ rs) n = refl

or_default-any : (rs : List CompatibilityReason) → or_default rs ≢ []
or_default-any [] e = cc
or_default-any (r ∷ rs) e = cc

not_empty : {A : Type 0} (x : A) (xs ys : List A) → (x ∷ xs) ++ ys ≢ []
not_empty x xs ys e = cc

module _ (canonical_purl : String → Option String) (purl_type : String → String)
    (artifact : Artifact) where
  abbrev pub meets : Requirement → Bool
  meets req = (requirement_satisfied canonical_purl purl_type artifact req).0

  profile_satisfied-all :
      (reqs : List Requirement)
      → (profile_satisfied canonical_purl purl_type artifact reqs).0 ≡ all meets reqs
  unfolding profile_satisfied
  profile_satisfied-all [] = refl
  profile_satisfied-all (r ∷ rs) = ground (arith, profile_satisfied-all rs)

  some_profile-any :
      (ps : List InputProfile)
      → some_profile canonical_purl purl_type artifact ps ≡ any (λ p. all meets p.requires) ps
  unfolding some_profile
  some_profile-any [] = refl
  some_profile-any (p ∷ ps) = ground (arith, some_profile-any ps, profile_satisfied-all p.requires)

  unmet-met :
      (reqs : List Requirement)
      → unmet canonical_purl purl_type artifact reqs ≡ []
      → all meets reqs ≡ true
  unfolding unmet
  unmet-met [] h = refl
  unmet-met (r ∷ rs) h = ground (arith, unmet-met rs)

  flat_map-unmet :
      (ps : List InputProfile)
      → ps ≢ []
      → some_profile canonical_purl purl_type artifact ps ≡ false
      → flat_map (λ p. unmet canonical_purl purl_type artifact p.requires) ps ≢ []
  unfolding some_profile
  flat_map-unmet [] n h e = n refl
  flat_map-unmet (p ∷ ps) n h e =
      elim (List-cases (unmet canonical_purl purl_type artifact p.requires)) [
        | inl m ↦ ground (arith, unmet-met p.requires m, profile_satisfied-all p.requires)
        | inr (r, rs, m) ↦
            not_empty r rs (flat_map (λ q. unmet canonical_purl purl_type artifact q.requires) ps)
              (rw m at e)
      ]

  -- A capability is eligible exactly when the artifact meets every requirement of one of its input
  -- profiles.
  capability_eligible-any :
      (c : Capability)
      → (capability_eligible canonical_purl purl_type artifact c).eligible
        ≡ any (λ p. all meets p.requires) c.input_profiles
  unfolding capability_eligible
  capability_eligible-any c = some_profile-any c.input_profiles

  abbrev pub reason_for : Requirement → CompatibilityReason
  reason_for req = record {
    code = CompatibilityReasonCode.missing_required_input;
    input = kind_string req.kind;
    detail = (requirement_satisfied canonical_purl purl_type artifact req).1;
  }

  -- One reason for each requirement of a profile that the artifact does not meet.
  abbrev pub failures : Capability → List CompatibilityReason
  failures c =
      map reason_for (keep (λ req. not (meets req)) (flat_map (λ p. p.requires) c.input_profiles))

  unmet-keep :
      (reqs : List Requirement)
      → unmet canonical_purl purl_type artifact reqs
        ≡ map reason_for (keep (λ req. not (meets req)) reqs)
  unfolding unmet
  unmet-keep [] = refl
  unmet-keep (r ∷ rs) = elim (Bool-cases (meets r)) [
    | inl t ↦ rw (t, unmet-keep rs) refl
    | inr t ↦ rw (t, unmet-keep rs) refl
  ]

  failures-append :
      (xs ys : List Requirement)
      → map reason_for (keep (λ req. not (meets req)) (xs ++ ys))
        ≡ map reason_for (keep (λ req. not (meets req)) xs)
          ++ map reason_for (keep (λ req. not (meets req)) ys)
  failures-append [] ys = refl
  failures-append (x ∷ xs) ys = elim (Bool-cases (meets x)) [
    | inl t ↦ rw (t, failures-append xs ys) refl
    | inr t ↦ rw (t, failures-append xs ys) refl
  ]

  flat_map-failures :
      (ps : List InputProfile)
      → flat_map (λ p. unmet canonical_purl purl_type artifact p.requires) ps
        ≡ map reason_for (keep (λ req. not (meets req)) (flat_map (λ p. p.requires) ps))
  flat_map-failures [] = refl
  flat_map-failures (p ∷ ps) =
      rw
        (
          failures-append p.requires (flat_map (λ q. q.requires) ps),
          unmet-keep p.requires,
          flat_map-failures ps,
        )
        refl

  -- A capability that has a profile and is not eligible is refused with one reason for each
  -- requirement of its profiles that the artifact does not meet, in their order, and there is one at
  -- least; the default reason is not used.
  pub capability_eligible-unmet :
      (c : Capability)
      → c.input_profiles ≢ []
      → (capability_eligible canonical_purl purl_type artifact c).eligible ≡ false
      → ((capability_eligible canonical_purl purl_type artifact c).reasons ≡ failures c)
        × (failures c ≢ [])
  unfolding capability_eligible
  capability_eligible-unmet c n e =
      let same = flat_map-failures c.input_profiles in
      let some_reason = flat_map-unmet c.input_profiles n e in
      let kept = or_default-kept _ some_reason in
      (rw e (kept ∙ same), subst (λ rs. rs ≢ []) same some_reason)

  -- The first capability under a name.
  abbrev pub FirstNamed : String → Capability → List Capability → Type 0
  FirstNamed requested c cs =
      (before : List Capability) × (after : List Capability) × (cs ≡ before ++ c ∷ after)
      × (c.id ≡ requested)
      × All (λ d. d.id ≢ requested) before

  abbrev pub Matched :
      List Capability → String → Option Capability × Option CompatibilityResult → Type 0
  Matched cs requested (found, why) =
      ((c : Capability) × (FirstNamed requested c cs)
        × (((any (λ p. all meets p.requires) c.input_profiles ≡ true)
              × (found ≡ some c)
              × (why ≡ none))
            ⊎ ((any (λ p. all meets p.requires) c.input_profiles ≡ false)
                × (found ≡ none)
                × ((r : CompatibilityResult) × (why ≡ some r)
                    × (r.eligible ≡ false)
                    × (r.reasons ≡ or_default (failures c))))))
      ⊎ (All (λ d. d.id ≢ requested) cs
          × (found ≡ none)
          × ((r : CompatibilityResult) × (why ≡ some r)
              × (r.eligible ≡ false)
              × (r.capability ≡ requested)
              × (r.reasons ≡ no_profile "capability not advertised" ∷ [])))

  later_Matched :
      (c : Capability) (cs : List Capability) (requested : String)
      (r : Option Capability × Option CompatibilityResult)
      → c.id ≢ requested
      → Matched cs requested r
      → Matched (c ∷ cs) requested r
  later_Matched c cs requested (found, why) n (inl (d, (before, after, e, i, a), rest)) =
      inl (d, (c ∷ before, after, ap (λ l. c ∷ l) e, i, (n, a)), rest)
  later_Matched c cs requested (found, why) n (inr (a, f, rest)) = inr ((n, a), f, rest)

  -- Matching decides by the first of the advertised capabilities that has the name that is asked
  -- for: if the artifact meets every requirement of one of its input profiles it is the answer, and
  -- otherwise the answer explains what the artifact does not meet. Without such a capability the
  -- answer says that it is not advertised.
  pub matching_capability-Matched :
      (cs : List Capability) (requested : String)
      → Matched cs requested (matching_capability canonical_purl purl_type artifact cs requested)
  unfolding matching_capability
  matching_capability-Matched [] requested = inr (tt, refl, (_, refl, refl, refl, refl))
  matching_capability-Matched (c ∷ cs) requested = elim (Bool-cases (c.id == requested)) [
    | inr n ↦ rw n (
        later_Matched c cs requested
          (matching_capability canonical_purl purl_type artifact cs requested)
          (λ e. ground (arith, eq_iff c.id requested)) (matching_capability-Matched cs requested))
    | inl y ↦
        let named = (eq_iff c.id requested).0 y in
        elim (Bool-cases (capability_eligible canonical_purl purl_type artifact c).eligible) [
          | inl g ↦
              rw (y, g)
                (inl (
                  c,
                  ([], cs, refl, named, tt),
                  inl (rw (← capability_eligible-any c) g, refl, refl),
                ))
          | inr b ↦
              rw (y, b)
                (inl (
                  c,
                  ([], cs, refl, named, tt),
                  inr (
                    rw (← capability_eligible-any c) b,
                    refl,
                    (_, refl, refl, ap or_default (flat_map-failures c.input_profiles)),
                  ),
                ))
        ]
  ]
