-- ===== src/Merging/Severity.antt =====
-- `computeSeverity`: one severity for each scheme and version, from those of all sources.
use scintx.Base.{
  String, Bool, not, ◌&&◌, Option, none, some, List, [], ◌∷◌, map, length, Map, lookup, ◌==◌,
  if◌then◌else◌,
}
use scintx.Api.{Score, SeverityObservation}
use scintx.Merging.Identifiers.{SourcePair}
use scintx.Merging.Groups.{Groups, collect}

-- scoredObservation
pub record ScoredObservation (S : Type 0) : Type 0 where
  pub obs : SeverityObservation S
  pub weight : S

-- schemeKey
pub record SchemeKey : Type 0 where
  pub scheme : String
  pub version : String

abbrev pub same_scheme : SchemeKey → SchemeKey → Bool
same_scheme a b = a.scheme == b.scheme && a.version == b.version

-- An entry with a score.
pub record Scored (S : Type 0) : Type 0 where
  pub entry : ScoredObservation S
  pub score : S

module _ {S : Type 0} where
  abbrev pub with_score : ScoredObservation S → Option S → List (Scored S) → List (Scored S)
  with_score e none rest = rest
  with_score e (some v) rest = record { entry = e; score = v } ∷ rest

  -- scoredEntries
  unfoldable pub scored_entries : List (ScoredObservation S) → List (Scored S)
  scored_entries [] = []
  scored_entries (e ∷ entries) = with_score e e.obs.score (scored_entries entries)

module _ {S : Type 0} ⦃F : Score S⦄ where
  unfoldable pub sum_scores : S → List (Scored S) → S
  sum_scores sum [] = sum
  sum_scores sum (e ∷ es) = sum_scores (F.add sum e.score) es

  -- The variables wScore and weightSum.
  unfoldable pub weighted_sums : S → S → List (Scored S) → S × S
  weighted_sums w_score weight_sum [] = (w_score, weight_sum)
  weighted_sums w_score weight_sum (e ∷ es) =
      weighted_sums (F.add w_score (F.mul e.score e.entry.weight)) (F.add weight_sum e.entry.weight)
        es

  unfoldable pub weighted_mean : S × S → S
  weighted_mean (w_score, weight_sum) =
      if not (F.le weight_sum F.zero_score) then F.div w_score weight_sum else F.zero_score

  -- The loop for the highest score.
  unfoldable pub max_score : S → List (Scored S) → S
  max_score final [] = final
  max_score final (e ∷ es) = max_score (if not (F.le e.score final) then e.score else final) es

  -- The first observation that reaches a score; the zero value if none does.
  unfoldable pub first_reaching : S → List (Scored S) → SeverityObservation S
  first_reaching final [] = record {
    scheme = "";
    version = "";
    score = none;
    level = "";
    vector = "";
    source = "";
    derivation = none;
  }
  first_reaching final (e ∷ es) =
      if F.le final e.score then e.entry.obs else first_reaching final es

  abbrev aggregated : SeverityObservation S → S → String → SeverityObservation S
  aggregated base score strategy = record {
    scheme = base.scheme;
    version = base.version;
    score = some score;
    level = base.level;
    vector = "";
    source = "aggregated";
    derivation = some (record { method = strategy });
  }

  abbrev merge_scored : String → SeverityObservation S → List (Scored S) → SeverityObservation S
  merge_scored strategy first [] = first
  merge_scored strategy first (e ∷ es) =
      if strategy == "mean"
      then aggregated e.entry.obs
          (F.div (sum_scores F.zero_score (e ∷ es)) (F.of_ℕ (length (e ∷ es)))) strategy
      else if strategy == "trust_weighted"
      then aggregated e.entry.obs (weighted_mean (weighted_sums F.zero_score F.zero_score (e ∷ es)))
          strategy
      else first_reaching (max_score e.score es) (e ∷ es)

  -- mergeSchemeObservations, of a first entry and the others
  unfoldable pub merge_scheme_observations :
      String → ScoredObservation S → List (ScoredObservation S) → SeverityObservation S
  unfolding scored_entries sum_scores weighted_sums weighted_mean max_score first_reaching
  merge_scheme_observations strategy e es = merge_scored strategy e.obs (scored_entries (e ∷ es))

  abbrev or_one : Option S → S
  or_one none = F.one_score
  or_one (some w) = w

  unfoldable pub observe_severities :
      S
      → List (SeverityObservation S)
      → Groups SchemeKey (ScoredObservation S)
      → Groups SchemeKey (ScoredObservation S)
  unfolding collect
  observe_severities w [] g = g
  observe_severities w (sev ∷ sevs) g = observe_severities w sevs (
      collect same_scheme (record { scheme = sev.scheme; version = sev.version })
        (record { obs = sev; weight = w }) g)

  unfoldable pub observe_pairs :
      Map S
      → List (SourcePair S)
      → Groups SchemeKey (ScoredObservation S)
      → Groups SchemeKey (ScoredObservation S)
  unfolding observe_severities
  observe_pairs weights [] g = g
  observe_pairs weights (p ∷ pairs) g =
      observe_pairs weights pairs
        (observe_severities (or_one (lookup p.result.provider.id weights)) p.finding.severity g)

  abbrev merge_group :
      String → SchemeKey × ScoredObservation S × List (ScoredObservation S) → SeverityObservation S
  merge_group strategy (key, e, es) = record (merge_scheme_observations strategy e es) {
    scheme = key.scheme;
    version = key.version;
  }

  -- computeSeverity
  unfoldable pub compute_severity :
      String → Map S → List (SourcePair S) → List (SeverityObservation S)
  unfolding observe_pairs merge_scheme_observations
  compute_severity strategy weights pairs =
      map (merge_group strategy) (observe_pairs weights pairs [])
