-- ===== src/Orchestrator/Forward.antt =====
-- internal/scintx/adjudication_forward.go: which providers are told of a final resolution, and
-- what they are told. The calls run detached, and no error of theirs comes back.
use scintx.Base.{
  ℕ, String, not, ◌&&◌, Option, none, some, List, [], map, keep, is_empty, contains, ◌==◌,
  if◌then◌else◌, trim_space,
}
use scintx.Api.{Submission, PolicyDecisionValue}
use scintx.Purl.{split_on}
use scintx.Orchestrator.Results.{Provider}

-- api.AdjudicationFeedback
pub record AdjudicationFeedback : Type 0 where
  pub decision : PolicyDecisionValue
  pub purl : String

abbrev comma : ℕ
comma = 44

-- parseAllowlist; an empty list stands for nil
unfoldable pub parse_allowlist : String → List String
unfolding split_on trim_space
parse_allowlist raw =
    let trimmed = trim_space raw in
    if trimmed == ""
    then []
    else keep (λ id. not (id == "")) (map trim_space (split_on comma trimmed))

module _ {S : Type 0} where
  -- adjudicationForwardTargets
  unfoldable pub adjudication_forward_targets : List String → List (Provider S) → List (Provider S)
  adjudication_forward_targets adj_forward providers =
      keep (λ p. contains p.id adj_forward && (p.capabilities.accepts_adjudications && p.receives))
        providers

  abbrev feedback_to : PolicyDecisionValue → String → Provider S → String × AdjudicationFeedback
  feedback_to decision purl p = (p.id, record { decision = decision; purl = purl })

  abbrev feedback_on :
      Option String → PolicyDecisionValue → List (Provider S) → List (String × AdjudicationFeedback)
  feedback_on none decision targets = []
  feedback_on (some purl) decision targets =
      if trim_space purl == "" then [] else map (feedback_to decision (trim_space purl)) targets

  -- forwardAdjudicationBestEffort: the calls it makes, by the id of the provider
  unfoldable pub forward_adjudication :
      List String
      → List (Provider S)
      → Submission
      → PolicyDecisionValue
      → List (String × AdjudicationFeedback)
  unfolding trim_space adjudication_forward_targets
  forward_adjudication adj_forward providers sub decision =
      if is_empty adj_forward
      then []
      else feedback_on sub.artifact.purl decision
          (adjudication_forward_targets adj_forward providers)
