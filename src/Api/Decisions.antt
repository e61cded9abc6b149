-- ===== src/Api/Decisions.antt =====
-- api/types.go: policy decisions and the reasons behind them.
use scintx.Base.{String, Option, List, ◌==◌, if◌then◌else◌}
use scintx.Api.Values.{Extensions, Time}

-- `other` stands for a string that is none of the constants.
pub data PolicyDecisionValue : Type 0 where
  allow review deny defer : PolicyDecisionValue
  other : String → PolicyDecisionValue

-- The conversion PolicyDecisionValue(s).
unfoldable pub decision_value : String → PolicyDecisionValue
decision_value s =
    if s == "allow"
    then PolicyDecisionValue.allow
    else if s == "review"
    then PolicyDecisionValue.review
    else if s == "deny"
    then PolicyDecisionValue.deny
    else if s == "defer"
    then PolicyDecisionValue.defer
    else PolicyDecisionValue.other s

pub record SeverityRef (S : Type 0) : Type 0 where
  pub scheme : String
  pub version : String
  pub score : Option S

pub record DecisionReason (S : Type 0) : Type 0 where
  pub code : String
  pub result_id : String
  pub finding_id : String
  pub severity_ref : Option (SeverityRef S)
  pub message : String

pub record PolicyRef : Type 0 where
  pub id : String
  pub version : String
  pub digest : String

pub record PolicyDecision (S : Type 0) : Type 0 where
  pub id : String
  pub submission_id : String
  pub decision : PolicyDecisionValue
  pub policy : PolicyRef
  pub evaluated_at : Time
  pub input_result_ids : List String
  pub reasons : List (DecisionReason S)
  pub resume_at : Option Time
  pub resume_on : String
  pub extensions : Extensions

pub record AdjudicateRequest : Type 0 where
  pub decision : PolicyDecisionValue
  pub actor : String
  pub rationale : String
  pub source : String
  pub expires_at : Option Time
  pub extensions : Extensions
