-- ===== src/Policy.antt =====
-- The YAML policy engine: extensions/policies/yaml.
pub mod Rank
pub mod Document
pub mod Rules
pub mod Evaluate
pub mod Asks
pub mod Outcome
pub mod Order
pub mod Validity
pub mod Severity
pub mod Merged
pub mod MergedOutcome
pub mod Example
pub mod Thresholds
pub mod ExampleOutcome
