-- ===== src/Merging.antt =====
-- internal/scintx/aggregator.go: the findings of several providers as one list, each merged from
-- all that are about the same thing.
pub mod Groups
pub mod Identifiers
pub mod Reconcile
pub mod Severity
pub mod Aggregate
pub mod Partition
pub mod Consensus
pub mod Maximum
pub mod Union
