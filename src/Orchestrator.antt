-- ===== src/Orchestrator.antt =====
-- internal/scintx/orchestrator.go with events.go, cache.go and cache_key.go beside it: what becomes
-- of a submission from its admission to a decision, and of the decision when a consumer resolves it.
pub mod Events
pub mod Results
pub mod Process
pub mod Settled
pub mod Forward
pub mod Resolve
pub mod Resolved
