-- ===== src/Tests.antt =====
-- The theorems at concrete data.
pub mod Samples
pub mod Deciding
pub mod Queueing
pub mod Pooling
pub mod Storing
pub mod Matched
pub mod Merged
pub mod Lifecycle
pub mod Purls
pub mod Serving
pub mod Running
pub mod Registering
pub mod Documents
pub mod Signing
