-- ===== src/Server.antt =====
-- internal/server/server.go: what the HTTP handlers do to the store and the pool, and what they
-- answer. Server/Reads has those that only read.
pub mod Answers
pub mod Reads
pub mod Submissions
pub mod Resuming
pub mod Settling
pub mod Atomic
pub mod Retry
