-- ===== src/Jobs.antt =====
-- The durable job queue: sidecar/autoskill/db/jobs.py.
pub mod Types
pub mod Enqueue
pub mod Claim
pub mod Complete
pub mod Select
pub mod Rows
pub mod Updates
pub mod Invariant
pub mod Steps
pub mod Leases
pub mod Exclusive
pub mod Claiming
pub mod Retry
pub mod Completion
pub mod Idempotence
mod Tests
