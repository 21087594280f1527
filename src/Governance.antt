-- ===== src/Governance.antt =====
-- sidecar/autoskill/db/governance.py: evolution transactions and revocation requests.
pub mod Tables
pub mod Transactions
pub mod Revocations
pub mod Steps
mod Inversion
pub mod Persistence
pub mod Claims
mod Tests
