-- ===== src/Audit.antt =====
-- The chain of audit records: sidecar/autoskill/core/audit.py.
pub mod Chain
pub mod Store
pub mod LockKey
mod Order
mod Workspaces
pub mod Appending
pub mod Tampering
mod Tests
mod StoreTests
