-- ===== src/Lifecycle.antt =====
-- The lifecycle of skills: sidecar/autoskill/db/lifecycle.py.
pub mod Skills
pub mod Frozen
pub mod Canaries
mod Tests
