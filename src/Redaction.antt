-- ===== src/Redaction.antt =====
-- The redaction of payloads: sidecar/autoskill/core/redaction.py.
pub mod Redact
pub mod Secrets
mod Tests
