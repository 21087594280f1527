-- ===== src/Scanner.antt =====
-- The text scanner: sidecar/autoskill/services/scanner.py.
pub mod Scan
pub mod Findings
mod Tests
