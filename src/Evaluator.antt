-- ===== src/Evaluator.antt =====
-- The deterministic proposal gate: sidecar/autoskill/services/evaluator.py.
pub mod Runtime
pub mod Replay
pub mod Probes
pub mod Metrics
pub mod Gate
pub mod Verdicts
pub mod Acceptance
pub mod Assurance
pub mod Budgets
pub mod Totality
mod Tests
