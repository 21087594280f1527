-- ===== src/Scheduler.antt =====
-- The scheduler: sidecar/autoskill/db/scheduler.py.
pub mod Misfire
pub mod NextRun
pub mod Tick
pub mod Rounds
pub mod Advance
pub mod Results
pub mod Termination
pub mod Upsert
mod Tests
