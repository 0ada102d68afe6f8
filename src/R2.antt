-- ===== src/R2.antt =====
-- scovant_core/r2: the readiness rating.
pub mod Outcome
pub mod Policy
pub mod Manifest
pub mod Score
pub mod Technical
pub mod Evaluate
pub mod Readiness
mod Tests
