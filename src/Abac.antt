-- ===== src/Abac.antt =====
-- crates/gems-abac: decisions over policies.
pub mod Decision
pub mod Verdict
pub mod Enforcement
mod Runs
