-- ===== src/Planner.antt =====
-- The planner policy: packages/planner/policy.py over the contracts of packages/domain.
pub mod Vocabulary
pub mod State
pub mod Decision
pub mod Policy
pub mod Contract
