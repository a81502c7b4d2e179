-- ===== src/Planner/Contract.antt =====
-- What every decision of `decide` guarantees: packages/planner/policy.py.
pub mod Meets
pub mod Sound
pub mod Early
pub mod Late
pub mod Progress
pub mod Decide
pub mod Ready
