-- ===== src/Triggers.antt =====
-- Material triggers: packages/domain/triggers.py and packages/domain/runtime_policy.py.
pub mod Facts
pub mod Evaluate
pub mod Guards
pub mod Admission
pub mod Rejection
