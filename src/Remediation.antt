-- ===== src/Remediation.antt =====
-- Remediation: packages/domain/remediation.py and the frames of packages/domain/runtime.py.
pub mod Frame
pub mod Ladder
pub mod Guard
