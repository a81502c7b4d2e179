-- ===== src/Diagnostics.antt =====
-- The diagnostic selection of packages/curriculum/diagnostics.py.
pub mod Select
pub mod Items
pub mod Eligible
pub mod Contract
