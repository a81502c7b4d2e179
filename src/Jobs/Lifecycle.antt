-- ===== src/Jobs/Lifecycle.antt =====
-- What one transaction of the job repository does to one row of the table: packages/persistence/jobs.py
-- against the transition table of packages/domain/jobs.py.
pub mod Change
pub mod Rows
