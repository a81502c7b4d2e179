-- ===== src/Jobs.antt =====
-- The durable job queue: packages/domain/jobs.py, packages/persistence/jobs.py and
-- packages/persistence/job_events.py.
pub mod Status
pub mod Retry
pub mod Events
pub mod Repository
pub mod Outcome
pub mod Reaper
pub mod Lifecycle
pub mod History
