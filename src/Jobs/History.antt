-- ===== src/Jobs/History.antt =====
-- Sequences of repository transactions, in any order and from any number of workers: each commits, or
-- is rolled back by an exception.
pub mod Steps
pub mod Fence
use autonomus_academic_assis.Base.{ℕ, Bool, Option, List, [], ◌∷◌, String, Result, ok, raise, ◌>>=◌}
use autonomus_academic_assis.Base.Floats.{Floats}
use autonomus_academic_assis.Jobs.Status.{JobStatus, JobLane}
use autonomus_academic_assis.Jobs.Events.{JobErrorCode, JobEventType, JobEventPayload, Host}
use autonomus_academic_assis.Jobs.Repository.{Tables, Clock, ClaimedJob, claim, heartbeat}
use autonomus_academic_assis.Jobs.Outcome.{finish, fail, cancel, report_progress}
use autonomus_academic_assis.Jobs.Reaper.{reap}

-- One call of a method of the repository.
pub data Call : Type 0 where
  claims : Clock → (ℕ → Bool) → String → List JobLane → (lease : ℕ) → Call
  heartbeats : Clock → ClaimedJob → (lease : ℕ) → Call
  finishes : Clock → ClaimedJob → JobStatus → Option JobErrorCode → Option String → Call
  fails : Clock → ClaimedJob → JobErrorCode → (retryable : Bool) → Call
  cancels : Clock → (job_id : ℕ) → Call
  reports : Clock → ClaimedJob → JobEventType → JobEventPayload → String → Call
  reaps : Clock → (ℕ → Bool) → (limit : ℕ) → Call

-- The tables that a transaction leaves; a rollback leaves them as they were.
abbrev pub committed {ℓ} : {A : Type ℓ} → Tables → Result (A × Tables) → Tables
committed t (ok r) = r.1
committed t (raise e) = t

module _ (host : Host) (F : Floats) (retry_base retry_max : F.Float) where
  unfoldable pub perform : Call → Tables → Tables
  perform (claims clock taken worker_id lanes lease) t =
      committed t (claim host clock taken worker_id lanes lease t)
  perform (heartbeats clock job lease) t = committed t (heartbeat clock job lease t)
  perform (finishes clock job status code result) t =
      committed t (finish host F retry_base retry_max clock job status code result t)
  perform (fails clock job code retryable) t =
      committed t (fail host F retry_base retry_max clock job code retryable t)
  perform (cancels clock job_id) t = committed t (cancel host clock job_id t)
  perform (reports clock job type payload key) t =
      committed t (report_progress host clock job type payload key t)
  perform (reaps clock taken limit) t =
      committed t (reap host F retry_base retry_max clock taken limit t)

  unfoldable pub performs : List Call → Tables → Tables
  performs [] t = t
  performs (call ∷ calls) t = performs calls (perform call t)
