-- ===== src/Jobs/Outcome.antt =====
-- `finish`, `fail`, `cancel` and `report_progress` of packages/persistence/jobs.py.
use Prim.Native.String.{◌++◌ as join}
use autonomus_academic_assis.Base.{
  ℕ, ◌+◌, Bool, true, false, not, ◌&&◌, Option, none, some, List, [], ◌∷◌, leb, ◌==◌, if◌then◌else◌,
  is_some, or_else, any, String, str_eq, Result, ok, raise_if, ◌>>=◌, ◌>>◌,
}
use autonomus_academic_assis.Base.Floats.{Floats}
use autonomus_academic_assis.Jobs.Retry.{retry_delay}
use autonomus_academic_assis.Jobs.Status.{
  JobStatus, pending, running, partial, succeeded, failed, cancelled, retrying, same_status,
  contains_status, validate_transition, failure_status,
}
use autonomus_academic_assis.Jobs.Events.{
  JobErrorCode, retryable_failure, permanent_failure, JobEventType, stage_started, progress_updated,
  partial_result_available, retry_scheduled, completed, JobEventPayload, job_partial_result,
  job_retry, job_failed, job_completed, job_cancelled, Job, JobProgressEvent, Host, append_event,
}
use autonomus_academic_assis.Jobs.Repository.{
  Tables, Clock, ClaimedJob, RowChange, transact, ownership,
}

-- The values that the update of `finish` assigns.
abbrev pub settled : (now delay : ℕ) → JobStatus → Option JobErrorCode → Option String → Job → Job
settled now delay status code result row = record row {
  status = status;
  error_code = code;
  result_ref = if contains_status status (succeeded ∷ partial ∷ []) then result else none;
  run_after = now + (if same_status status retrying then delay else 0);
  locked_by = none;
  lease_expires_at = none;
  heartbeat_at = none;
  updated_at = now;
}

-- The fields that a cancellation assigns.
abbrev pub withdrawn : (now : ℕ) → Job → Job
withdrawn now row = record row {
  status = cancelled;
  error_code = some JobErrorCode.cancelled;
  locked_by = none;
  lease_expires_at = none;
  heartbeat_at = none;
  updated_at = now;
}

abbrev pub cancel_sources : List JobStatus
cancel_sources = pending ∷ retrying ∷ running ∷ partial ∷ []

unfoldable pub validate_sources : List JobStatus → Result (Unit {0})
validate_sources [] = ok tt
validate_sources (source ∷ sources) = do
  validate_transition source cancelled
  validate_sources sources

abbrev pub is_progress : JobEventType → Bool
is_progress stage_started = true
is_progress progress_updated = true
is_progress partial_result_available = true
is_progress _ = false

-- A retry beyond the attempts allowed becomes a failure.
unfoldable pub final_status : JobStatus → ClaimedJob → JobStatus
final_status status job =
    if same_status status retrying && leb job.max_attempts job.attempts then failed else status

-- An event of the job with this idempotency key exists.
abbrev pub reported : ClaimedJob → String → Tables → Bool
reported job key t = any (λ e. (e.job_id == job.id) && str_eq e.idempotency_key key) t.events

module _ (host : Host) where
  open host use {str, uuid_str}

  unfoldable pub attempt_key : ℕ → String → String
  attempt_key attempts suffix = join "attempt:" (join (str attempts) suffix)

  -- The event that the chosen status writes. A status that no branch names writes none.
  unfoldable pub outcome_event :
      JobStatus
      → Option JobErrorCode
      → Option String
      → (retry_at : ℕ) → ClaimedJob
      → Job
      → List JobProgressEvent
      → Result RowChange
  unfolding attempt_key
  outcome_event retrying code result retry_at job row events =
      append_event host row events retry_scheduled
        (job_retry (or_else code retryable_failure) retry_at) job.attempts
        (attempt_key job.attempts ":retry")
  outcome_event failed code result retry_at job row events =
      append_event host row events JobEventType.failed (job_failed (or_else code permanent_failure))
        job.attempts (attempt_key job.attempts ":failed")
  outcome_event cancelled code result retry_at job row events =
      append_event host row events JobEventType.cancelled job_cancelled job.attempts
        (attempt_key job.attempts ":cancelled")
  outcome_event partial code result retry_at job row events =
      append_event host row events partial_result_available (job_partial_result "job_result")
        job.attempts (attempt_key job.attempts ":partial")
  outcome_event succeeded code result retry_at job row events =
      append_event host row events completed (job_completed (is_some result)) job.attempts
        (attempt_key job.attempts ":completed")
  outcome_event _ code result retry_at job row events = ok (row, events)

  -- The row operation of `finish`. Appending the event writes the row again, which sets `updated_at`
  -- from the host's clock; a retry also takes its deadline from a later reading.
  unfoldable pub finish_row :
      Clock
      → (delay : ℕ) → JobStatus
      → Option JobErrorCode
      → Option String
      → ClaimedJob
      → Job
      → List JobProgressEvent
      → Result RowChange
  finish_row clock delay status code result job row events = do
    (row', events') ←
        outcome_event status code result (clock 0 + delay) job
          (settled (clock 0) delay status code result row) events
    ok (
      record row' {
        run_after = if same_status status retrying then clock 2 + delay else row'.run_after;
        updated_at = host.now;
      },
      events',
    )

  module _ (F : Floats) (retry_base retry_max : F.Float) where
    unfoldable pub finish :
        Clock
        → ClaimedJob
        → JobStatus
        → Option JobErrorCode
        → Option String
        → Tables
        → Result (Bool × Tables)
    finish clock job status code result t = do
      validate_transition running status
      delay ← retry_delay F job.attempts retry_base retry_max
      (c, t') ←
          transact (ownership (clock 1) job)
            (finish_row clock (F.seconds delay) (final_status status job) code result job) t
      ok (is_some c, t')

    unfoldable pub fail :
        Clock → ClaimedJob → JobErrorCode → (retryable : Bool) → Tables → Result (Bool × Tables)
    fail clock job code retryable t =
        finish clock job (failure_status job.attempts job.max_attempts retryable) (some code) none t

  unfoldable pub cancel_row : (now : ℕ) → Job → List JobProgressEvent → Result RowChange
  cancel_row now row events =
      append_event host (withdrawn now row) events JobEventType.cancelled job_cancelled row.attempts
        (join "cancel:" (uuid_str row.id))

  unfoldable pub cancel : Clock → (job_id : ℕ) → Tables → Result (Bool × Tables)
  cancel clock job_id t = do
    validate_sources cancel_sources
    (c, t') ←
        transact (λ row. (row.id == job_id) && contains_status row.status cancel_sources)
          (cancel_row (clock 0)) t
    ok (is_some c, t')

  -- Appending an event writes the row, which sets `updated_at`.
  unfoldable pub progress_row :
      ClaimedJob
      → JobEventType
      → JobEventPayload
      → String
      → Job
      → List JobProgressEvent
      → Result RowChange
  progress_row job event_type payload key row events = do
    (row', events') ← append_event host row events event_type payload job.attempts key
    ok (record row' { updated_at = host.now }, events')

  unfoldable pub report_progress :
      Clock → ClaimedJob → JobEventType → JobEventPayload → String → Tables → Result (Bool × Tables)
  report_progress clock job event_type payload key t = do
    raise_if (not (is_progress event_type)) "Worker progress accepts progress event types only"
    if reported job key t then ok (true, t) else do
      (c, t') ← transact (ownership (clock 0) job) (progress_row job event_type payload key) t
      ok (is_some c, t')
