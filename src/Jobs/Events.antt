-- ===== src/Jobs/Events.antt =====
-- Durable job events: `JobErrorCode`, `JobEventType` and the payloads of packages/domain/jobs.py, the
-- rows `Job` and `JobProgressEvent` of packages/persistence/models.py, `validate_event_payload`
-- and `append_event` of packages/persistence/job_events.py. A UUID is the number that its 128 bits
-- spell, so `bytes` and `str` order it as a number; a JSON value stands as its canonical text; a
-- time is a number of microseconds in UTC. The values of a payload meet the bounds of their
-- fields, which are checked where the payload is built.
use Prim.Native.String.{count, ◌++◌ as join}
use autonomus_academic_assis.Base.{
  ℕ, ◌+◌, Bool, ◌&&◌, ◌||◌, Option, some, List, [], ◌∷◌, ◌++◌, ltb, ◌==◌, if◌then◌else◌, any,
  String, str_eq, Result, ok, raise, value_error, integrity_error, raise_if, ◌>>=◌, ◌>>◌,
}
use autonomus_academic_assis.Base.Int.{ℤ}
use autonomus_academic_assis.Jobs.Status.{JobStatus, JobLane}

pub data JobErrorCode : Type 0 where
  retryable_failure permanent_failure unknown_job_type handler_exception : JobErrorCode
  lease_expired worker_shutdown cancelled invalid_document document_not_found : JobErrorCode
  source_not_found source_mismatch invalid_pdf encrypted_pdf pdf_limit_exceeded : JobErrorCode
  extraction_output_limit extraction_timeout extraction_resource_limit : JobErrorCode
  storage_unavailable database_unavailable artifact_conflict invalid_extraction : JobErrorCode
  extraction_not_ready insufficient_extraction invalid_provider_output : JobErrorCode
  provider_unavailable provider_not_configured draft_timeout draft_limit_exceeded : JobErrorCode
  graph_revision_mismatch graph_checksum_mismatch graph_dag_invalid : JobErrorCode
  graph_publication_conflict : JobErrorCode

pub data JobEventType : Type 0 where
  created started stage_started progress_updated partial_result_available : JobEventType
  retry_scheduled recovered failed completed cancelled : JobEventType

pub record JobStagePayload : Type 0 where
  pub stage : String
  pub progress_percent : ℕ
  pub message : Option String

pub data JobEventPayload : Type 0 where
  job_created : (job_type : String) → JobEventPayload
  job_started : JobEventPayload
  job_stage : JobStagePayload → JobEventPayload
  job_partial_result : (result_kind : String) → JobEventPayload
  job_retry : (error_code : JobErrorCode) (retry_at : ℕ) → JobEventPayload
  job_recovered : (previous_attempt next_attempt : ℕ) → JobEventPayload
  job_failed : (error_code : JobErrorCode) → JobEventPayload
  job_completed : (result_available : Bool) → JobEventPayload
  job_cancelled : JobEventPayload

pub record Job : Type 0 where
  pub id : ℕ
  pub job_type : String
  pub payload : String
  pub status : JobStatus
  pub priority : ℤ
  pub lane : JobLane
  pub attempts : ℕ
  pub max_attempts : ℕ
  pub run_after : ℕ
  pub locked_by : Option String
  pub lease_expires_at : Option ℕ
  pub heartbeat_at : Option ℕ
  pub idempotency_key : String
  pub parent_job_id : Option ℕ
  pub result_ref : Option String
  pub error_code : Option JobErrorCode
  pub latest_event_sequence : ℕ
  pub progress_stage : Option String
  pub progress_percent : Option ℕ
  pub progress_message : Option String
  pub created_at : ℕ
  pub updated_at : ℕ

pub record JobProgressEvent : Type 0 where
  pub event_id : ℕ
  pub job_id : ℕ
  pub sequence : ℕ
  pub event_type : JobEventType
  pub payload : JobEventPayload
  pub attempt : ℕ
  pub idempotency_key : String
  pub created_at : ℕ

-- What the repository takes from Python and its host: `uuid5`, `str` of an integer and of a UUID, the
-- clock of the host.
pub record Host : Type 0 where
  pub uuid5 : ℕ → String → ℕ
  pub str : ℕ → String
  pub uuid_str : ℕ → String
  pub now : ℕ

-- Validation against the payload type of the event type. The fields of a cancelled payload are those
-- of a failed one with the code CANCELLED, so either is read as the other.
unfoldable pub validate_event_payload : JobEventType → JobEventPayload → Result JobEventPayload
validate_event_payload created (job_created t) = ok (job_created t)
validate_event_payload started job_started = ok job_started
validate_event_payload stage_started (job_stage p) = ok (job_stage p)
validate_event_payload progress_updated (job_stage p) = ok (job_stage p)
validate_event_payload partial_result_available (job_partial_result k) = ok (job_partial_result k)
validate_event_payload retry_scheduled (job_retry c t) = ok (job_retry c t)
validate_event_payload recovered (job_recovered p n) = ok (job_recovered p n)
validate_event_payload failed (job_failed c) = ok (job_failed c)
validate_event_payload failed job_cancelled = ok (job_failed JobErrorCode.cancelled)
validate_event_payload completed (job_completed r) = ok (job_completed r)
validate_event_payload JobEventType.cancelled job_cancelled = ok job_cancelled
validate_event_payload JobEventType.cancelled (job_failed JobErrorCode.cancelled) = ok job_cancelled
validate_event_payload _ _ = raise (value_error "Invalid job event payload")

-- The progress fields follow the stage and progress events only.
unfoldable pub show_progress : JobEventType → JobEventPayload → Job → Job
show_progress stage_started (job_stage p) job = record job {
  progress_stage = some p.stage;
  progress_percent = some p.progress_percent;
  progress_message = p.message;
}
show_progress progress_updated (job_stage p) job = record job {
  progress_stage = some p.stage;
  progress_percent = some p.progress_percent;
  progress_message = p.message;
}
show_progress _ _ job = job

-- The primary key and the two unique constraints of the table.
unfoldable pub conflicts : JobProgressEvent → JobProgressEvent → Bool
conflicts e f =
    (e.event_id == f.event_id)
    || ((e.job_id == f.job_id) && (e.sequence == f.sequence))
    || ((e.job_id == f.job_id) && str_eq e.idempotency_key f.idempotency_key)

-- A flush inserts the row, and fails where it conflicts.
unfoldable pub insert_event :
    JobProgressEvent → List JobProgressEvent → Result (List JobProgressEvent)
unfolding conflicts
insert_event row events =
    if any (conflicts row) events
    then raise (integrity_error "job_progress_events")
    else ok (events ++ row ∷ [])

unfoldable pub append_event :
    Host
    → Job
    → List JobProgressEvent
    → JobEventType
    → JobEventPayload
    → (attempt : ℕ) → String
    → Result (Job × List JobProgressEvent)
unfolding validate_event_payload show_progress insert_event
append_event host job events event_type payload attempt key = do
  raise_if (str_eq key "" || ltb 255 (count key)) "Invalid job event idempotency key"
  body ← validate_event_payload event_type payload
  let sequence = job.latest_event_sequence + 1
  let job' = show_progress event_type body (record job { latest_event_sequence = sequence })
  events' ←
      insert_event
        (record {
          event_id = host.uuid5 job.id (join "job-event:" key);
          job_id = job.id;
          sequence = sequence;
          event_type = event_type;
          payload = body;
          attempt = attempt;
          idempotency_key = key;
          created_at = host.now;
        })
        events
  ok (job', events')
