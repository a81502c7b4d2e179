-- ===== src/Runtime/Requests.antt =====
-- The requests that packages/persistence/runtime.py and packages/persistence/remediation.py serialize
-- with `canonical_request`, and what the model takes as a parameter: the serialization of values
-- by pydantic, and the database's other constraints.
use autonomus_academic_assis.Base.{
  ℕ, Bool, not, Option, String, Result, ok, integrity_error, fail_if, ◌>>◌,
}
use autonomus_academic_assis.Base.Floats.{Floats}
use autonomus_academic_assis.Session.{SessionTransition, LearningSessionSnapshot, lifecycle}
use autonomus_academic_assis.Remediation.Frame.{
  RemediationFrameSnapshot, FrameAttempt, frame_bounds,
}
use autonomus_academic_assis.Runtime.Values.{
  DiagnosticRunSnapshot, DiagnosticReservation, run_validators, reservation_bounds,
}
use autonomus_academic_assis.Runtime.Tables.{Tables}
use autonomus_academic_assis.Runtime.Journal.{Codec, Validated}

module _ (F : Floats) where
  -- The fields of each request, in the source's order; a constructor stands for their keys.
  pub data Request : Type 0 where
    transitions :
        SessionTransition → (change_position : Bool) → (graph_id topic_id : Option ℕ) → Request
    creates_frame : RemediationFrameSnapshot F → (session_version created_at : ℕ) → Request
    updates_frame : RemediationFrameSnapshot F → (expected session_version updated_at : ℕ) → Request
    attempts_frame : FrameAttempt F → (expected : ℕ) → Request
    pushes_frame : RemediationFrameSnapshot F → (expected_session_version created_at : ℕ) → Request
    returns_frame :
        RemediationFrameSnapshot F → (expected_session_version : ℕ) → SessionTransition → Request
    reserves :
        (run_id reservation_id execution_id question concept expected reserved_at : ℕ) → Request
    marks_attempted :
        (reservation_id source_attempt_id event_id expected attempted_at : ℕ) → Request
    acknowledges : DiagnosticReservation → (expected : ℕ) → Request
    completes_run : (expected event completed_at : ℕ) → (cancelled : Bool) → Request

  pub record Host : Type 0 where
    -- `canonical_request`
    pub canonical_request : Request → String
    pub sessions : Codec LearningSessionSnapshot
    pub frames : Codec (RemediationFrameSnapshot F)
    pub frame_attempts : Codec (FrameAttempt F)
    pub runs : Codec DiagnosticRunSnapshot
    pub reservations : Codec DiagnosticReservation
    -- the unique and foreign keys but the primary keys
    pub accepts : Tables F → Bool

-- A frame's attempt has no validator of its own.
abbrev pub unvalidated : {F : Floats} → FrameAttempt F → Result (Unit {0})
unvalidated value = ok tt

-- Every codec reads only what the validators accept.
pub record Validates {F : Floats} (host : Host F) : Type 0 where
  pub sessions : Validated host.sessions lifecycle
  pub frames : Validated host.frames frame_bounds
  pub frame_attempts : Validated host.frame_attempts unvalidated
  pub runs : Validated host.runs run_validators
  pub reservations : Validated host.reservations reservation_bounds

module _ {F : Floats} (host : Host F) where
  -- `flush`, with the check constraints of the rows that it writes.
  unfoldable pub flush : (checks : Bool) → Tables F → Result (Tables F)
  flush checks t = do
    fail_if (not checks) (integrity_error "check constraint")
    fail_if (not (host.accepts t)) (integrity_error "key constraint")
    ok t
