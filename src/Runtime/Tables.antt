-- ===== src/Runtime/Tables.antt =====
-- The rows that packages/persistence/runtime.py reads and writes (packages/persistence/runtime_models.py
-- and runtime_support_models.py), with the check constraints of those that it writes. A UUID is a
-- number, and so is a time; `bytes` are a string. A row of a session or of a frame holds the fields
-- of its snapshot. The constraints of a transition's row repeat the validator of its value.
use autonomus_academic_assis.Base.{
  ℕ, Bool, not, ◌&&◌, ◌||◌, Option, List, String, ◌==◌, leb, is_some,
}
use autonomus_academic_assis.Base.Floats.{Floats}
use autonomus_academic_assis.Session.{
  SessionTransition, LearningSessionSnapshot, complete, same_state, is_outside,
}
use autonomus_academic_assis.Remediation.Frame.{
  RemediationFrameSnapshot, FrameAttempt, returned, same_state as same_frame_state, differ, is_id,
}
use autonomus_academic_assis.Runtime.Values.{DiagnosticReservation, RunState}
use autonomus_academic_assis.Triggers.Facts.{SourceKind}

-- A row of `runtime_operation_receipts`.
pub record RuntimeOperation : Type 0 where
  pub kind : String
  pub scope_id : ℕ
  pub source_id : ℕ
  pub learner_id : ℕ
  pub request_bytes : String
  pub result_bytes : String

-- Of a row of `learning_events`, its scope.
pub record LearningEventRow : Type 0 where
  pub learner_identity_id : Option ℕ
  pub course_id : Option ℕ

-- Of a row of `curriculum_graph_versions`, its course and whether its status is `PUBLISHED`.
pub record GraphVersionRow : Type 0 where
  pub course_id : ℕ
  pub is_published : Bool

-- Of a row of `mastery_attempts`, its scope.
pub record MasteryAttemptRow : Type 0 where
  pub learner_identity_id : ℕ
  pub course_id : ℕ

-- Of a row of `learning_execution_receipts`, what sessions and frames ask of it.
pub record ExecutionReceiptRow : Type 0 where
  pub session_id : ℕ
  pub is_completed : Bool
  pub plan_version_id : ℕ

pub record DiagnosticRunRow : Type 0 where
  pub id : ℕ
  pub session_id : ℕ
  pub learner_identity_id : ℕ
  pub course_id : ℕ
  pub graph_version_id : ℕ
  pub diagnostic_policy_version : String
  pub item_budget : ℕ
  pub source_kind : SourceKind
  pub source_id : ℕ
  pub source_event_id : ℕ
  pub state : RunState
  pub version : ℕ
  pub created_at : ℕ
  pub completed_at : Option ℕ
  pub completion_event_id : Option ℕ

pub record DiagnosticReservationRow : Type 0 where
  pub session_id : ℕ
  pub reservation : DiagnosticReservation

module _ (F : Floats) where
  pub record RemediationFrameRow : Type 0 where
    pub snapshot : RemediationFrameSnapshot F
    pub created_at : ℕ
    pub updated_at : ℕ

  pub record Tables : Type 0 where
    -- The rows of other modules, by their keys.
    pub learners : ℕ → Bool
    pub events : ℕ → Option LearningEventRow
    pub graphs : ℕ → Option GraphVersionRow
    -- the nodes of type `TOPIC`, by graph and stable identifier
    pub topics : ℕ → ℕ → Bool
    pub attempts : ℕ → Option MasteryAttemptRow
    -- the associations `AFFECTS_CONCEPT`, by event, attempt and concept
    pub affects : ℕ → ℕ → ℕ → Bool
    -- the session of a plan version
    pub plan_versions : ℕ → Option ℕ
    pub receipts : ℕ → Option ExecutionReceiptRow
    -- The rows of the runtime.
    pub sessions : ℕ → Option LearningSessionSnapshot
    pub transitions : List SessionTransition
    pub frames : ℕ → Option RemediationFrameRow
    pub frame_attempts : List (FrameAttempt F)
    pub runs : ℕ → Option DiagnosticRunRow
    pub reservations : List DiagnosticReservationRow
    pub operations : List RuntimeOperation

-- The check constraints of `learning_sessions`.
unfoldable pub session_checks : LearningSessionSnapshot → Bool
session_checks row =
    leb 1 row.version
    && leb row.created_at row.updated_at
    && not (differ (same_state row.state complete) (is_some row.completed_at))
    && not (is_outside row.completed_at row.created_at row.updated_at)
    && (not (is_some row.current_topic_id) || is_some row.graph_version_id)

module _ {F : Floats} where
  open F use {zero, one, le}

  -- The check constraints of `remediation_frames`.
  unfoldable pub frame_checks : RemediationFrameSnapshot F → Bool
  frame_checks row =
      leb 1 row.version
      && leb 1 row.depth
      && leb 1 row.max_attempts
      && leb row.attempt_count row.max_attempts
      && le zero row.baseline_mastery
      && le row.baseline_mastery one
      && le zero row.latest_mastery
      && le row.latest_mastery one
      && le zero row.min_progress_delta
      && le row.min_progress_delta one
      && not (differ (row.depth == 1) (not (is_some row.parent_frame_id)))
      && not (is_id row.parent_frame_id row.frame_id)
      && not (differ (same_frame_state row.state returned) (is_some row.returned_at))
      && not (differ (is_some row.returned_at) (is_some row.returned_by_execution_id))

  -- The check constraints of `remediation_frame_attempts`.
  unfoldable pub frame_attempt_checks : FrameAttempt F → Bool
  frame_attempt_checks row = le zero row.observed_mastery && le row.observed_mastery one
