-- ===== src/Runtime/Calls.antt =====
-- Calls of the runtime's operations, and histories of them: every transaction commits, or is rolled back
-- by an exception, and between two of them other modules write their own tables.
use autonomus_academic_assis.Base.{ℕ, Bool, true, Option, none, some, Result, ok, raise, ◌>>◌, ◌≡◌}
use autonomus_academic_assis.Base.Floats.{Floats}
use autonomus_academic_assis.Session.{
  SessionTransition, LearningSessionSnapshot, lifecycle, legal_transition,
}
use autonomus_academic_assis.Remediation.Frame.{
  RemediationFrameSnapshot, FrameAttempt, frame_bounds,
}
use autonomus_academic_assis.Runtime.Values.{
  DiagnosticRunSnapshot, DiagnosticReservation, reservation_bounds, run_validators,
}
use autonomus_academic_assis.Triggers.Facts.{SourceIdentity}
use autonomus_academic_assis.Runtime.Tables.{Tables, RuntimeOperation}
use autonomus_academic_assis.Runtime.Journal.{Identity, operation_of}
use autonomus_academic_assis.Runtime.Requests.{Host}
use autonomus_academic_assis.Runtime.Sessions.{
  creation_identity, create_learning_session, transition_identity, transition_learning_session,
}
use autonomus_academic_assis.Runtime.Frames.{
  frame_creation, create_remediation_frame, frame_update, update_remediation_frame, frame_attempt,
  record_frame_attempt,
}
use autonomus_academic_assis.Runtime.Stack.{
  push_identity, return_identity, push_remediation_frame, return_remediation_frame,
}
use autonomus_academic_assis.Runtime.Diagnostics.{
  run_creation, reservation_identity, create_diagnostic_run, reserve_diagnostic_question,
}
use autonomus_academic_assis.Runtime.Answers.{
  attempt_identity, acknowledgement_identity, completion_identity,
  mark_diagnostic_reservation_attempted, acknowledge_diagnostic_reservation,
  complete_diagnostic_run,
}

module _ (F : Floats) where
  -- A call of an operation, with its arguments in the source's order.
  pub data Call : Type 0 where
    creates_session : LearningSessionSnapshot → Call
    transitions_session :
        (learner_id : ℕ)
        → SessionTransition
        → (graph_version_id topic_id : Option ℕ) → (change_position : Bool) → Call
    creates_frame :
        (learner_id : ℕ)
        → RemediationFrameSnapshot F
        → (expected_session_version created_at : ℕ) → Call
    updates_frame :
        (learner_id : ℕ)
        → RemediationFrameSnapshot F
        → (expected_version expected_session_version updated_at : ℕ) → Call
    records_attempt :
        (learner_id session_id : ℕ) → FrameAttempt F → (expected_frame_version : ℕ) → Call
    pushes_frame :
        (learner_id : ℕ)
        → RemediationFrameSnapshot F
        → (expected_session_version created_at : ℕ) → Call
    returns_frame :
        (learner_id : ℕ)
        → RemediationFrameSnapshot F
        → (expected_session_version : ℕ) → SessionTransition
        → Call
    creates_run : DiagnosticRunSnapshot → Call
    reserves_question :
        (learner_id session_id run_id reservation_id execution_id question_version_id : ℕ)
        (target_concept_id expected_run_version reserved_at : ℕ)
        → Call
    marks_attempted :
        (learner_id session_id reservation_id source_attempt_id event_id : ℕ)
        (expected_version attempted_at : ℕ)
        → Call
    acknowledges :
        (learner_id session_id : ℕ) → DiagnosticReservation → (expected_version event_id : ℕ) → Call
    completes_run :
        (learner_id session_id run_id expected_version event_id completed_at : ℕ)
        → (cancels : Bool) → Call

  pub data Value : Type 0 where
    session_value : LearningSessionSnapshot → Value
    frame_value : RemediationFrameSnapshot F → Value
    attempt_value : FrameAttempt F → Value
    run_value : DiagnosticRunSnapshot → Value
    reservation_value : DiagnosticReservation → Value

module _ {F : Floats} where
  abbrev pub wrap :
      {A : Type 0} → (A → Value F) → Result (A × Tables F) → Result (Value F × Tables F)
  wrap f (raise e) = raise e
  wrap f (ok (value, t)) = ok (f value, t)

  -- The validators that the caller's construction of the arguments runs.
  unfoldable pub validate_call : Call F → Result (Unit {0})
  validate_call (creates_session value) = lifecycle value
  validate_call (transitions_session _ transition _ _ _) = legal_transition transition
  validate_call (creates_frame _ value _ _) = frame_bounds value
  validate_call (updates_frame _ value _ _ _) = frame_bounds value
  validate_call (records_attempt _ _ _ _) = ok tt
  validate_call (pushes_frame _ value _ _) = frame_bounds value
  validate_call (returns_frame _ value _ transition) = do
    frame_bounds value
    legal_transition transition
  validate_call (creates_run value) = run_validators value
  validate_call (reserves_question _ _ _ _ _ _ _ _ _) = ok tt
  validate_call (marks_attempted _ _ _ _ _ _ _) = ok tt
  validate_call (acknowledges _ _ value _ _) = reservation_bounds value
  validate_call (completes_run _ _ _ _ _ _ _) = ok tt

  module _ (host : Host F) (source_id : SourceIdentity → ℕ) where
    unfoldable pub operate : Call F → Tables F → Result (Value F × Tables F)
    operate (creates_session value) t = wrap session_value (create_learning_session host value t)
    operate (transitions_session learner transition graph topic changes) t =
        wrap session_value
          (transition_learning_session host learner transition graph topic changes t)
    operate (creates_frame learner value version at) t =
        wrap frame_value (create_remediation_frame host learner value version at t)
    operate (updates_frame learner value expected version at) t =
        wrap frame_value (update_remediation_frame host learner value expected version at t)
    operate (records_attempt learner session value expected) t =
        wrap attempt_value (record_frame_attempt host learner session value expected t)
    operate (pushes_frame learner value version at) t =
        wrap frame_value (push_remediation_frame host learner value version at t)
    operate (returns_frame learner value version transition) t =
        wrap frame_value (return_remediation_frame host learner value version transition t)
    operate (creates_run value) t = wrap run_value (create_diagnostic_run host source_id value t)
    operate
          (reserves_question learner session run reservation execution question concept version at)
          t =
        wrap reservation_value (
          reserve_diagnostic_question host learner session run reservation execution question
            concept version at t)
    operate (marks_attempted learner session reservation attempt event version at) t =
        wrap reservation_value (
          mark_diagnostic_reservation_attempted host learner session reservation attempt event
            version at t)
    operate (acknowledges learner session value version event) t =
        wrap reservation_value
          (acknowledge_diagnostic_reservation host learner session value version event t)
    operate (completes_run learner session run version event at cancels) t =
        wrap run_value (complete_diagnostic_run host learner session run version event at cancels t)

    -- The logical identity of a call.
    unfoldable pub identity_of : Call F → Identity
    identity_of (creates_session value) = creation_identity host value
    identity_of (transitions_session learner transition graph topic changes) =
        transition_identity host learner transition graph topic changes
    identity_of (creates_frame learner value version at) =
        frame_creation host learner value version at
    identity_of (updates_frame learner value expected version at) =
        frame_update host learner value expected version at
    identity_of (records_attempt learner session value expected) =
        frame_attempt host learner value expected
    identity_of (pushes_frame learner value version at) =
        push_identity host learner value version at
    identity_of (returns_frame learner value version transition) =
        return_identity host learner value version transition
    identity_of (creates_run value) = run_creation host source_id value
    identity_of
          (reserves_question learner session run reservation execution question concept version
            at) =
        reservation_identity host learner run reservation execution question concept version at
    identity_of (marks_attempted learner session reservation attempt event version at) =
        attempt_identity host learner reservation attempt event version at
    identity_of (acknowledges learner session value version event) =
        acknowledgement_identity host learner value version event
    identity_of (completes_run learner session run version event at cancels) =
        completion_identity host learner run version event at cancels

    -- The call of a valid request.
    unfoldable pub perform : Call F → Tables F → Result (Value F × Tables F)
    unfolding validate_call operate
    perform call t = validate_call call >> operate call t

-- The same kind, scope and source.
abbrev pub SameKey : Identity → Identity → Type 0
SameKey a b = (a.kind ≡ b.kind) × (a.scope_id ≡ b.scope_id) × (a.source_id ≡ b.source_id)

-- `row.current_plan_version_id = head`
abbrev pub planned :
    (head : Option ℕ) → Option LearningSessionSnapshot → Option LearningSessionSnapshot
planned head none = none
planned head (some row) = some (record row { current_plan_version_id = head })

-- What other modules write between two calls: rows of their own, but no learner is deleted; the plan
-- heads of sessions (`publish_plan_version` of packages/persistence/planning.py); and journaled results
-- under identities that had none.
pub record Elsewhere {F : Floats} (t t' : Tables F) : Type 0 where
  pub learners : (id : ℕ) → t.learners id ≡ true → t'.learners id ≡ true
  pub sessions : (id : ℕ) → (head : Option ℕ) × (t'.sessions id ≡ planned head (t.sessions id))
  pub frames : t'.frames ≡ t.frames
  pub runs : t'.runs ≡ t.runs
  pub reservations : t'.reservations ≡ t.reservations
  pub operations :
      (id : Identity) (row : RuntimeOperation)
      → operation_of id t.operations ≡ some row
      → operation_of id t'.operations ≡ some row

module _ {F : Floats} (host : Host F) (source_id : SourceIdentity → ℕ) where
  -- Calls that commit and writes of other modules, in any order. A call that raises is rolled back
  -- and leaves the tables as they were.
  pub data History (t : Tables F) : Tables F → Type 0 where
    start : History t t
    commits :
        {t1 t2 : Tables F} (call : Call F) (value : Value F)
        → History t t1
        → perform host source_id call t1 ≡ ok (value, t2)
        → History t t2
    elsewhere : {t1 t2 : Tables F} → History t t1 → Elsewhere t1 t2 → History t t2

module _ {F : Floats} where
  -- The validators of a value.
  unfoldable pub validate_value : Value F → Result (Unit {0})
  validate_value (session_value value) = lifecycle value
  validate_value (frame_value value) = frame_bounds value
  validate_value (attempt_value value) = ok tt
  validate_value (run_value value) = run_validators value
  validate_value (reservation_value value) = reservation_bounds value

  -- The serialization of the value gives it back.
  unfoldable pub GivesBack : Host F → Value F → Type 0
  GivesBack host (session_value value) = host.sessions.load (host.sessions.dump value) ≡ ok value
  GivesBack host (frame_value value) = host.frames.load (host.frames.dump value) ≡ ok value
  GivesBack host (attempt_value value) =
      host.frame_attempts.load (host.frame_attempts.dump value) ≡ ok value
  GivesBack host (run_value value) = host.runs.load (host.runs.dump value) ≡ ok value
  GivesBack host (reservation_value value) =
      host.reservations.load (host.reservations.dump value) ≡ ok value
