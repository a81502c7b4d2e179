-- ===== src/Runtime/Frames.antt =====
-- The remediation frames of packages/persistence/runtime.py: creation, update and attempts.
use autonomus_academic_assis.Base.{
  ℕ, ◌+◌, Bool, not, ◌&&◌, ◌||◌, Option, none, some, ◌∷◌, ◌==◌, is_some, same_option, str_eq,
  Result, ok, raise, runtime_conflict, runtime_stale, runtime_validation, integrity_error, fail_if,
  ◌>>=◌, ◌>>◌, put, any, if◌then◌else◌,
}
use autonomus_academic_assis.Base.Floats.{Floats}
use autonomus_academic_assis.Session.{LearningSessionSnapshot}
use autonomus_academic_assis.Remediation.Frame.{
  RemediationFrameSnapshot, FrameAttempt, active, returned, same_state,
}
use autonomus_academic_assis.Runtime.Tables.{
  Tables, RemediationFrameRow, frame_checks, frame_attempt_checks,
}
use autonomus_academic_assis.Runtime.Journal.{
  Identity, check_version, locked_session, validate_runtime_event, journaled,
}
use autonomus_academic_assis.Runtime.Requests.{
  Host, creates_frame, updates_frame, attempts_frame, flush,
}

module _ {F : Floats} where
  open F use {eq}

  abbrev pub with_frame : Tables F → (id : ℕ) → RemediationFrameRow F → Tables F
  with_frame t id row = record t { frames = put t.frames id (some row) }

  abbrev pub frame_row :
      RemediationFrameSnapshot F → (created_at updated_at : ℕ) → RemediationFrameRow F
  frame_row value created_at updated_at = record {
    snapshot = value;
    created_at = created_at;
    updated_at = updated_at;
  }

  -- A frame on top of another is one deeper.
  unfoldable pub check_parent :
      Tables F → (parent_frame_id : Option ℕ) → (depth : ℕ) → Result (Unit {0})
  check_parent t none depth = ok tt
  check_parent t (some parent_id) depth = elim (t.frames parent_id) [
    | none ↦ raise (runtime_validation "Frame stack depth is incompatible")
    | some parent ↦
        fail_if (not (depth == parent.snapshot.depth + 1))
          (runtime_validation "Frame stack depth is incompatible")
  ]

  unfoldable pub check_creator : Tables F → (session_id execution_id : ℕ) → Result (Unit {0})
  check_creator t session_id execution_id = elim (t.receipts execution_id) [
    | none ↦ raise (runtime_validation "Frame creation execution is missing or incompatible")
    | some receipt ↦
        fail_if (not (receipt.session_id == session_id))
          (runtime_validation "Frame creation execution is missing or incompatible")
  ]

  -- Whether every field of `immutable` is equal.
  unfoldable pub has_provenance : RemediationFrameSnapshot F → RemediationFrameSnapshot F → Bool
  has_provenance frame value =
      (frame.session_id == value.session_id)
      && (frame.graph_version_id == value.graph_version_id)
      && (frame.target_concept_id == value.target_concept_id)
      && (frame.return_to_topic_id == value.return_to_topic_id)
      && same_option frame.parent_frame_id value.parent_frame_id
      && (frame.depth == value.depth)
      && (frame.created_by_execution_id == value.created_by_execution_id)
      && str_eq frame.guard_policy_version value.guard_policy_version
      && (frame.max_attempts == value.max_attempts)
      && eq frame.min_progress_delta value.min_progress_delta

  -- The fields that an update assigns.
  abbrev pub assigned :
      RemediationFrameSnapshot F → RemediationFrameSnapshot F → RemediationFrameSnapshot F
  assigned value frame = record frame {
    state = value.state;
    version = value.version;
    rung = value.rung;
    strategy = value.strategy;
    attempt_count = value.attempt_count;
    baseline_mastery = value.baseline_mastery;
    latest_mastery = value.latest_mastery;
    last_event_id = value.last_event_id;
    returned_by_execution_id = value.returned_by_execution_id;
    returned_at = value.returned_at;
  }

  -- The row of the frame, if it belongs to the session.
  unfoldable pub owned_frame :
      Option (RemediationFrameRow F) → (session_id : ℕ) → Result (RemediationFrameRow F)
  owned_frame none session_id =
      raise (runtime_validation "Frame is missing or belongs to another session")
  owned_frame (some row) session_id =
      if row.snapshot.session_id == session_id
      then ok row
      else raise (runtime_validation "Frame is missing or belongs to another session")

  abbrev pub has_attempt_key : FrameAttempt F → FrameAttempt F → Bool
  has_attempt_key a b = (a.frame_id == b.frame_id) && (a.source_attempt_id == b.source_attempt_id)

  -- The attempt's row is in the scope of the session.
  unfoldable pub check_source :
      Tables F
      → (learner_id : ℕ) → (owner : LearningSessionSnapshot) → (source_attempt_id : ℕ)
      → Result (Unit {0})
  check_source t learner_id owner source_attempt_id = elim (t.attempts source_attempt_id) [
    | none ↦ raise (runtime_validation "Frame attempt source context conflicts")
    | some attempt ↦
        fail_if
          (not (attempt.learner_identity_id == learner_id)
            || not (attempt.course_id == owner.course_id))
          (runtime_validation "Frame attempt source context conflicts")
  ]

module _ {F : Floats} (host : Host F) where
  unfoldable pub new_frame :
      RemediationFrameSnapshot F
      → (expected_session_version created_at : ℕ) → LearningSessionSnapshot
      → Tables F
      → Result (RemediationFrameSnapshot F × Tables F)
  new_frame value expected_session_version created_at owner t = do
    check_version owner.version expected_session_version
    fail_if
        (not (value.version == 1)
          || not (same_state value.state active)
          || not (value.attempt_count == 0))
        (runtime_validation "New frame must be active at version one without attempts")
    fail_if (not (same_option owner.graph_version_id (some value.graph_version_id)))
        (runtime_stale "Frame graph changed")
    fail_if (not (same_option value.parent_frame_id owner.active_frame_id))
        (runtime_stale "Frame parent must match the current stack head")
    check_parent t value.parent_frame_id value.depth
    check_creator t value.session_id value.created_by_execution_id
    validate_runtime_event t value.last_event_id owner
    fail_if (is_some (t.frames value.frame_id)) (integrity_error "remediation_frames")
    t1 ←
        flush host (frame_checks value)
          (with_frame t value.frame_id (frame_row value created_at created_at))
    ok (value, t1)

  abbrev pub frame_creation :
      (learner_id : ℕ)
      → RemediationFrameSnapshot F
      → (expected_session_version created_at : ℕ) → Identity
  frame_creation learner_id value expected_session_version created_at = record {
    kind = "frame-create";
    scope_id = value.frame_id;
    source_id = value.created_by_execution_id;
    learner_id = learner_id;
    request = host.canonical_request (creates_frame value expected_session_version created_at);
  }

  unfoldable pub create_remediation_frame :
      (learner_id : ℕ)
      → RemediationFrameSnapshot F
      → (expected_session_version created_at : ℕ) → Tables F
      → Result (RemediationFrameSnapshot F × Tables F)
  create_remediation_frame learner_id value expected_session_version created_at t =
      journaled host.frames (λ t. locked_session t learner_id value.session_id)
        (frame_creation learner_id value expected_session_version created_at)
        (new_frame value expected_session_version created_at) t

  -- The writes of an update, whose row belongs to the session.
  unfoldable pub assign_frame :
      RemediationFrameSnapshot F
      → (expected_version updated_at : ℕ) → LearningSessionSnapshot
      → RemediationFrameRow F
      → Tables F
      → Result (RemediationFrameSnapshot F × Tables F)
  assign_frame value expected_version updated_at owner row t = do
    check_version row.snapshot.version expected_version
    fail_if (not (value.version == expected_version + 1) || same_state row.snapshot.state returned)
        (runtime_stale "Frame version/state changed")
    fail_if (not (has_provenance row.snapshot value))
        (runtime_conflict "Immutable frame provenance conflicts")
    validate_runtime_event t value.last_event_id owner
    t1 ← flush host (frame_checks (assigned value row.snapshot)) (
        with_frame t value.frame_id
          (frame_row (assigned value row.snapshot) row.created_at updated_at))
    ok (value, t1)

  unfoldable pub change_frame :
      RemediationFrameSnapshot F
      → (expected_version expected_session_version updated_at : ℕ) → LearningSessionSnapshot
      → Tables F
      → Result (RemediationFrameSnapshot F × Tables F)
  change_frame value expected_version expected_session_version updated_at owner t = do
    check_version owner.version expected_session_version
    row ← owned_frame (t.frames value.frame_id) value.session_id
    assign_frame value expected_version updated_at owner row t

  abbrev pub frame_update :
      (learner_id : ℕ)
      → RemediationFrameSnapshot F
      → (expected_version expected_session_version updated_at : ℕ) → Identity
  frame_update learner_id value expected_version expected_session_version updated_at = record {
    kind = "frame-update";
    scope_id = value.frame_id;
    source_id = value.last_event_id;
    learner_id = learner_id;
    request =
        host.canonical_request
          (updates_frame value expected_version expected_session_version updated_at);
  }

  unfoldable pub update_remediation_frame :
      (learner_id : ℕ)
      → RemediationFrameSnapshot F
      → (expected_version expected_session_version updated_at : ℕ) → Tables F
      → Result (RemediationFrameSnapshot F × Tables F)
  update_remediation_frame learner_id value expected_version expected_session_version updated_at t =
      journaled host.frames (λ t. locked_session t learner_id value.session_id)
        (frame_update learner_id value expected_version expected_session_version updated_at)
        (change_frame value expected_version expected_session_version updated_at) t

  unfoldable pub new_frame_attempt :
      (learner_id session_id : ℕ)
      → FrameAttempt F
      → (expected_frame_version : ℕ) → LearningSessionSnapshot
      → Tables F
      → Result (FrameAttempt F × Tables F)
  new_frame_attempt learner_id session_id value expected_frame_version owner t =
      elim (t.frames value.frame_id) [
        | none ↦ raise (runtime_validation "Attempt requires an active session frame")
        | some row ↦ do
          fail_if
              (not (row.snapshot.session_id == session_id)
                || not (same_state row.snapshot.state active))
              (runtime_validation "Attempt requires an active session frame")
          check_version row.snapshot.version expected_frame_version
          validate_runtime_event t value.event_id owner
          check_source t learner_id owner value.source_attempt_id
          fail_if
              (not (t.affects value.event_id value.source_attempt_id row.snapshot.target_concept_id)
                || not (value.rung == row.snapshot.rung))
              (runtime_validation "Frame attempt requires matching concept-impact provenance")
          fail_if (any (has_attempt_key value) t.frame_attempts)
              (integrity_error "remediation_frame_attempts")
          t1 ←
              flush host (frame_attempt_checks value)
                (record t { frame_attempts = value ∷ t.frame_attempts })
          ok (value, t1)
      ]

  abbrev pub frame_attempt :
      (learner_id : ℕ) → FrameAttempt F → (expected_frame_version : ℕ) → Identity
  frame_attempt learner_id value expected_frame_version = record {
    kind = "frame-attempt";
    scope_id = value.frame_id;
    source_id = value.source_attempt_id;
    learner_id = learner_id;
    request = host.canonical_request (attempts_frame value expected_frame_version);
  }

  unfoldable pub record_frame_attempt :
      (learner_id session_id : ℕ)
      → FrameAttempt F
      → (expected_frame_version : ℕ) → Tables F
      → Result (FrameAttempt F × Tables F)
  record_frame_attempt learner_id session_id value expected_frame_version t =
      journaled host.frame_attempts (λ t. locked_session t learner_id session_id)
        (frame_attempt learner_id value expected_frame_version)
        (new_frame_attempt learner_id session_id value expected_frame_version) t
