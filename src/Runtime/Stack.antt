-- ===== src/Runtime/Stack.antt =====
-- The stack of remediation frames of packages/persistence/remediation.py: a push makes a new frame the
-- head of its session, a return closes the head and makes its parent the head.
use autonomus_academic_assis.Base.{
  ℕ, ◌+◌, Bool, true, not, ◌&&◌, Option, none, some, ◌==◌, is_some, same_option, str_eq, Result, ok,
  raise, runtime_stale, runtime_validation, fail_if, ◌>>=◌, ◌>>◌, put,
}
use autonomus_academic_assis.Base.Floats.{Floats}
use autonomus_academic_assis.Session.{SessionTransition, LearningSessionSnapshot}
use autonomus_academic_assis.Remediation.Frame.{
  RemediationFrameSnapshot, complete, returned, same_state, is_id, frame_bounds,
}
use autonomus_academic_assis.Runtime.Tables.{Tables, RemediationFrameRow}
use autonomus_academic_assis.Runtime.Journal.{Identity, locked_session, journaled}
use autonomus_academic_assis.Runtime.Requests.{Host, pushes_frame, returns_frame, flush}
use autonomus_academic_assis.Runtime.Sessions.{transition_learning_session}
use autonomus_academic_assis.Runtime.Frames.{
  has_provenance, create_remediation_frame, update_remediation_frame,
}

-- `row.active_frame_id = head`
abbrev pub headed :
    (head : Option ℕ) → Option LearningSessionSnapshot → Option LearningSessionSnapshot
headed head none = none
headed head (some row) = some (record row { active_frame_id = head })

-- `head not in (None, parent, frame)`
abbrev pub is_newer : (head parent : Option ℕ) → (frame_id : ℕ) → Bool
is_newer head parent frame_id =
    is_some head && not (same_option head parent) && not (is_id head frame_id)

module _ {F : Floats} where
  open F use {eq}

  abbrev pub with_head : Tables F → (session_id : ℕ) → (head : Option ℕ) → Tables F
  with_head t session_id head = record t {
    sessions = put t.sessions session_id (headed head (t.sessions session_id));
  }

  -- Whether every field of two snapshots is equal.
  unfoldable pub same_frame : RemediationFrameSnapshot F → RemediationFrameSnapshot F → Bool
  unfolding has_provenance
  same_frame frame value =
      has_provenance frame value
      && (frame.frame_id == value.frame_id)
      && same_state frame.state value.state
      && (frame.version == value.version)
      && (frame.rung == value.rung)
      && str_eq frame.strategy value.strategy
      && (frame.attempt_count == value.attempt_count)
      && eq frame.baseline_mastery value.baseline_mastery
      && eq frame.latest_mastery value.latest_mastery
      && (frame.last_event_id == value.last_event_id)
      && same_option frame.returned_by_execution_id value.returned_by_execution_id
      && same_option frame.returned_at value.returned_at

  -- The snapshot of the session's frame, if it is one.
  unfoldable pub remediation_frame :
      Option (RemediationFrameRow F) → (session_id : ℕ) → Result (RemediationFrameSnapshot F)
  remediation_frame none session_id = raise (runtime_validation "Remediation frame is missing")
  remediation_frame (some row) session_id = do
    fail_if (not (row.snapshot.session_id == session_id))
        (runtime_validation "Remediation frame is missing")
    frame_bounds row.snapshot
    ok row.snapshot

  -- The fields that a return changes.
  abbrev pub closed :
      RemediationFrameSnapshot F
      → (version event_id execution_id returned_at : ℕ) → RemediationFrameSnapshot F
  closed current version event_id execution_id returned_at = record current {
    state = returned;
    version = version + 1;
    last_event_id = event_id;
    returned_by_execution_id = some execution_id;
    returned_at = some returned_at;
  }

module _ {F : Floats} (host : Host F) where
  unfoldable pub push_frame :
      (learner_id : ℕ)
      → RemediationFrameSnapshot F
      → (expected_session_version created_at : ℕ) → LearningSessionSnapshot
      → Tables F
      → Result (RemediationFrameSnapshot F × Tables F)
  push_frame learner_id value expected_session_version created_at owner t = do
    (result, t1) ←
        create_remediation_frame host learner_id value expected_session_version created_at t
    fail_if (is_newer owner.active_frame_id value.parent_frame_id value.frame_id)
        (runtime_stale "A newer remediation frame already owns the session head")
    t2 ← flush host true (with_head t1 value.session_id (some value.frame_id))
    ok (result, t2)

  abbrev pub push_identity :
      (learner_id : ℕ)
      → RemediationFrameSnapshot F
      → (expected_session_version created_at : ℕ) → Identity
  push_identity learner_id value expected_session_version created_at = record {
    kind = "frame-push";
    scope_id = value.session_id;
    source_id = value.frame_id;
    learner_id = learner_id;
    request = host.canonical_request (pushes_frame value expected_session_version created_at);
  }

  unfoldable pub push_remediation_frame :
      (learner_id : ℕ)
      → RemediationFrameSnapshot F
      → (expected_session_version created_at : ℕ) → Tables F
      → Result (RemediationFrameSnapshot F × Tables F)
  push_remediation_frame learner_id value expected_session_version created_at t =
      journaled host.frames (λ t. locked_session t learner_id value.session_id)
        (push_identity learner_id value expected_session_version created_at)
        (push_frame learner_id value expected_session_version created_at) t

  -- Moves the session back to the frame's topic and restores the head below.
  unfoldable pub restore_session :
      (learner_id session_id : ℕ)
      → RemediationFrameSnapshot F
      → SessionTransition
      → Tables F
      → Result (RemediationFrameSnapshot F × Tables F)
  restore_session learner_id session_id result transition t1 = do
    t2 ← flush host true (with_head t1 session_id none)
    (_, t3) ←
        transition_learning_session host learner_id transition (some result.graph_version_id)
          (some result.return_to_topic_id) true t2
    t4 ← flush host true (with_head t3 session_id result.parent_frame_id)
    ok (result, t4)

  -- Closes the frame.
  unfoldable pub close_frame :
      (learner_id : ℕ) (current : RemediationFrameSnapshot F)
      → (version expected_session_version execution_id : ℕ) → SessionTransition
      → Tables F
      → Result (RemediationFrameSnapshot F × Tables F)
  close_frame learner_id current version expected_session_version execution_id transition t = do
    (result, t1) ←
        update_remediation_frame host learner_id
          (closed current version transition.event_id execution_id transition.occurred_at) version
          expected_session_version transition.occurred_at t
    restore_session learner_id current.session_id result transition t1

  unfoldable pub return_frame :
      (learner_id : ℕ)
      → RemediationFrameSnapshot F
      → (expected_session_version : ℕ) → SessionTransition
      → LearningSessionSnapshot
      → Tables F
      → Result (RemediationFrameSnapshot F × Tables F)
  return_frame learner_id value expected_session_version transition owner t = do
    current ← remediation_frame (t.frames value.frame_id) value.session_id
    fail_if (not (is_id owner.active_frame_id value.frame_id))
        (runtime_stale "Remediation frame is no longer the active session head")
    fail_if (not (same_frame current value)) (runtime_stale "Remediation frame snapshot is stale")
    elim transition.execution_id [
      | none ↦ raise (runtime_validation "A return requires a complete frame and execution")
      | some execution_id ↦ do
        fail_if (not (same_state current.state complete))
            (runtime_validation "A return requires a complete frame and execution")
        close_frame learner_id current value.version expected_session_version execution_id
            transition t
    ]

  abbrev pub return_identity :
      (learner_id : ℕ)
      → RemediationFrameSnapshot F
      → (expected_session_version : ℕ) → SessionTransition
      → Identity
  return_identity learner_id value expected_session_version transition = record {
    kind = "frame-return";
    scope_id = value.session_id;
    source_id = value.frame_id;
    learner_id = learner_id;
    request = host.canonical_request (returns_frame value expected_session_version transition);
  }

  unfoldable pub return_remediation_frame :
      (learner_id : ℕ)
      → RemediationFrameSnapshot F
      → (expected_session_version : ℕ) → SessionTransition
      → Tables F
      → Result (RemediationFrameSnapshot F × Tables F)
  return_remediation_frame learner_id value expected_session_version transition t =
      journaled host.frames (λ t. locked_session t learner_id value.session_id)
        (return_identity learner_id value expected_session_version transition)
        (return_frame learner_id value expected_session_version transition) t
