-- ===== src/Runtime/Sessions.antt =====
-- The learning sessions of packages/persistence/runtime.py: their creation and their transitions.
use autonomus_academic_assis.Base.{
  ℕ, Bool, true, false, not, ◌||◌, Option, none, some, ◌∷◌, ◌==◌, ltb, is_some, same_option, Result,
  ok, raise, runtime_conflict, runtime_stale, runtime_validation, integrity_error, fail_if, ◌>>=◌,
  ◌>>◌, put, any, ◌&&◌, if◌then◌else◌,
}
use autonomus_academic_assis.Base.Floats.{Floats}
use autonomus_academic_assis.Session.{
  SessionTransition, LearningSessionSnapshot, created, complete, same_state, lifecycle,
}
use autonomus_academic_assis.Runtime.Tables.{Tables, session_checks}
use autonomus_academic_assis.Runtime.Journal.{
  Identity, check_version, lock_runtime_learner, locked_session, validate_runtime_event,
  graph_position, journaled,
}
use autonomus_academic_assis.Runtime.Requests.{Host, transitions, flush}

-- The row of a new session.
abbrev pub created_row : LearningSessionSnapshot → LearningSessionSnapshot
created_row value = record value {
  current_plan_version_id = none;
  active_frame_id = none;
  completed_at = none;
}

-- The fields that a change of position assigns.
abbrev pub moved_row :
    (change_position : Bool) (graph_version_id topic_id : Option ℕ)
    → LearningSessionSnapshot
    → LearningSessionSnapshot
moved_row false graph_version_id topic_id row = row
moved_row true graph_version_id topic_id row = record row {
  graph_version_id = graph_version_id;
  current_topic_id = topic_id;
}

-- The fields that every transition assigns.
abbrev pub transitioned_row : SessionTransition → LearningSessionSnapshot → LearningSessionSnapshot
transitioned_row transition row = record row {
  state = transition.to_state;
  version = transition.to_version;
  last_event_id = transition.event_id;
  updated_at = transition.occurred_at;
  completed_at =
      if same_state transition.to_state complete then some transition.occurred_at else none;
}

abbrev pub has_key : SessionTransition → SessionTransition → Bool
has_key a b = (a.session_id == b.session_id) && (a.event_id == b.event_id)

module _ {F : Floats} where
  abbrev pub with_session : Tables F → (id : ℕ) → LearningSessionSnapshot → Tables F
  with_session t id row = record t { sessions = put t.sessions id (some row) }

  -- The plan of a transition, if it names one, is the head of the session.
  unfoldable pub check_plan :
      Tables F → (session_id : ℕ) → LearningSessionSnapshot → Option ℕ → Result (Unit {0})
  check_plan t session_id owner none = ok tt
  check_plan t session_id owner (some plan_id) =
      fail_if
        (not (same_option (t.plan_versions plan_id) (some session_id))
          || not (same_option owner.current_plan_version_id (some plan_id)))
        (runtime_stale "Transition plan is not the current authorized session head")

  -- The execution of a transition, if it names one, is completed and executes its plan.
  unfoldable pub check_execution :
      Tables F → (session_id : ℕ) → (plan_version_id execution_id : Option ℕ) → Result (Unit {0})
  check_execution t session_id plan_version_id none = ok tt
  check_execution t session_id plan_version_id (some execution_id) =
      elim (t.receipts execution_id) [
        | none ↦
            raise
              (runtime_validation "Successful session transition requires a completed execution")
        | some receipt ↦ do
          fail_if (not (receipt.session_id == session_id) || not receipt.is_completed)
              (runtime_validation "Successful session transition requires a completed execution")
          fail_if (not (same_option plan_version_id (some receipt.plan_version_id)))
              (runtime_conflict "Transition execution and plan identities conflict")
      ]

  unfoldable pub check_position :
      Tables F
      → (change_position : Bool) → (graph_version_id topic_id : Option ℕ) → LearningSessionSnapshot
      → Result (Unit {0})
  check_position t false graph_version_id topic_id owner = ok tt
  check_position t true graph_version_id topic_id owner = do
    graph_position t owner graph_version_id topic_id
    fail_if (is_some owner.active_frame_id)
        (runtime_validation "Position cannot replace an active frame's saved target")

module _ {F : Floats} (host : Host F) where
  unfoldable pub new_session :
      LearningSessionSnapshot → Tables F → Result (LearningSessionSnapshot × Tables F)
  new_session value t = do
    fail_if
        (not (value.version == 1)
          || not (same_state value.state created)
          || is_some value.current_plan_version_id
          || is_some value.active_frame_id)
        (runtime_validation "A new session starts CREATED at version one without heads")
    fail_if (is_some (t.sessions value.session_id))
        (runtime_conflict "Session already exists without this creation receipt")
    validate_runtime_event t value.last_event_id (created_row value)
    graph_position t (created_row value) value.graph_version_id value.current_topic_id
    t1 ←
        flush host (session_checks (created_row value))
          (with_session t value.session_id (created_row value))
    ok (value, t1)

  abbrev pub creation_identity : LearningSessionSnapshot → Identity
  creation_identity value = record {
    kind = "session-create";
    scope_id = value.session_id;
    source_id = value.session_id;
    learner_id = value.learner_id;
    request = host.sessions.dump value;
  }

  unfoldable pub create_learning_session :
      LearningSessionSnapshot → Tables F → Result (LearningSessionSnapshot × Tables F)
  create_learning_session value t =
      journaled host.sessions (λ t. lock_runtime_learner t value.learner_id)
        (creation_identity value) (λ _. new_session value) t

  -- The writes of a transition, which passed the checks.
  unfoldable pub write_transition :
      (transition : SessionTransition) (row : LearningSessionSnapshot)
      → Tables F
      → Result (LearningSessionSnapshot × Tables F)
  write_transition transition row t = do
    fail_if (any (has_key transition) t.transitions)
        (integrity_error "learning_session_transitions")
    t1 ← flush host (session_checks row) (record (with_session t transition.session_id row) {
      transitions = transition ∷ t.transitions;
    })
    lifecycle row
    ok (row, t1)

  unfoldable pub make_transition :
      (transition : SessionTransition) (graph_version_id topic_id : Option ℕ)
      (change_position : Bool)
      → (owner : LearningSessionSnapshot) → Tables F
      → Result (LearningSessionSnapshot × Tables F)
  make_transition transition graph_version_id topic_id change_position owner t = do
    check_version owner.version transition.from_version
    fail_if (not (same_state owner.state transition.from_state))
        (runtime_stale "Session source state changed")
    validate_runtime_event t transition.event_id owner
    check_plan t transition.session_id owner transition.plan_version_id
    check_execution t transition.session_id transition.plan_version_id transition.execution_id
    fail_if (ltb transition.occurred_at owner.updated_at)
        (runtime_stale "Session transition precedes its current state")
    check_position t change_position graph_version_id topic_id owner
    write_transition transition
        (transitioned_row transition (moved_row change_position graph_version_id topic_id owner)) t

  abbrev pub transition_identity :
      (learner_id : ℕ)
      → SessionTransition
      → (graph_version_id topic_id : Option ℕ) → (change_position : Bool) → Identity
  transition_identity learner_id transition graph_version_id topic_id change_position = record {
    kind = "session-transition";
    scope_id = transition.session_id;
    source_id = transition.event_id;
    learner_id = learner_id;
    request =
        host.canonical_request (transitions transition change_position graph_version_id topic_id);
  }

  unfoldable pub transition_learning_session :
      (learner_id : ℕ)
      → SessionTransition
      → (graph_version_id topic_id : Option ℕ) → (change_position : Bool) → Tables F
      → Result (LearningSessionSnapshot × Tables F)
  transition_learning_session learner_id transition graph_version_id topic_id change_position t =
      journaled host.sessions (λ t. locked_session t learner_id transition.session_id)
        (transition_identity learner_id transition graph_version_id topic_id change_position)
        (make_transition transition graph_version_id topic_id change_position) t
