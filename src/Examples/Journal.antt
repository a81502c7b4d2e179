-- ===== src/Examples/Journal.antt =====
-- The theorems on the runtime at a learner's session: it is created, planned, remediated and diagnosed.
use autonomus_academic_assis.Base.{
  ℕ, ◌==◌, true, false, none, some, [], ◌≡◌, refl, arith, subst, Result, ok, raise, ok_same,
  value_error, runtime_stale, put, sort_by, length, ◌+◌,
}
use autonomus_academic_assis.Base.Floats.{whole}
use autonomus_academic_assis.Session.{
  SessionTransition, LearningSessionSnapshot, created, planning, lifecycle, legal_transition,
}
use autonomus_academic_assis.Remediation.Frame.{
  RemediationFrameSnapshot, active, complete, frame_bounds,
}
use autonomus_academic_assis.Runtime.Values.{
  running, reservation_bounds, reservation_checks, validate_sets,
}
use autonomus_academic_assis.Triggers.Facts.{SourceIdentity, event}
use autonomus_academic_assis.Runtime.Tables.{
  Tables, LearningEventRow, GraphVersionRow, ExecutionReceiptRow, DiagnosticRunRow,
}
use autonomus_academic_assis.Runtime.Requests.{Host, Validates}
use autonomus_academic_assis.Runtime.Calls.{
  Call, creates_session, transitions_session, updates_frame, reserves_question, session_value,
  frame_value, reservation_value, GivesBack, perform, History, start, commits, validate_value,
  identity_of,
}
use autonomus_academic_assis.Runtime.Tables.{session_checks, frame_checks}
use autonomus_academic_assis.Runtime.Requests.{flush}
use autonomus_academic_assis.Runtime.Journal.{
  Identity, journaled, lock_runtime_learner, locked_session, prior_result, operation_at,
  operation_of, check_version, validate_runtime_event, graph_position, record_result,
}
use autonomus_academic_assis.Runtime.Sessions.{
  new_session, create_learning_session, transition_learning_session, transition_identity,
  make_transition, check_plan, check_execution, check_position, write_transition,
}
use autonomus_academic_assis.Runtime.Frames.{
  create_remediation_frame, new_frame, check_parent, check_creator, update_remediation_frame,
  change_frame, assign_frame, has_provenance, owned_frame, frame_creation,
}
use autonomus_academic_assis.Runtime.Stack.{
  push_remediation_frame, push_frame, push_identity, return_remediation_frame, return_frame,
  return_identity, same_frame, remediation_frame, close_frame, restore_session, closed,
}
use autonomus_academic_assis.Runtime.Diagnostics.{
  reserve_diagnostic_question, new_reservation, run_reservations, reserved_value,
}
use autonomus_academic_assis.Runtime.History.Replay.{
  perform-again, perform-settles, perform_is_valid,
}
use autonomus_academic_assis.Runtime.History.Versions.{
  SessionSince, History-SessionSince, transition_is_fenced,
}
use autonomus_academic_assis.Runtime.History.Restore.{HasHead, return_restores_head}
use autonomus_academic_assis.Runtime.History.Budget.{IsBooked, History-IsBooked}
use autonomus_academic_assis.Planner.State.{DiagnosticState}
use autonomus_academic_assis.Runtime.Answers.{final_state}
use autonomus_academic_assis.Runtime.History.Final.{final_state_is_valid}

-- A session at its topic, without a plan.
abbrev fresh_session : LearningSessionSnapshot
fresh_session = record {
  session_id = 2;
  learner_id = 1;
  course_id = 3;
  state = created;
  version = 1;
  graph_version_id = some 5;
  current_topic_id = some 6;
  current_plan_version_id = none;
  active_frame_id = none;
  last_event_id = 40;
  created_at = 100;
  updated_at = 100;
  completed_at = none;
}

fresh_session-valid : lifecycle fresh_session ≡ ok tt
unfolding lifecycle
fresh_session-valid = refl

-- A host that has stored that session alone.
abbrev host : Host whole
host = record {
  canonical_request = λ _. "request";
  sessions = record { dump = λ _. "session"; load = λ _. ok fresh_session };
  frames = record { dump = λ _. "frame"; load = λ _. raise (value_error "frame") };
  frame_attempts = record { dump = λ _. "attempt"; load = λ _. raise (value_error "attempt") };
  runs = record { dump = λ _. "run"; load = λ _. raise (value_error "run") };
  reservations = record {
    dump = λ _. "reservation";
    load = λ _. raise (value_error "reservation");
  };
  accepts = λ _. true;
}

host-Validates : Validates host
host-Validates = record {
  sessions = record {
    accepts =
        λ _ value loaded. subst (λ v. lifecycle v ≡ ok tt) (ok_same loaded) fresh_session-valid;
  };
  frames = record { accepts = λ _ value loaded. absurd (cc loaded) };
  frame_attempts = record { accepts = λ _ value loaded. refl };
  runs = record { accepts = λ _ value loaded. absurd (cc loaded) };
  reservations = record { accepts = λ _ value loaded. absurd (cc loaded) };
}

abbrev source_id : SourceIdentity → ℕ
source_id source = SourceIdentity.source_id source

abbrev unscoped : LearningEventRow
unscoped = record { learner_identity_id = none; course_id = none }

abbrev published : GraphVersionRow
published = record { course_id = 3; is_published = true }

abbrev executed : ExecutionReceiptRow
executed = record { session_id = 2; is_completed = true; plan_version_id = 60 }

-- Before the session.
abbrev before : Tables whole
before = record {
  learners = λ id. id == 1;
  events = λ _. some unscoped;
  graphs = λ _. some published;
  topics = λ _ _. true;
  attempts = λ _. none;
  affects = λ _ _ _. true;
  plan_versions = λ _. some 2;
  receipts = λ _. some executed;
  sessions = λ _. none;
  transitions = [];
  frames = λ _. none;
  frame_attempts = [];
  runs = λ _. none;
  reservations = [];
  operations = [];
}

-- The tables that a call leaves.
abbrev left : {A : Type 0} → Tables whole → Result (A × Tables whole) → Tables whole
left t (ok r) = r.1
left t (raise e) = t

abbrev creation : Call whole
creation = creates_session fresh_session

unfoldable after : Tables whole
unfolding perform
after = left before (perform host source_id creation before)

created_once : perform host source_id creation before ≡ ok (session_value fresh_session, after)
unfolding after perform lifecycle create_learning_session transition_learning_session journaled
    lock_runtime_learner locked_session prior_result operation_at new_session make_transition
    check_version check_plan check_execution check_position write_transition validate_runtime_event
    graph_position flush session_checks record_result legal_transition
created_once = refl

-- A plan for the session, from its version.
abbrev to_planning : (event_id : ℕ) → SessionTransition
to_planning event_id = record {
  session_id = 2;
  event_id = event_id;
  from_state = created;
  to_state = planning;
  from_version = 1;
  to_version = 2;
  occurred_at = 200;
  plan_version_id = none;
  execution_id = none;
}

to_planning-legal : legal_transition (to_planning 41) ≡ ok tt
unfolding legal_transition
to_planning-legal = refl

abbrev planned_session : LearningSessionSnapshot
planned_session = record fresh_session {
  state = planning;
  version = 2;
  last_event_id = 41;
  updated_at = 200;
}

abbrev plan : Call whole
plan = transitions_session 1 (to_planning 41) none none false

unfoldable later : Tables whole
unfolding perform after
later = left after (perform host source_id plan after)

planned_once : perform host source_id plan after ≡ ok (session_value planned_session, later)
unfolding later after perform lifecycle create_learning_session transition_learning_session
    journaled lock_runtime_learner locked_session prior_result operation_at new_session
    make_transition check_version check_plan check_execution check_position write_transition
    validate_runtime_event graph_position flush session_checks record_result legal_transition
planned_once = refl

plan_committed : History host source_id after later
plan_committed = commits plan (session_value planned_session) start planned_once

given_back : GivesBack host (session_value fresh_session)
unfolding GivesBack
given_back = refl

-- The creation is repeated after the plan.
perform-again_example :
    perform host source_id creation later ≡ ok (session_value fresh_session, later)
perform-again_example =
    perform-again host source_id creation (session_value fresh_session) before after later
      given_back created_once plan_committed

abbrev creation_id : Identity
creation_id = identity_of host source_id creation

perform-settles_example :
    (Identity.learner_id creation_id ≡ Identity.learner_id creation_id)
    × (Identity.request creation_id ≡ Identity.request creation_id)
    × (later ≡ later)
perform-settles_example =
    perform-settles host source_id creation creation (session_value fresh_session)
      (session_value fresh_session) before after later later (refl, refl, refl) created_once
      plan_committed perform-again_example

perform_is_valid_example : validate_value {F = whole} (session_value fresh_session) ≡ ok tt
perform_is_valid_example =
    perform_is_valid host source_id creation (session_value fresh_session) before after
      host-Validates created_once

stored : after.sessions 2 ≡ some fresh_session
unfolding after perform lifecycle create_learning_session transition_learning_session journaled
    lock_runtime_learner locked_session prior_result operation_at new_session make_transition
    check_version check_plan check_execution check_position write_transition validate_runtime_event
    graph_position flush session_checks record_result legal_transition
stored = refl

History-SessionSince_example :
    (row : LearningSessionSnapshot) × (later.sessions 2 ≡ some row) × SessionSince fresh_session row
History-SessionSince_example =
    History-SessionSince host source_id after later 2 fresh_session plan_committed stored

unplanned :
    operation_of (transition_identity host 1 (to_planning 41) none none false) after.operations
    ≡ none
unfolding after perform lifecycle create_learning_session transition_learning_session journaled
    lock_runtime_learner locked_session prior_result operation_at new_session make_transition
    check_version check_plan check_execution check_position write_transition validate_runtime_event
    graph_position flush session_checks record_result legal_transition
unplanned = refl

unplanned_again :
    operation_of (transition_identity host 1 (to_planning 42) none none false) later.operations
    ≡ none
unfolding later after perform lifecycle create_learning_session transition_learning_session
    journaled lock_runtime_learner locked_session prior_result operation_at new_session
    make_transition check_version check_plan check_execution check_position write_transition
    validate_runtime_event graph_position flush session_checks record_result legal_transition
unplanned_again = refl

made :
    transition_learning_session host 1 (to_planning 41) none none false after
    ≡ ok (planned_session, later)
unfolding later after perform lifecycle create_learning_session transition_learning_session
    journaled lock_runtime_learner locked_session prior_result operation_at new_session
    make_transition check_version check_plan check_execution check_position write_transition
    validate_runtime_event graph_position flush session_checks record_result legal_transition
made = refl

-- Another plan from the same version is stale.
transition_is_fenced_example :
    transition_learning_session host 1 (to_planning 42) none none false later
    ≡ raise (runtime_stale "Expected version")
transition_is_fenced_example =
    transition_is_fenced host source_id 1 (to_planning 41) (to_planning 42) none none none none
      false false planned_session after later later to_planning-legal unplanned made start refl refl
      unplanned_again

-- The session with its plan, when a frame is pushed.
abbrev busy_session : LearningSessionSnapshot
busy_session = record fresh_session { current_plan_version_id = some 60 }

abbrev busy : Tables whole
busy = record before { sessions = put before.sessions 2 (some busy_session) }

abbrev pushed_frame : RemediationFrameSnapshot whole
pushed_frame = record {
  frame_id = 20;
  session_id = 2;
  graph_version_id = 5;
  target_concept_id = 8;
  return_to_topic_id = 6;
  created_by_execution_id = 30;
  parent_frame_id = none;
  depth = 1;
  state = active;
  version = 1;
  rung = 0;
  strategy = "RETEACH";
  guard_policy_version = "remediation_v1";
  attempt_count = 0;
  max_attempts = 3;
  min_progress_delta = 0;
  baseline_mastery = 0;
  latest_mastery = 0;
  last_event_id = 43;
  returned_by_execution_id = none;
  returned_at = none;
}

-- The frame when the learner has caught up.
abbrev complete_frame : RemediationFrameSnapshot whole
complete_frame = record pushed_frame {
  state = complete;
  version = 2;
  attempt_count = 1;
  latest_mastery = 1;
  last_event_id = 44;
}

abbrev back_to_planning : SessionTransition
back_to_planning = record (to_planning 45) { plan_version_id = some 60; execution_id = some 31 }

back-legal : legal_transition back_to_planning ≡ ok tt
unfolding legal_transition
back-legal = refl

unfoldable pushed_tables : Tables whole
unfolding push_remediation_frame
pushed_tables = left busy (push_remediation_frame host 1 pushed_frame 1 110 busy)

unfoldable completed_tables : Tables whole
unfolding perform pushed_tables
completed_tables =
    left pushed_tables
      (perform host source_id (updates_frame 1 complete_frame 1 1 120) pushed_tables)

unfoldable returned_tables : Tables whole
unfolding return_remediation_frame completed_tables
returned_tables =
    left completed_tables
      (return_remediation_frame host 1 complete_frame 1 back_to_planning completed_tables)

pushed_once :
    push_remediation_frame host 1 pushed_frame 1 110 busy ≡ ok (pushed_frame, pushed_tables)
unfolding pushed_tables perform lifecycle legal_transition transition_learning_session journaled
    locked_session lock_runtime_learner prior_result operation_at make_transition check_version
    check_plan check_execution check_position write_transition validate_runtime_event graph_position
    flush session_checks record_result frame_bounds frame_checks create_remediation_frame new_frame
    check_parent check_creator push_remediation_frame push_frame update_remediation_frame
    change_frame assign_frame has_provenance owned_frame return_remediation_frame return_frame
    same_frame remediation_frame close_frame restore_session
pushed_once = refl

completed_once :
    perform host source_id (updates_frame 1 complete_frame 1 1 120) pushed_tables
    ≡ ok (frame_value complete_frame, completed_tables)
unfolding pushed_tables completed_tables perform lifecycle legal_transition
    transition_learning_session journaled locked_session lock_runtime_learner prior_result
    operation_at make_transition check_version check_plan check_execution check_position
    write_transition validate_runtime_event graph_position flush session_checks record_result
    frame_bounds frame_checks create_remediation_frame new_frame check_parent check_creator
    push_remediation_frame push_frame update_remediation_frame change_frame assign_frame
    has_provenance owned_frame return_remediation_frame return_frame same_frame remediation_frame
    close_frame restore_session
completed_once = refl

returned_once :
    return_remediation_frame host 1 complete_frame 1 back_to_planning completed_tables
    ≡ ok (closed complete_frame 2 45 31 200, returned_tables)
unfolding pushed_tables completed_tables returned_tables perform lifecycle legal_transition
    transition_learning_session journaled locked_session lock_runtime_learner prior_result
    operation_at make_transition check_version check_plan check_execution check_position
    write_transition validate_runtime_event graph_position flush session_checks record_result
    frame_bounds frame_checks create_remediation_frame new_frame check_parent check_creator
    push_remediation_frame push_frame update_remediation_frame change_frame assign_frame
    has_provenance owned_frame return_remediation_frame return_frame same_frame remediation_frame
    close_frame restore_session
returned_once = refl

unreturned :
    operation_of
      (return_identity host 1 complete_frame 1 back_to_planning)
      completed_tables.operations
    ≡ none
unfolding pushed_tables completed_tables perform lifecycle legal_transition
    transition_learning_session journaled locked_session lock_runtime_learner prior_result
    operation_at make_transition check_version check_plan check_execution check_position
    write_transition validate_runtime_event graph_position flush session_checks record_result
    frame_bounds frame_checks create_remediation_frame new_frame check_parent check_creator
    push_remediation_frame push_frame update_remediation_frame change_frame assign_frame
    has_provenance owned_frame return_remediation_frame return_frame same_frame remediation_frame
    close_frame restore_session
unreturned = refl

not_updated : operation_at "frame-update" 20 45 completed_tables.operations ≡ none
unfolding pushed_tables completed_tables perform lifecycle legal_transition
    transition_learning_session journaled locked_session lock_runtime_learner prior_result
    operation_at make_transition check_version check_plan check_execution check_position
    write_transition validate_runtime_event graph_position flush session_checks record_result
    frame_bounds frame_checks create_remediation_frame new_frame check_parent check_creator
    push_remediation_frame push_frame update_remediation_frame change_frame assign_frame
    has_provenance owned_frame return_remediation_frame return_frame same_frame remediation_frame
    close_frame restore_session
not_updated = refl

unpushed : operation_of (push_identity host 1 pushed_frame 1 110) busy.operations ≡ none
unfolding operation_at
unpushed = refl

not_created : operation_of (frame_creation host 1 pushed_frame 1 110) busy.operations ≡ none
unfolding operation_at
not_created = refl

return_restores_head_example :
    (owner : LearningSessionSnapshot) × (busy.sessions 2 ≡ some owner)
    × HasHead returned_tables 2 owner.active_frame_id
return_restores_head_example =
    return_restores_head host source_id 1 pushed_frame pushed_frame complete_frame
      (closed complete_frame 2 45 31 200) 1 110 1 back_to_planning busy pushed_tables
      completed_tables returned_tables unpushed not_created pushed_once
      (commits (updates_frame 1 complete_frame 1 1 120) (frame_value complete_frame) start
        completed_once)
      refl refl refl back-legal unreturned not_updated returned_once

-- The session with an open run of two questions.
abbrev open_run : DiagnosticRunRow
open_run = record {
  id = 70;
  session_id = 2;
  learner_identity_id = 1;
  course_id = 3;
  graph_version_id = 5;
  diagnostic_policy_version = "diagnostic_v1";
  item_budget = 2;
  source_kind = event;
  source_id = 46;
  source_event_id = 46;
  state = running;
  version = 1;
  created_at = 100;
  completed_at = none;
  completion_event_id = none;
}

abbrev diagnosed : Tables whole
diagnosed = record busy { runs = put before.runs 70 (some open_run) }

abbrev reservation : Call whole
reservation = reserves_question 1 2 70 80 30 90 8 1 130

unfoldable reserved_tables : Tables whole
unfolding perform
reserved_tables = left diagnosed (perform host source_id reservation diagnosed)

reserved_once :
    perform host source_id reservation diagnosed
    ≡ ok (reservation_value (reserved_value open_run 70 80 30 90 8 1 130), reserved_tables)
unfolding reserved_tables perform reserve_diagnostic_question new_reservation run_reservations
    sort_by reservation_bounds reservation_checks journaled locked_session lock_runtime_learner
    prior_result operation_at check_version flush record_result
reserved_once = refl

diagnosed-IsBooked : IsBooked diagnosed.runs diagnosed.reservations
unfolding run_reservations sort_by
diagnosed-IsBooked = record {
  within = λ id run found. ground arith;
  known = λ id absent. refl;
  once = λ id question. ground arith;
}

History-IsBooked_example : IsBooked reserved_tables.runs reserved_tables.reservations
History-IsBooked_example =
    History-IsBooked host source_id diagnosed reserved_tables diagnosed-IsBooked (
      commits reservation (reservation_value (reserved_value open_run 70 80 30 90 8 1 130)) start
        reserved_once)

final_state_is_valid_example :
    (validate_sets (final_state 1 3 70 open_run (run_reservations 70 [])) ≡ ok tt)
    × (DiagnosticState.remaining_item_budget (final_state 1 3 70 open_run (run_reservations 70 []))
          + length (run_reservations 70 [])
        ≡ 2)
final_state_is_valid_example =
    final_state_is_valid diagnosed.runs [] 1 3 70 open_run diagnosed-IsBooked refl
