-- ===== src/Runtime/Answers.antt =====
-- The answers to reserved questions and the end of a diagnostic run, in packages/persistence/runtime.py.
use autonomus_academic_assis.Base.{
  ℕ, ◌+◌, ◌-◌, Bool, not, ◌&&◌, ◌||◌, some, List, [], ◌∷◌, ◌++◌, map, ◌==◌, ltb, is_some, Result,
  ok, runtime_conflict, runtime_stale, runtime_validation, fail_if, raise_if, ◌>>=◌, ◌>>◌, any,
  keep, find?, length, sort_by, if◌then◌else◌,
}
use autonomus_academic_assis.Base.Floats.{Floats}
use autonomus_academic_assis.Session.{LearningSessionSnapshot}
use autonomus_academic_assis.Planner.State.{DiagnosticState}
use autonomus_academic_assis.Triggers.Evaluate.{distinct}
use autonomus_academic_assis.Runtime.Values.{
  DiagnosticRunSnapshot, DiagnosticReservation, complete, cancelled, is_running, run_validators,
  is_reserved, is_assessed, reservation_bounds, reservation_checks,
}
use autonomus_academic_assis.Runtime.Tables.{Tables, DiagnosticRunRow, DiagnosticReservationRow}
use autonomus_academic_assis.Runtime.Journal.{
  Identity, check_version, locked_session, validate_runtime_event, journaled,
}
use autonomus_academic_assis.Runtime.Requests.{
  Host, marks_attempted, acknowledges, completes_run, flush,
}
use autonomus_academic_assis.Runtime.Diagnostics.{
  run_checks, has_id, run_reservations, attempted_value, acknowledged, keeps_identity, with_run,
  with_reservation, check_attempt, owned_run, owned_reservation,
}

module _ {F : Floats} (host : Host F) where
  unfoldable pub mark_attempted :
      (learner_id session_id reservation_id source_attempt_id event_id : ℕ)
      (expected_version attempted_at : ℕ)
      → LearningSessionSnapshot
      → Tables F
      → Result (DiagnosticReservation × Tables F)
  mark_attempted learner_id session_id reservation_id source_attempt_id event_id expected_version
        attempted_at owner t =
      do
        row ← owned_reservation (find? (has_id reservation_id) t.reservations) session_id
        check_version row.version expected_version
        fail_if (not (is_reserved row.state))
            (runtime_stale "Diagnostic reservation is no longer reservable")
        check_attempt t learner_id source_attempt_id
        validate_runtime_event t event_id owner
        reservation_bounds row
        let assign = attempted_value source_attempt_id (expected_version + 1) attempted_at
        let value = assign row
        t1 ← flush host (reservation_checks value) (with_reservation t reservation_id assign)
        ok (value, t1)

  abbrev pub attempt_identity :
      (learner_id reservation_id source_attempt_id event_id expected_version attempted_at : ℕ)
      → Identity
  attempt_identity learner_id reservation_id source_attempt_id event_id expected_version
        attempted_at =
      record {
        kind = "diagnostic-attempt";
        scope_id = reservation_id;
        source_id = source_attempt_id;
        learner_id = learner_id;
        request = host.canonical_request (
            marks_attempted reservation_id source_attempt_id event_id expected_version
              attempted_at);
      }

  unfoldable pub mark_diagnostic_reservation_attempted :
      (learner_id session_id reservation_id source_attempt_id event_id : ℕ)
      (expected_version attempted_at : ℕ)
      → Tables F
      → Result (DiagnosticReservation × Tables F)
  mark_diagnostic_reservation_attempted learner_id session_id reservation_id source_attempt_id
        event_id expected_version attempted_at t =
      journaled host.reservations (λ t. locked_session t learner_id session_id)
        (attempt_identity learner_id reservation_id source_attempt_id event_id expected_version
          attempted_at)
        (mark_attempted learner_id session_id reservation_id source_attempt_id event_id
          expected_version attempted_at)
        t

  unfoldable pub acknowledge :
      (session_id : ℕ)
      → DiagnosticReservation
      → (expected_version event_id : ℕ) → LearningSessionSnapshot
      → Tables F
      → Result (DiagnosticReservation × Tables F)
  acknowledge session_id value expected_version event_id owner t = do
    row ← owned_reservation (find? (has_id value.reservation_id) t.reservations) session_id
    check_version row.version expected_version
    fail_if (is_assessed row.state || not (value.version == expected_version + 1))
        (runtime_stale "Diagnostic reservation is already terminal or changed")
    reservation_bounds row
    fail_if (not (keeps_identity row value)) (runtime_conflict "Reservation identity cannot change")
    validate_runtime_event t event_id owner
    t1 ←
        flush host (reservation_checks (acknowledged value row))
          (with_reservation t value.reservation_id (acknowledged value))
    ok (value, t1)

  abbrev pub acknowledgement_identity :
      (learner_id : ℕ) → DiagnosticReservation → (expected_version event_id : ℕ) → Identity
  acknowledgement_identity learner_id value expected_version event_id = record {
    kind = "diagnostic-ack";
    scope_id = value.reservation_id;
    source_id = event_id;
    learner_id = learner_id;
    request = host.canonical_request (acknowledges value expected_version);
  }

  unfoldable pub acknowledge_diagnostic_reservation :
      (learner_id session_id : ℕ)
      → DiagnosticReservation
      → (expected_version event_id : ℕ) → Tables F
      → Result (DiagnosticReservation × Tables F)
  acknowledge_diagnostic_reservation learner_id session_id value expected_version event_id t =
      journaled host.reservations (λ t. locked_session t learner_id session_id)
        (acknowledgement_identity learner_id value expected_version event_id)
        (acknowledge session_id value expected_version event_id) t

-- `{... for row in reservations for item in row.assessed_concept_ids}`, with repetitions
abbrev pub assessed_ids : List DiagnosticReservationRow → List ℕ
assessed_ids [] = []
assessed_ids (row ∷ rows) = row.reservation.assessed_concept_ids ++ assessed_ids rows

-- The diagnostic state that a run leaves.
unfoldable pub final_state :
    (learner_id course_id run_id : ℕ)
    → DiagnosticRunRow
    → List DiagnosticReservationRow
    → DiagnosticState
final_state learner_id course_id run_id run rows = record {
  diagnostic_run_id = run_id;
  learner_id = learner_id;
  course_id = course_id;
  graph_version_id = run.graph_version_id;
  diagnostic_policy_version = run.diagnostic_policy_version;
  item_budget = run.item_budget;
  selected_concept_ids =
      sort_by ltb (
        distinct
          (map (λ (row : DiagnosticReservationRow). row.reservation.target_concept_id) rows));
  attempted_question_version_ids =
      map (λ (row : DiagnosticReservationRow). row.reservation.question_version_id)
        (keep (λ row. is_some row.reservation.source_attempt_id) rows);
  diagnostic_assessed_concept_ids = sort_by ltb (distinct (assessed_ids rows));
  remaining_item_budget = run.item_budget - length rows;
}

abbrev pub final_run :
    (learner_id course_id run_id session_id event_id completed_at : ℕ)
    → (cancels : Bool) → DiagnosticRunRow
    → List DiagnosticReservationRow
    → DiagnosticRunSnapshot
final_run learner_id course_id run_id session_id event_id completed_at cancels run rows = record {
  diagnostic = final_state learner_id course_id run_id run rows;
  session_id = session_id;
  source = record { kind = run.source_kind; source_id = run.source_id };
  source_event_id = run.source_event_id;
  state = if cancels then cancelled else complete;
  version = run.version + 1;
  created_at = run.created_at;
  completed_at = some completed_at;
  completion_event_id = some event_id;
}

-- The fields that the end of a run assigns.
abbrev pub ended_row : DiagnosticRunSnapshot → DiagnosticRunRow → DiagnosticRunRow
ended_row result run = record run {
  state = result.state;
  version = result.version;
  completed_at = result.completed_at;
  completion_event_id = result.completion_event_id;
}

module _ {F : Floats} (host : Host F) where
  unfoldable pub end_run :
      (learner_id session_id run_id expected_version event_id completed_at : ℕ)
      → (cancels : Bool) → LearningSessionSnapshot
      → Tables F
      → Result (DiagnosticRunSnapshot × Tables F)
  end_run learner_id session_id run_id expected_version event_id completed_at cancels owner t = do
    run ← owned_run (t.runs run_id) session_id "Diagnostic run is missing"
    check_version run.version expected_version
    fail_if (not (is_running run.state)) (runtime_stale "Diagnostic run is already terminal")
    let rows = run_reservations run_id t.reservations
    fail_if
        (not cancels
          && any (λ (row : DiagnosticReservationRow). not (is_assessed row.reservation.state)) rows)
        (runtime_validation "Diagnostic completion cannot discard pending reservations")
    validate_runtime_event t event_id owner
    let result =
        final_run learner_id owner.course_id run_id session_id event_id completed_at cancels run
          rows
    raise_if (ltb run.item_budget (length rows)) "Input should be greater than or equal to 0"
    run_validators result
    t1 ← flush host (run_checks (ended_row result run)) (with_run t run_id (ended_row result run))
    ok (result, t1)

  abbrev pub completion_identity :
      (learner_id run_id expected_version event_id completed_at : ℕ) → (cancels : Bool) → Identity
  completion_identity learner_id run_id expected_version event_id completed_at cancels = record {
    kind = "diagnostic-complete";
    scope_id = run_id;
    source_id = event_id;
    learner_id = learner_id;
    request = host.canonical_request (completes_run expected_version event_id completed_at cancels);
  }

  unfoldable pub complete_diagnostic_run :
      (learner_id session_id run_id expected_version event_id completed_at : ℕ)
      → (cancels : Bool) → Tables F
      → Result (DiagnosticRunSnapshot × Tables F)
  complete_diagnostic_run learner_id session_id run_id expected_version event_id completed_at
        cancels t =
      journaled host.runs (λ t. locked_session t learner_id session_id)
        (completion_identity learner_id run_id expected_version event_id completed_at cancels)
        (end_run learner_id session_id run_id expected_version event_id completed_at cancels) t
