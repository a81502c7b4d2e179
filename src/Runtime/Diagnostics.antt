-- ===== src/Runtime/Diagnostics.antt =====
-- The diagnostic runs and reservations of packages/persistence/runtime.py.
use autonomus_academic_assis.Base.{
  ℕ, String, ◌+◌, Bool, not, ◌&&◌, ◌||◌, Option, none, some, List, [], ◌∷◌, map, ◌==◌, ltb, leb,
  is_some, same_option, Result, ok, raise, runtime_conflict, runtime_stale, runtime_validation,
  integrity_error, fail_if, ◌>>=◌, ◌>>◌, put, any, keep, length, sort_by, if◌then◌else◌,
}
use autonomus_academic_assis.Base.Floats.{Floats}
use autonomus_academic_assis.Session.{LearningSessionSnapshot}
use autonomus_academic_assis.Runtime.Values.{
  DiagnosticRunSnapshot, DiagnosticReservation, is_running, reserved, attempted, reservation_bounds,
  reservation_checks, is_empty,
}
use autonomus_academic_assis.Triggers.Facts.{SourceIdentity}
use autonomus_academic_assis.Runtime.Tables.{Tables, DiagnosticRunRow, DiagnosticReservationRow}
use autonomus_academic_assis.Runtime.Journal.{
  Identity, check_version, locked_session, validate_runtime_event, journaled,
}
use autonomus_academic_assis.Runtime.Requests.{Host, reserves, flush}

-- The row of a new run.
abbrev pub run_row : DiagnosticRunSnapshot → LearningSessionSnapshot → DiagnosticRunRow
run_row value owner = record {
  id = value.diagnostic.diagnostic_run_id;
  session_id = value.session_id;
  learner_identity_id = owner.learner_id;
  course_id = owner.course_id;
  graph_version_id = value.diagnostic.graph_version_id;
  diagnostic_policy_version = value.diagnostic.diagnostic_policy_version;
  item_budget = value.diagnostic.item_budget;
  source_kind = value.source.kind;
  source_id = value.source.source_id;
  source_event_id = value.source_event_id;
  state = value.state;
  version = 1;
  created_at = value.created_at;
  completed_at = none;
  completion_event_id = none;
}

-- The check constraints of `diagnostic_runs`.
unfoldable pub run_checks : DiagnosticRunRow → Bool
run_checks row = leb 1 row.version && leb row.item_budget 12 && elim row.completed_at [
  | none ↦ is_running row.state && not (is_some row.completion_event_id)
  | some at ↦ not (is_running row.state) && is_some row.completion_event_id && leb row.created_at at
]

abbrev pub is_of_run : (run_id : ℕ) → DiagnosticReservationRow → Bool
is_of_run run_id row = row.reservation.diagnostic_run_id == run_id

abbrev pub has_id : (reservation_id : ℕ) → DiagnosticReservationRow → Bool
has_id reservation_id row = row.reservation.reservation_id == reservation_id

abbrev pub asks : (question_version_id : ℕ) → DiagnosticReservationRow → Bool
asks question_version_id row = row.reservation.question_version_id == question_version_id

abbrev pub slot_before : DiagnosticReservationRow → DiagnosticReservationRow → Bool
slot_before a b = ltb a.reservation.slot b.reservation.slot

-- The reservations of a run, by their slots.
unfoldable pub run_reservations :
    (run_id : ℕ) → List DiagnosticReservationRow → List DiagnosticReservationRow
run_reservations run_id rows = sort_by slot_before (keep (is_of_run run_id) rows)

abbrev pub reserved_value :
    DiagnosticRunRow
    → (run_id reservation_id execution_id question_version_id target_concept_id slot
        reserved_at : ℕ)
    → DiagnosticReservation
reserved_value run run_id reservation_id execution_id question_version_id target_concept_id slot
      reserved_at =
    record {
      reservation_id = reservation_id;
      diagnostic_run_id = run_id;
      graph_version_id = run.graph_version_id;
      execution_id = execution_id;
      question_version_id = question_version_id;
      target_concept_id = target_concept_id;
      item_budget = run.item_budget;
      slot = slot;
      state = reserved;
      version = 1;
      source_attempt_id = none;
      source_evidence_id = none;
      completion_event_id = none;
      assessed_concept_ids = [];
      reserved_at = reserved_at;
      attempted_at = none;
      assessed_at = none;
    }

abbrev pub attempted_value :
    (source_attempt_id version attempted_at : ℕ) → DiagnosticReservation → DiagnosticReservation
attempted_value source_attempt_id version attempted_at row = record row {
  state = attempted;
  version = version;
  source_attempt_id = some source_attempt_id;
  attempted_at = some attempted_at;
}

-- The fields that an acknowledgement assigns.
abbrev pub acknowledged : DiagnosticReservation → DiagnosticReservation → DiagnosticReservation
acknowledged value row = record row {
  state = value.state;
  version = value.version;
  source_attempt_id = value.source_attempt_id;
  source_evidence_id = value.source_evidence_id;
  completion_event_id = value.completion_event_id;
  assessed_concept_ids = value.assessed_concept_ids;
  attempted_at = value.attempted_at;
  assessed_at = value.assessed_at;
}

-- Whether every field of `immutable` is equal.
unfoldable pub keeps_identity : DiagnosticReservation → DiagnosticReservation → Bool
keeps_identity before value =
    (before.reservation_id == value.reservation_id)
    && (before.diagnostic_run_id == value.diagnostic_run_id)
    && (before.graph_version_id == value.graph_version_id)
    && (before.execution_id == value.execution_id)
    && (before.question_version_id == value.question_version_id)
    && (before.target_concept_id == value.target_concept_id)
    && (before.item_budget == value.item_budget)
    && (before.slot == value.slot)
    && (before.reserved_at == value.reserved_at)

-- Assigns fields of the row with the identifier.
abbrev pub replaced :
    (reservation_id : ℕ)
    → (DiagnosticReservation → DiagnosticReservation)
    → DiagnosticReservationRow
    → DiagnosticReservationRow
replaced reservation_id assign row =
    if has_id reservation_id row then record row { reservation = assign row.reservation } else row

module _ {F : Floats} where
  abbrev pub with_run : Tables F → (run_id : ℕ) → DiagnosticRunRow → Tables F
  with_run t run_id run = record t { runs = put t.runs run_id (some run) }

  abbrev pub with_reservation :
      Tables F → (id : ℕ) → (DiagnosticReservation → DiagnosticReservation) → Tables F
  with_reservation t id assign = record t { reservations = map (replaced id assign) t.reservations }

  -- The attempt of a reservation is the learner's.
  unfoldable pub check_attempt : Tables F → (learner_id source_attempt_id : ℕ) → Result (Unit {0})
  check_attempt t learner_id source_attempt_id = elim (t.attempts source_attempt_id) [
    | none ↦ raise (runtime_validation "Diagnostic source attempt is missing or out of scope")
    | some attempt ↦
        fail_if (not (attempt.learner_identity_id == learner_id))
          (runtime_validation "Diagnostic source attempt is missing or out of scope")
  ]

-- The run of the session, if it is one; otherwise the operation fails with the message.
abbrev pub owned_run :
    Option DiagnosticRunRow → (session_id : ℕ) → (message : String) → Result DiagnosticRunRow
owned_run none session_id message = raise (runtime_validation message)
owned_run (some run) session_id message =
    if run.session_id == session_id then ok run else raise (runtime_validation message)

-- The reservation of the session, if it is one.
abbrev pub owned_reservation :
    Option DiagnosticReservationRow → (session_id : ℕ) → Result DiagnosticReservation
owned_reservation none session_id = raise (runtime_validation "Diagnostic reservation is missing")
owned_reservation (some row) session_id =
    if row.session_id == session_id
    then ok row.reservation
    else raise (runtime_validation "Diagnostic reservation is missing")

module _ {F : Floats} (host : Host F) (source_id : SourceIdentity → ℕ) where
  unfoldable pub new_run :
      DiagnosticRunSnapshot
      → LearningSessionSnapshot
      → Tables F
      → Result (DiagnosticRunSnapshot × Tables F)
  new_run value owner t = do
    fail_if
        (not (value.version == 1)
          || not (is_running value.state)
          || not (value.diagnostic.course_id == owner.course_id)
          || not (same_option owner.graph_version_id (some value.diagnostic.graph_version_id))
          || not (is_empty value.diagnostic.selected_concept_ids)
          || not (is_empty value.diagnostic.attempted_question_version_ids)
          || not (is_empty value.diagnostic.diagnostic_assessed_concept_ids)
          || not (value.diagnostic.remaining_item_budget == value.diagnostic.item_budget))
        (runtime_validation "New diagnostic run requires matching empty source state")
    validate_runtime_event t value.source_event_id owner
    fail_if (is_some (t.runs value.diagnostic.diagnostic_run_id))
        (integrity_error "diagnostic_runs")
    t1 ←
        flush host (run_checks (run_row value owner))
          (with_run t value.diagnostic.diagnostic_run_id (run_row value owner))
    ok (value, t1)

  abbrev pub run_creation : DiagnosticRunSnapshot → Identity
  run_creation value = record {
    kind = "diagnostic-create";
    scope_id = value.diagnostic.diagnostic_run_id;
    source_id = source_id value.source;
    learner_id = value.diagnostic.learner_id;
    request = host.runs.dump value;
  }

  unfoldable pub create_diagnostic_run :
      DiagnosticRunSnapshot → Tables F → Result (DiagnosticRunSnapshot × Tables F)
  create_diagnostic_run value t =
      journaled host.runs (λ t. locked_session t value.diagnostic.learner_id value.session_id)
        (run_creation value) (new_run value) t

module _ {F : Floats} (host : Host F) where
  unfoldable pub new_reservation :
      (session_id run_id reservation_id execution_id question_version_id : ℕ)
      (target_concept_id expected_run_version reserved_at : ℕ)
      → LearningSessionSnapshot
      → Tables F
      → Result (DiagnosticReservation × Tables F)
  new_reservation session_id run_id reservation_id execution_id question_version_id
        target_concept_id expected_run_version reserved_at owner t =
      do
        run ←
            owned_run (t.runs run_id) session_id
              "Reservation requires an open session diagnostic run"
        fail_if (not (is_running run.state))
            (runtime_validation "Reservation requires an open session diagnostic run")
        check_version run.version expected_run_version
        fail_if (not (same_option owner.graph_version_id (some run.graph_version_id)))
            (runtime_stale "Diagnostic graph no longer matches the session")
        let rows = run_reservations run_id t.reservations
        fail_if (leb run.item_budget (length rows))
            (runtime_validation "Diagnostic reservation capacity exhausted")
        fail_if (any (asks question_version_id) rows)
            (runtime_conflict "Question is already reserved under another request")
        let value =
            reserved_value run run_id reservation_id execution_id question_version_id
              target_concept_id (length rows + 1) reserved_at
        reservation_bounds value
        fail_if (any (has_id reservation_id) t.reservations)
            (integrity_error "diagnostic_reservations")
        t1 ← flush host (reservation_checks value) (record t {
          reservations = (record { session_id = session_id; reservation = value }) ∷ t.reservations;
        })
        ok (value, t1)

  abbrev pub reservation_identity :
      (learner_id run_id reservation_id execution_id question_version_id : ℕ)
      (target_concept_id expected_run_version reserved_at : ℕ)
      → Identity
  reservation_identity learner_id run_id reservation_id execution_id question_version_id
        target_concept_id expected_run_version reserved_at =
      record {
        kind = "diagnostic-reserve";
        scope_id = run_id;
        source_id = question_version_id;
        learner_id = learner_id;
        request = host.canonical_request (
            reserves run_id reservation_id execution_id question_version_id target_concept_id
              expected_run_version reserved_at);
      }

  unfoldable pub reserve_diagnostic_question :
      (learner_id session_id run_id reservation_id execution_id question_version_id : ℕ)
      (target_concept_id expected_run_version reserved_at : ℕ)
      → Tables F
      → Result (DiagnosticReservation × Tables F)
  reserve_diagnostic_question learner_id session_id run_id reservation_id execution_id
        question_version_id target_concept_id expected_run_version reserved_at t =
      journaled host.reservations (λ t. locked_session t learner_id session_id)
        (reservation_identity learner_id run_id reservation_id execution_id question_version_id
          target_concept_id expected_run_version reserved_at)
        (new_reservation session_id run_id reservation_id execution_id question_version_id
          target_concept_id expected_run_version reserved_at)
        t
