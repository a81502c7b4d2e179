-- ===== src/Runtime/Values.antt =====
-- The diagnostic values of packages/domain/runtime.py: runs, their states and the reservations of
-- their questions, with the validators. A UUID is a number, and so is a time.
use autonomus_academic_assis.Base.{
  ℕ, Bool, true, false, not, ◌&&◌, ◌||◌, Option, none, some, List, [], ◌∷◌, ltb, leb, is_some,
  Result, raise_if, contains, ◌>>◌,
}
use autonomus_academic_assis.Remediation.Frame.{differ}
use autonomus_academic_assis.Planner.State.{DiagnosticState}
use autonomus_academic_assis.Triggers.Facts.{SourceIdentity}

-- `DiagnosticRunState`
pub data RunState : Type 0 where
  running complete cancelled : RunState

abbrev pub is_running : RunState → Bool
is_running running = true
is_running _ = false

pub record DiagnosticRunSnapshot : Type 0 where
  pub diagnostic : DiagnosticState
  pub session_id : ℕ
  pub source : SourceIdentity
  pub source_event_id : ℕ
  pub state : RunState
  pub version : ℕ
  pub created_at : ℕ
  pub completed_at : Option ℕ
  pub completion_event_id : Option ℕ

-- `at is not None and at < start`
abbrev pub is_before : Option ℕ → (start : ℕ) → Bool
is_before none start = false
is_before (some at) start = ltb at start

-- `len(set(ids)) != len(ids)`
abbrev pub has_repeats : List ℕ → Bool
has_repeats [] = false
has_repeats (id ∷ ids) = contains id ids || has_repeats ids

-- The validator `validate_sets` of packages/domain/adaptation.py.
unfoldable pub validate_sets : DiagnosticState → Result (Unit {0})
validate_sets state = do
  raise_if (has_repeats state.selected_concept_ids) "Diagnostic selected concepts must be unique"
  raise_if (has_repeats state.attempted_question_version_ids)
      "Diagnostic attempted questions must be unique"
  raise_if (has_repeats state.diagnostic_assessed_concept_ids)
      "Diagnostic assessed concepts must be unique"
  raise_if (ltb state.item_budget state.remaining_item_budget)
      "Remaining diagnostic budget cannot exceed total budget"

-- The validator `completion`.
unfoldable pub completion : DiagnosticRunSnapshot → Result (Unit {0})
completion run = do
  raise_if
      (differ (not (is_running run.state)) (is_some run.completed_at)
        || differ (not (is_running run.state)) (is_some run.completion_event_id))
      "Closed diagnostic run requires completion time and event"
  raise_if (is_before run.completed_at run.created_at)
      "Diagnostic completion cannot precede creation"

-- The validators of a run and of its diagnostic state.
unfoldable pub run_validators : DiagnosticRunSnapshot → Result (Unit {0})
unfolding validate_sets completion
run_validators run = do validate_sets run.diagnostic; completion run

pub data ReservationState : Type 0 where
  reserved attempted assessed : ReservationState

abbrev pub is_reserved : ReservationState → Bool
is_reserved reserved = true
is_reserved _ = false

abbrev pub is_assessed : ReservationState → Bool
is_assessed assessed = true
is_assessed _ = false

pub record DiagnosticReservation : Type 0 where
  pub reservation_id : ℕ
  pub diagnostic_run_id : ℕ
  pub graph_version_id : ℕ
  pub execution_id : ℕ
  pub question_version_id : ℕ
  pub target_concept_id : ℕ
  pub item_budget : ℕ
  pub slot : ℕ
  pub state : ReservationState
  pub version : ℕ
  pub source_attempt_id : Option ℕ
  pub source_evidence_id : Option ℕ
  pub completion_event_id : Option ℕ
  pub assessed_concept_ids : List ℕ
  pub reserved_at : ℕ
  pub attempted_at : Option ℕ
  pub assessed_at : Option ℕ

abbrev pub is_empty : List ℕ → Bool
is_empty [] = true
is_empty (id ∷ ids) = false

-- `at is not None and (start is None or at < start)`
abbrev pub precedes_start : Option ℕ → (start : Option ℕ) → Bool
precedes_start none start = false
precedes_start (some at) none = true
precedes_start (some at) (some start) = ltb at start

-- The validator `reservation_bounds`.
unfoldable pub reservation_bounds : DiagnosticReservation → Result (Unit {0})
reservation_bounds value = do
  raise_if (ltb value.item_budget value.slot) "Reservation slot exceeds the run budget"
  raise_if
      (differ (not (is_reserved value.state)) (is_some value.source_attempt_id)
        || differ (not (is_reserved value.state)) (is_some value.attempted_at))
      "Attempted reservation requires the original attempt and time"
  raise_if
      (differ (is_assessed value.state) (is_some value.source_evidence_id)
        || differ (is_assessed value.state) (is_some value.completion_event_id)
        || differ (is_assessed value.state) (is_some value.assessed_at)
        || differ (is_assessed value.state) (not (is_empty value.assessed_concept_ids)))
      "Assessed reservation requires source evidence, event, concepts and time"
  raise_if (has_repeats value.assessed_concept_ids) "Assessed concepts must be unique"
  raise_if (is_before value.attempted_at value.reserved_at)
      "Diagnostic attempt cannot precede reservation"
  raise_if (precedes_start value.assessed_at value.attempted_at)
      "Diagnostic assessment cannot precede its attempt"

-- The check constraints of `diagnostic_reservations` (packages/persistence/runtime_models.py). SQL
-- passes a comparison with a NULL `attempted_at`; the constraints on the state refuse such a row.
unfoldable pub reservation_checks : DiagnosticReservation → Bool
reservation_checks row =
    leb 1 row.version
    && leb 1 row.slot
    && leb row.slot row.item_budget
    && not (differ (not (is_reserved row.state)) (is_some row.source_attempt_id))
    && not (differ (is_some row.source_attempt_id) (is_some row.attempted_at))
    && not (is_before row.attempted_at row.reserved_at)
    && not (differ (is_assessed row.state) (is_some row.source_evidence_id))
    && not (differ (is_some row.source_evidence_id) (is_some row.completion_event_id))
    && not (differ (is_some row.completion_event_id) (is_some row.assessed_at))
    && not (differ (is_assessed row.state) (not (is_empty row.assessed_concept_ids)))
    && not (precedes_start row.assessed_at row.attempted_at)
