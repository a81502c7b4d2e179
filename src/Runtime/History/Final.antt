-- ===== src/Runtime/History/Final.antt =====
-- The diagnostic state that the end of a run leaves: packages/persistence/runtime.py.
use autonomus_academic_assis.Base.{
  ℕ, ◌+◌, ◌≤◌, Bool, false, Option, some, List, [], ◌∷◌, map, ◌≡◌, refl, arith, ok, length, keep,
  contains, count_if, Unique, Unique-sort_by, sort_by, ltb, is_some,
}
use autonomus_academic_assis.Triggers.Evaluate.{distinct}
use autonomus_academic_assis.Runtime.Values.{has_repeats, validate_sets}
use autonomus_academic_assis.Runtime.Tables.{DiagnosticRunRow, DiagnosticReservationRow}
use autonomus_academic_assis.Runtime.Diagnostics.{asks, run_reservations}
use autonomus_academic_assis.Runtime.Answers.{assessed_ids, final_state}
use autonomus_academic_assis.Runtime.History.Budget.{IsBooked}
use autonomus_academic_assis.Planner.State.{DiagnosticState}

has_repeats-Unique : (ids : List ℕ) → Unique ids → has_repeats ids ≡ false
has_repeats-Unique [] u = refl
has_repeats-Unique (id ∷ ids) u =
    let again = has_repeats-Unique ids u.1 in let first = u.0 in ground (arith, again, first)

distinct-Unique : (ids : List ℕ) → Unique (distinct ids)
distinct-Unique [] = tt
distinct-Unique (id ∷ ids) = let again = distinct-Unique ids in ground (arith, again)

sorted_set_lem : (ids : List ℕ) → has_repeats (sort_by ltb (distinct ids)) ≡ false
sorted_set_lem ids =
    has_repeats-Unique (sort_by ltb (distinct ids))
      (Unique-sort_by ltb (distinct ids) (distinct-Unique ids))

abbrev question_of : DiagnosticReservationRow → ℕ
question_of row = row.reservation.question_version_id

-- A question that no row asks is none of theirs.
unasked :
    (p : DiagnosticReservationRow → Bool) (question : ℕ) (rows : List DiagnosticReservationRow)
    → count_if (asks question) rows ≡ 0
    → contains question (map question_of (keep p rows)) ≡ false
unasked p question [] h = refl
unasked p question (row ∷ rows) h = let again = unasked p question rows in ground (arith, again, h)

asked_once :
    (p : DiagnosticReservationRow → Bool) (rows : List DiagnosticReservationRow)
    → ((question : ℕ) → count_if (asks question) rows ≤ 1)
    → Unique (map question_of (keep p rows))
asked_once p [] once = tt
asked_once p (row ∷ rows) once =
    let here = once (question_of row) in
    let none_later : count_if (asks (question_of row)) rows ≡ 0 = ground (arith, here) in
    let apart = unasked p (question_of row) rows none_later in
    let again = asked_once p rows λ question. let whole = once question in ground (arith, whole) in
    ground (arith, apart, again)

-- The end of a run cannot fail for its diagnostic state: where the reservations of every run are at most as
-- many as its budget and ask no question twice, the validator accepts the state, and its
-- remaining budget and the reservations add up to the budget.
pub final_state_is_valid :
    (runs : ℕ → Option DiagnosticRunRow) (rows : List DiagnosticReservationRow)
    (learner course run_id : ℕ) (run : DiagnosticRunRow)
    → IsBooked runs rows
    → runs run_id ≡ some run
    → (validate_sets (final_state learner course run_id run (run_reservations run_id rows)) ≡ ok tt)
      × (DiagnosticState.remaining_item_budget
              (final_state learner course run_id run (run_reservations run_id rows))
            + length (run_reservations run_id rows)
          ≡ run.item_budget)
unfolding validate_sets final_state
final_state_is_valid runs rows learner course run_id run booked found =
    let room = booked.within run_id run found in
    let targets = sorted_set_lem (
      map (λ (row : DiagnosticReservationRow). row.reservation.target_concept_id)
        (run_reservations run_id rows)) in
    let concepts = sorted_set_lem (assessed_ids (run_reservations run_id rows)) in
    let attempts = has_repeats-Unique _ (
      asked_once (λ row. is_some row.reservation.source_attempt_id) (run_reservations run_id rows)
        (booked.once run_id)) in
    (ground (arith, targets, concepts, attempts), ground (arith, room))
