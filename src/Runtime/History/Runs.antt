-- ===== src/Runtime/History/Runs.antt =====
-- The operations on diagnostic runs and reservations, in packages/persistence/runtime.py, extend the
-- tables: they write no session, no frame and no other operation's result.
use autonomus_academic_assis.Base.{
  ℕ, ◌+◌, Bool, true, false, Option, some, List, ◌≡◌, refl, sym, subst, ◌∙◌, arith, ok, ap, any,
  length, ◌<◌, ◌∷◌, false,
}
use autonomus_academic_assis.Base.Floats.{Floats}
use autonomus_academic_assis.Session.{LearningSessionSnapshot}
use autonomus_academic_assis.Runtime.Values.{
  DiagnosticRunSnapshot, DiagnosticReservation, reservation_bounds, run_validators,
  reservation_checks, is_reserved,
}
use autonomus_academic_assis.Triggers.Facts.{SourceIdentity}
use autonomus_academic_assis.Runtime.Tables.{Tables, DiagnosticRunRow, DiagnosticReservationRow}
use autonomus_academic_assis.Runtime.Journal.{locked_session}
use autonomus_academic_assis.Runtime.Requests.{Host}
use autonomus_academic_assis.Runtime.Diagnostics.{
  new_run, run_creation, create_diagnostic_run, new_reservation, reservation_identity,
  reserve_diagnostic_question, attempted_value, acknowledged, run_reservations, asks,
}
use autonomus_academic_assis.Runtime.Answers.{
  mark_attempted, attempt_identity, mark_diagnostic_reservation_attempted, acknowledge,
  acknowledgement_identity, acknowledge_diagnostic_reservation, end_run, completion_identity,
  complete_diagnostic_run,
}
use autonomus_academic_assis.Runtime.Effects.{
  new_run-writes, new_reservation-writes, mark_attempted-writes, acknowledge-writes, end_run-writes,
}
use autonomus_academic_assis.Runtime.Bookings.{
  Bookings, unchanged, booked, assigned, created, ended,
}
use autonomus_academic_assis.Runtime.History.{Extends, Extends-refl}
use autonomus_academic_assis.Runtime.History.Once.{Journaled, journaled-Journaled}

-- The reservation of a row that was reserved and passes the check constraints is valid.
attempted_value-bounds :
    (row : DiagnosticReservation) (attempt version at : ℕ)
    → reservation_bounds row ≡ ok tt
    → is_reserved row.state ≡ true
    → reservation_checks (attempted_value attempt version at row) ≡ true
    → reservation_bounds (attempted_value attempt version at row) ≡ ok tt
unfolding reservation_bounds reservation_checks
attempted_value-bounds row attempt version at valid is_new checks =
    ground (arith, valid, is_new, checks)

reserved-Bookings :
    (runs : ℕ → Option DiagnosticRunRow) (rows : List DiagnosticReservationRow) (session run_id : ℕ)
    (run : DiagnosticRunRow) (v : DiagnosticReservation) {question : ℕ}
    → v.diagnostic_run_id ≡ run_id
    → v.question_version_id ≡ question
    → runs run_id ≡ some run
    → length (run_reservations run_id rows) < run.item_budget
    → any (asks question) (run_reservations run_id rows) ≡ false
    → Bookings runs rows runs ((record { session_id = session; reservation = v }) ∷ rows)
reserved-Bookings runs rows session run_id run v of_run asked found room fresh =
    booked run (record { session_id = session; reservation = v }) unchanged (ap runs of_run ∙ found)
      (subst (λ r. length (run_reservations r rows) < run.item_budget) (sym of_run) room)
      (subst (λ r. any (asks v.question_version_id) (run_reservations r rows) ≡ false) (sym of_run)
        (subst (λ q. any (asks q) (run_reservations run_id rows) ≡ false) (sym asked) fresh))

module _ {F : Floats} where
  with_runs-Extends :
      (t : Tables F) (runs : ℕ → Option DiagnosticRunRow)
      (reservations : List DiagnosticReservationRow)
      → Bookings t.runs t.reservations runs reservations
      → Extends t (record t { runs = runs; reservations = reservations })
  with_runs-Extends t runs reservations bookings =
      let e = Extends-refl t in
      record {
        learners = e.learners;
        sessions = e.sessions;
        frames = e.frames;
        bookings = bookings;
        operations = e.operations;
      }

module _ {F : Floats} (host : Host F) where
  pub create_diagnostic_run-Journaled :
      (source_id : SourceIdentity → ℕ) (value v : DiagnosticRunSnapshot) (t t1 : Tables F)
      → run_validators value ≡ ok tt
      → create_diagnostic_run host source_id value t ≡ ok (v, t1)
      → (owner : LearningSessionSnapshot) × (locked_session t value.diagnostic.learner_id
            value.session_id
          ≡ ok owner)
        × Journaled host.runs run_validators (run_creation host source_id value) v t t1
  unfolding create_diagnostic_run
  create_diagnostic_run-Journaled source_id value v t t1 valid h =
      journaled-Journaled host.runs run_validators
        (λ t. locked_session t value.diagnostic.learner_id value.session_id)
        (run_creation host source_id value) (new_run host source_id value) v t t1
        (λ owner _ v t1 h.
          let (same, writes, absent) = new_run-writes host source_id value v owner t t1 h in
          (
            λ _. subst (λ r. run_validators r ≡ ok tt) (sym same) valid,
            subst (Extends t) (sym writes) (
                with_runs-Extends t _ t.reservations
                  (created value.diagnostic.diagnostic_run_id _ unchanged absent)),
          ))
        h

  pub reserve_diagnostic_question-Journaled :
      (learner session run reservation execution question concept version at : ℕ)
      (v : DiagnosticReservation) (t t1 : Tables F)
      → reserve_diagnostic_question host learner session run reservation execution question concept
          version at t
        ≡ ok (v, t1)
      → (owner : LearningSessionSnapshot) × (locked_session t learner session ≡ ok owner)
        × Journaled host.reservations reservation_bounds
            (reservation_identity host learner run reservation execution question concept version
              at)
            v
            t
            t1
  unfolding reserve_diagnostic_question
  reserve_diagnostic_question-Journaled learner session run reservation execution question concept
        version at v t t1 h =
      journaled-Journaled host.reservations reservation_bounds
        (λ t. locked_session t learner session)
        (reservation_identity host learner run reservation execution question concept version at)
        (new_reservation host session run reservation execution question concept version at) v t t1
        (λ owner _ v t1 h.
          let (row, found, room, fresh, _, same, valid, writes) =
            new_reservation-writes host session run reservation execution question concept version
              at owner v t t1 h in
          (
            λ _. valid,
            subst (Extends t) (sym writes) (
                with_runs-Extends t t.runs _ (
                  reserved-Bookings t.runs t.reservations session run row v
                    (ap DiagnosticReservation.diagnostic_run_id same)
                    (ap DiagnosticReservation.question_version_id same) found room fresh)),
          ))
        h

  pub mark_diagnostic_reservation_attempted-Journaled :
      (learner session reservation attempt event expected at : ℕ) (v : DiagnosticReservation)
      (t t1 : Tables F)
      → mark_diagnostic_reservation_attempted host learner session reservation attempt event
          expected at t
        ≡ ok (v, t1)
      → (owner : LearningSessionSnapshot) × (locked_session t learner session ≡ ok owner)
        × Journaled host.reservations reservation_bounds
            (attempt_identity host learner reservation attempt event expected at)
            v
            t
            t1
  unfolding mark_diagnostic_reservation_attempted
  mark_diagnostic_reservation_attempted-Journaled learner session reservation attempt event expected
        at v t t1 h =
      journaled-Journaled host.reservations reservation_bounds
        (λ t. locked_session t learner session)
        (attempt_identity host learner reservation attempt event expected at)
        (mark_attempted host learner session reservation attempt event expected at) v t t1
        (λ owner _ v t1 h.
          let (row, valid, is_new, same, checks, _, writes) =
            mark_attempted-writes host learner session reservation attempt event expected at owner v
              t t1 h in
          (
            λ _.
                subst (λ r. reservation_bounds r ≡ ok tt) (sym same)
                  (attempted_value-bounds row attempt (expected + 1) at valid is_new
                    (subst (λ r. reservation_checks r ≡ true) same checks)),
            subst (Extends t) (sym writes) (
                with_runs-Extends t t.runs _ (
                  assigned reservation (attempted_value attempt (expected + 1) at) unchanged
                    (record { run = λ _. refl; question = λ _. refl }))),
          ))
        h

  pub acknowledge_diagnostic_reservation-Journaled :
      (learner session : ℕ) (value v : DiagnosticReservation) (expected event : ℕ) (t t1 : Tables F)
      → reservation_bounds value ≡ ok tt
      → acknowledge_diagnostic_reservation host learner session value expected event t ≡ ok (v, t1)
      → (owner : LearningSessionSnapshot) × (locked_session t learner session ≡ ok owner)
        × Journaled host.reservations reservation_bounds
            (acknowledgement_identity host learner value expected event)
            v
            t
            t1
  unfolding acknowledge_diagnostic_reservation
  acknowledge_diagnostic_reservation-Journaled learner session value v expected event t t1 valid h =
      journaled-Journaled host.reservations reservation_bounds
        (λ t. locked_session t learner session)
        (acknowledgement_identity host learner value expected event)
        (acknowledge host session value expected event) v t t1
        (λ owner _ v t1 h.
          let (_, same, _, _, writes) =
            acknowledge-writes host session value v expected event owner t t1 h in
          (
            λ _. subst (λ r. reservation_bounds r ≡ ok tt) (sym same) valid,
            subst (Extends t) (sym writes) (
                with_runs-Extends t t.runs _ (
                  assigned value.reservation_id (acknowledged value) unchanged
                    (record { run = λ _. refl; question = λ _. refl }))),
          ))
        h

  pub complete_diagnostic_run-Journaled :
      (learner session run expected event at : ℕ) (cancels : Bool) (v : DiagnosticRunSnapshot)
      (t t1 : Tables F)
      → complete_diagnostic_run host learner session run expected event at cancels t ≡ ok (v, t1)
      → (owner : LearningSessionSnapshot) × (locked_session t learner session ≡ ok owner)
        × Journaled host.runs run_validators
            (completion_identity host learner run expected event at cancels)
            v
            t
            t1
  unfolding complete_diagnostic_run
  complete_diagnostic_run-Journaled learner session run expected event at cancels v t t1 h =
      journaled-Journaled host.runs run_validators (λ t. locked_session t learner session)
        (completion_identity host learner run expected event at cancels)
        (end_run host learner session run expected event at cancels) v t t1
        (λ owner _ v t1 h.
          let (row, found, valid, writes) =
            end_run-writes host learner session run expected event at cancels owner v t t1 h in
          (
            λ _. valid,
            subst (Extends t) (sym writes)
                (with_runs-Extends t _ t.reservations (ended run row _ unchanged found refl)),
          ))
        h
