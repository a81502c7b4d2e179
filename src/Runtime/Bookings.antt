-- ===== src/Runtime/Bookings.antt =====
-- The steps in which the operations of packages/persistence/runtime.py change diagnostic runs and
-- reservations.
use autonomus_academic_assis.Base.{
  ℕ, ◌<◌, Option, some, List, ◌∷◌, map, false, ◌≡◌, is_some, put, any, length,
}
use autonomus_academic_assis.Runtime.Values.{DiagnosticReservation}
use autonomus_academic_assis.Runtime.Tables.{DiagnosticRunRow, DiagnosticReservationRow}
use autonomus_academic_assis.Runtime.Diagnostics.{run_reservations, asks, replaced}

-- The fields that no assignment to a reservation changes.
pub record KeepsQuestion (assign : DiagnosticReservation → DiagnosticReservation) : Type 0 where
  pub run :
      (value : DiagnosticReservation) → (assign value).diagnostic_run_id ≡ value.diagnostic_run_id
  pub question :
      (value : DiagnosticReservation)
      → (assign value).question_version_id ≡ value.question_version_id

-- Steps from the rows of runs and reservations to others.
pub data Bookings (runs : ℕ → Option DiagnosticRunRow) (rows : List DiagnosticReservationRow)
    : (ℕ → Option DiagnosticRunRow) → List DiagnosticReservationRow → Type 0 where
  unchanged : Bookings runs rows runs rows
  booked :
      {runs' : ℕ → Option DiagnosticRunRow} {rows' : List DiagnosticReservationRow}
      (run : DiagnosticRunRow) (row : DiagnosticReservationRow)
      → Bookings runs rows runs' rows'
      → runs' row.reservation.diagnostic_run_id ≡ some run
      → length (run_reservations row.reservation.diagnostic_run_id rows') < run.item_budget
      → any
          (asks row.reservation.question_version_id)
          (run_reservations row.reservation.diagnostic_run_id rows')
        ≡ false
      → Bookings runs rows runs' (row ∷ rows')
  assigned :
      {runs' : ℕ → Option DiagnosticRunRow} {rows' : List DiagnosticReservationRow} (id : ℕ)
      (assign : DiagnosticReservation → DiagnosticReservation)
      → Bookings runs rows runs' rows'
      → KeepsQuestion assign
      → Bookings runs rows runs' (map (replaced id assign) rows')
  created :
      {runs' : ℕ → Option DiagnosticRunRow} {rows' : List DiagnosticReservationRow} (id : ℕ)
      (run : DiagnosticRunRow)
      → Bookings runs rows runs' rows'
      → is_some (runs' id) ≡ false
      → Bookings runs rows (put runs' id (some run)) rows'
  ended :
      {runs' : ℕ → Option DiagnosticRunRow} {rows' : List DiagnosticReservationRow} (id : ℕ)
      (run run' : DiagnosticRunRow)
      → Bookings runs rows runs' rows'
      → runs' id ≡ some run
      → run'.item_budget ≡ run.item_budget
      → Bookings runs rows (put runs' id (some run')) rows'

pub Bookings-trans :
    {f : ℕ → Option DiagnosticRunRow} {xs : List DiagnosticReservationRow}
    {g : ℕ → Option DiagnosticRunRow} {ys : List DiagnosticReservationRow}
    {h : ℕ → Option DiagnosticRunRow} {zs : List DiagnosticReservationRow}
    → Bookings f xs g ys
    → Bookings g ys h zs
    → Bookings f xs h zs
Bookings-trans p unchanged = p
Bookings-trans p (booked run row q found room fresh) =
    booked run row (Bookings-trans p q) found room fresh
Bookings-trans p (assigned id assign q keeps) = assigned id assign (Bookings-trans p q) keeps
Bookings-trans p (created id run q absent) = created id run (Bookings-trans p q) absent
Bookings-trans p (ended id run run' q found budget) =
    ended id run run' (Bookings-trans p q) found budget
