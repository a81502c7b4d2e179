-- ===== src/Runtime/History/Budget.antt =====
-- The budget of a diagnostic run: packages/persistence/runtime.py.
use autonomus_academic_assis.Base.{
  ℕ, suc, ◌≤◌, ◌<◌, Bool, false, Option, some, List, [], ◌∷◌, map, ◌≡◌, refl, sym, subst, ◌∙◌, ap,
  arith, is_some, length, any, keep, count_if, count_if-sort_by, length-sort_by, put, Bool-cases,
  inl, inr, ◌==◌, some_same, if◌then◌else◌,
}
use autonomus_academic_assis.Base.Floats.{Floats}
use autonomus_academic_assis.Runtime.Values.{DiagnosticReservation}
use autonomus_academic_assis.Triggers.Facts.{SourceIdentity}
use autonomus_academic_assis.Runtime.Tables.{Tables, DiagnosticRunRow, DiagnosticReservationRow}
use autonomus_academic_assis.Runtime.Diagnostics.{
  is_of_run, asks, slot_before, run_reservations, replaced,
}
use autonomus_academic_assis.Runtime.Requests.{Host}
use autonomus_academic_assis.Runtime.Calls.{History}
use autonomus_academic_assis.Runtime.Bookings.{
  KeepsQuestion, Bookings, unchanged, booked, assigned, created, ended,
}
use autonomus_academic_assis.Runtime.History.Replay.{History-Extends}

-- The reservations of a run are at most as many as its budget, none where there is no run, and ask no
-- question twice.
pub record IsBooked (runs : ℕ → Option DiagnosticRunRow) (rows : List DiagnosticReservationRow)
    : Type 0 where
  pub within :
      (id : ℕ) (run : DiagnosticRunRow)
      → runs id ≡ some run
      → length (run_reservations id rows) ≤ run.item_budget
  pub known : (id : ℕ) → is_some (runs id) ≡ false → length (run_reservations id rows) ≡ 0
  pub once : (id question : ℕ) → count_if (asks question) (run_reservations id rows) ≤ 1

module _ {A : Type 0} where
  none_counted : (p : A → Bool) (xs : List A) → any p xs ≡ false → count_if p xs ≡ 0
  none_counted p [] h = refl
  none_counted p (x ∷ xs) h = let again = none_counted p xs in ground (arith, h, again)

run_reservations-length :
    (id : ℕ) (rows : List DiagnosticReservationRow)
    → length (run_reservations id rows) ≡ length (keep (is_of_run id) rows)
unfolding run_reservations
run_reservations-length id rows = length-sort_by slot_before (keep (is_of_run id) rows)

run_reservations-count :
    (p : DiagnosticReservationRow → Bool) (id : ℕ) (rows : List DiagnosticReservationRow)
    → count_if p (run_reservations id rows) ≡ count_if p (keep (is_of_run id) rows)
unfolding run_reservations
run_reservations-count p id rows = count_if-sort_by p slot_before (keep (is_of_run id) rows)

-- A row more, of its run.
run_reservations-here :
    (row : DiagnosticReservationRow) (rows : List DiagnosticReservationRow)
    → length (run_reservations row.reservation.diagnostic_run_id (row ∷ rows))
      ≡ suc (length (run_reservations row.reservation.diagnostic_run_id rows))
run_reservations-here row rows =
    let more = run_reservations-length row.reservation.diagnostic_run_id (row ∷ rows) in
    let before = run_reservations-length row.reservation.diagnostic_run_id rows in
    ground (arith, more, before)

run_reservations-elsewhere :
    (id : ℕ) (row : DiagnosticReservationRow) (rows : List DiagnosticReservationRow)
    → (row.reservation.diagnostic_run_id == id) ≡ false
    → length (run_reservations id (row ∷ rows)) ≡ length (run_reservations id rows)
run_reservations-elsewhere id row rows off =
    let more = run_reservations-length id (row ∷ rows) in
    let before = run_reservations-length id rows in ground (arith, more, before, off)

run_reservations-asked :
    (id question : ℕ) (row : DiagnosticReservationRow) (rows : List DiagnosticReservationRow)
    → count_if (asks question) (run_reservations id (row ∷ rows)) ≡ (
        if is_of_run id row
        then count_if (asks question) (row ∷ run_reservations id rows)
        else count_if (asks question) (run_reservations id rows))
run_reservations-asked id question row rows =
    let more = run_reservations-count (asks question) id (row ∷ rows) in
    let before = run_reservations-count (asks question) id rows in ground (arith, more, before)

-- An assignment that keeps run and question changes neither count.
module _ (target : ℕ) (assign : DiagnosticReservation → DiagnosticReservation)
    (keeps : KeepsQuestion assign) where
  replaced-keep :
      (id : ℕ) (rows : List DiagnosticReservationRow)
      → length (keep (is_of_run id) (map (replaced target assign) rows))
        ≡ length (keep (is_of_run id) rows)
  replaced-keep id [] = refl
  replaced-keep id (row ∷ rows) =
      let again = replaced-keep id rows in
      let same = keeps.run row.reservation in ground (arith, again, same)

  replaced-count :
      (id question : ℕ) (rows : List DiagnosticReservationRow)
      → count_if (asks question) (keep (is_of_run id) (map (replaced target assign) rows))
        ≡ count_if (asks question) (keep (is_of_run id) rows)
  replaced-count id question [] = refl
  replaced-count id question (row ∷ rows) =
      let again = replaced-count id question rows in
      let same = keeps.run row.reservation in
      let asked = keeps.question row.reservation in ground (arith, again, same, asked)

  assigned-IsBooked :
      (runs : ℕ → Option DiagnosticRunRow) (rows : List DiagnosticReservationRow)
      → IsBooked runs rows
      → IsBooked runs (map (replaced target assign) rows)
  assigned-IsBooked runs rows b =
      let changed : (id : ℕ)
          → length (run_reservations id (map (replaced target assign) rows))
            ≡ length (run_reservations id rows) =
        λ id.
          run_reservations-length id (map (replaced target assign) rows)
          ∙ replaced-keep id rows
          ∙ sym (run_reservations-length id rows) in
      record {
        within = λ id run found.
            subst (λ n. n ≤ run.item_budget) (sym (changed id)) (b.within id run found);
        known = λ id absent. changed id ∙ b.known id absent;
        once = λ id question.
            subst (λ n. n ≤ 1)
              (sym (
                run_reservations-count (asks question) id (map (replaced target assign) rows)
                ∙ replaced-count id question rows
                ∙ sym (run_reservations-count (asks question) id rows)))
              (b.once id question);
      }

row_added-IsBooked :
    (runs : ℕ → Option DiagnosticRunRow) (rows : List DiagnosticReservationRow)
    (run : DiagnosticRunRow) (row : DiagnosticReservationRow)
    → runs row.reservation.diagnostic_run_id ≡ some run
    → length (run_reservations row.reservation.diagnostic_run_id rows) < run.item_budget
    → any
        (asks row.reservation.question_version_id)
        (run_reservations row.reservation.diagnostic_run_id rows)
      ≡ false
    → IsBooked runs rows
    → IsBooked runs (row ∷ rows)
row_added-IsBooked runs rows run row found room fresh b = record {
  within = λ id other is_run. elim (Bool-cases (row.reservation.diagnostic_run_id == id)) [
    | inl at ↦
        let key : row.reservation.diagnostic_run_id ≡ id = ground (arith, at) in
        let same : run ≡ other = some_same (sym found ∙ ap runs key ∙ is_run) in
        subst (λ k. length (run_reservations k (row ∷ rows)) ≤ other.item_budget) key
          (subst
            (λ (r : DiagnosticRunRow).
              length (run_reservations row.reservation.diagnostic_run_id (row ∷ rows))
              ≤ r.item_budget)
            same (let here = run_reservations-here row rows in ground (arith, here, room)))
    | inr off ↦
        let there = run_reservations-elsewhere id row rows off in
        let before = b.within id other is_run in ground (arith, there, before)
  ];
  known = λ id absent. elim (Bool-cases (row.reservation.diagnostic_run_id == id)) [
    | inl at ↦
        let key : row.reservation.diagnostic_run_id ≡ id = ground (arith, at) in
        absurd (cc (absent, ap is_some (sym (ap runs key) ∙ found)))
    | inr off ↦ run_reservations-elsewhere id row rows off ∙ b.known id absent
  ];
  once = λ id question. elim (Bool-cases (row.reservation.diagnostic_run_id == id)) [
    | inl at ↦
        let key : row.reservation.diagnostic_run_id ≡ id = ground (arith, at) in
        let asked = run_reservations-asked id question row rows in
        let before = b.once id question in
        let none_yet : any (asks row.reservation.question_version_id) (run_reservations id rows)
            ≡ false =
          subst
            (λ k. any (asks row.reservation.question_version_id) (run_reservations k rows) ≡ false)
            key fresh in
        elim (Bool-cases (asks question row)) [
          | inl same ↦
              let is_same : row.reservation.question_version_id ≡ question = ground (arith, same) in
              let zero_yet =
                none_counted (asks question) (run_reservations id rows)
                  (subst (λ q. any (asks q) (run_reservations id rows) ≡ false) is_same none_yet) in
              ground (arith, asked, at, same, zero_yet)
          | inr other ↦ ground (arith, asked, at, other, before)
        ]
    | inr off ↦
        let asked = run_reservations-asked id question row rows in
        let before = b.once id question in ground (arith, asked, off, before)
  ];
}

-- A row of a run that is written anew keeps the budget, or is the first of its run.
written-IsBooked :
    (runs : ℕ → Option DiagnosticRunRow) (rows : List DiagnosticReservationRow) (id : ℕ)
    (run : DiagnosticRunRow)
    → length (run_reservations id rows) ≤ run.item_budget
    → IsBooked runs rows
    → IsBooked (put runs id (some run)) rows
written-IsBooked runs rows id run room b = record {
  within = λ k other is_run. elim (Bool-cases (k == id)) [
    | inl at ↦
        let key : k ≡ id = ground (arith, at) in
        let same : run ≡ other = ground (arith, at, is_run) in
        subst (λ (r : DiagnosticRunRow). length (run_reservations k rows) ≤ r.item_budget) same
          (subst (λ j. length (run_reservations j rows) ≤ run.item_budget) (sym key) room)
    | inr off ↦ b.within k other (ground (arith, off, is_run))
  ];
  known = λ k absent. elim (Bool-cases (k == id)) [
    | inl at ↦ absurd (ground (arith, at, absent))
    | inr off ↦ b.known k (ground (arith, off, absent))
  ];
  once = b.once;
}

Bookings-IsBooked :
    {runs : ℕ → Option DiagnosticRunRow} {rows : List DiagnosticReservationRow}
    {runs' : ℕ → Option DiagnosticRunRow} {rows' : List DiagnosticReservationRow}
    → IsBooked runs rows
    → Bookings runs rows runs' rows'
    → IsBooked runs' rows'
Bookings-IsBooked b unchanged = b
Bookings-IsBooked b (booked run row steps found room fresh) =
    row_added-IsBooked _ _ run row found room fresh (Bookings-IsBooked b steps)
Bookings-IsBooked b (assigned id assign steps keeps) =
    assigned-IsBooked id assign keeps _ _ (Bookings-IsBooked b steps)
Bookings-IsBooked b (created id run steps absent) =
    let before = Bookings-IsBooked b steps in
    let none_yet = before.known id absent in
    written-IsBooked _ _ id run (ground (arith, none_yet)) before
Bookings-IsBooked b (ended id run run' steps found budget) =
    let before = Bookings-IsBooked b steps in
    let room = before.within id run found in
    written-IsBooked _ _ id run' (ground (arith, room, budget)) before

module _ {F : Floats} (host : Host F) (source_id : SourceIdentity → ℕ) where
  -- No history overdraws a diagnostic run or asks it a question twice: if the reservations of every run
  -- are at most as many as its budget, none where there is no run, and ask no question twice,
  -- they are so after any history.
  pub History-IsBooked :
      (t t1 : Tables F)
      → IsBooked t.runs t.reservations
      → History host source_id t t1
      → IsBooked t1.runs t1.reservations
  History-IsBooked t t1 b history =
      let extends = History-Extends host source_id history in Bookings-IsBooked b extends.bookings
