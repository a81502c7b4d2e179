-- ===== src/Runtime/Effects.antt =====
-- What the work of an operation of packages/persistence/runtime.py writes, where it returns.
use autonomus_academic_assis.Base.{
  ℕ, ◌+◌, Bool, true, false, Option, none, some, ◌≡◌, arith, ok, is_some, ◌∷◌, any, length, ◌<◌,
  find?, same_option, then_ok, bind_ok, subst, sym,
}
use autonomus_academic_assis.Base.Floats.{Floats}
use autonomus_academic_assis.Session.{
  SessionTransition, LearningSessionSnapshot, lifecycle, same_state,
}
use autonomus_academic_assis.Remediation.Frame.{RemediationFrameSnapshot, FrameAttempt}
use autonomus_academic_assis.Runtime.Values.{
  DiagnosticRunSnapshot, DiagnosticReservation, reservation_bounds, run_validators,
  reservation_checks, is_reserved,
}
use autonomus_academic_assis.Triggers.Facts.{SourceIdentity}
use autonomus_academic_assis.Runtime.Tables.{Tables, RemediationFrameRow, DiagnosticRunRow}
use autonomus_academic_assis.Runtime.Journal.{check_version}
use autonomus_academic_assis.Runtime.Requests.{Host, flush}
use autonomus_academic_assis.Runtime.Sessions.{
  new_session, with_session, created_row, make_transition, write_transition, moved_row,
  transitioned_row,
}
use autonomus_academic_assis.Runtime.Frames.{
  new_frame, change_frame, new_frame_attempt, with_frame, frame_row, assigned, owned_frame,
  assign_frame, has_provenance,
}
use autonomus_academic_assis.Runtime.Diagnostics.{
  new_run, run_row, with_run, new_reservation, reserved_value, run_reservations, has_id, asks,
  with_reservation, attempted_value, acknowledged, owned_reservation, keeps_identity,
}
use autonomus_academic_assis.Runtime.Answers.{mark_attempted, acknowledge, end_run, ended_row}

module _ {F : Floats} (host : Host F) where
  pub new_session-writes :
      (value v : LearningSessionSnapshot) (t t1 : Tables F)
      → new_session host value t ≡ ok (v, t1)
      → (v ≡ value)
        × (t1 ≡ with_session t value.session_id (created_row value))
        × (is_some (t.sessions value.session_id) ≡ false)
  unfolding new_session flush
  new_session-writes value v t t1 h = ground (arith, h)

  write_transition-writes :
      (transition : SessionTransition) (row v : LearningSessionSnapshot) (t t1 : Tables F)
      → write_transition host transition row t ≡ ok (v, t1)
      → (v ≡ row)
        × (t1 ≡ record (with_session t transition.session_id row) {
          transitions = transition ∷ t.transitions;
        })
        × (lifecycle row ≡ ok tt)
  unfolding write_transition flush
  write_transition-writes transition row v t t1 h = ground (arith, h)

  make_transition-parts :
      (transition : SessionTransition) (graph topic : Option ℕ) (changes : Bool)
      (owner v : LearningSessionSnapshot) (t t1 : Tables F)
      → make_transition host transition graph topic changes owner t ≡ ok (v, t1)
      → (owner.version ≡ transition.from_version)
        × (same_state owner.state transition.from_state ≡ true)
        × (write_transition host transition
              (transitioned_row transition (moved_row changes graph topic owner))
              t
            ≡ ok (v, t1))
  unfolding make_transition check_version
  make_transition-parts transition graph topic changes owner v t t1 h = ground (arith, h)

  pub make_transition-writes :
      (transition : SessionTransition) (graph topic : Option ℕ) (changes : Bool)
      (owner v : LearningSessionSnapshot) (t t1 : Tables F)
      → make_transition host transition graph topic changes owner t ≡ ok (v, t1)
      → (owner.version ≡ transition.from_version)
        × (same_state owner.state transition.from_state ≡ true)
        × (v ≡ transitioned_row transition (moved_row changes graph topic owner))
        × (lifecycle v ≡ ok tt)
        × (t1 ≡ record (with_session t transition.session_id v) {
          transitions = transition ∷ t.transitions;
        })
  make_transition-writes transition graph topic changes owner v t t1 h =
      let (version, state, rest) =
        make_transition-parts transition graph topic changes owner v t t1 h in
      let row = transitioned_row transition (moved_row changes graph topic owner) in
      let (same, writes, legal) = write_transition-writes transition row v t t1 rest in
      (
        version,
        state,
        same,
        subst (λ r. lifecycle r ≡ ok tt) (sym same) legal,
        subst
            (λ r. t1 ≡ record (with_session t transition.session_id r) {
              transitions = transition ∷ t.transitions;
            })
            (sym same) writes,
      )

  pub new_frame-writes :
      (value v : RemediationFrameSnapshot F) (version at : ℕ) (owner : LearningSessionSnapshot)
      (t t1 : Tables F)
      → new_frame host value version at owner t ≡ ok (v, t1)
      → (v ≡ value)
        × (t1 ≡ with_frame t value.frame_id (frame_row value at at))
        × (is_some (t.frames value.frame_id) ≡ false)
        × (same_option value.parent_frame_id owner.active_frame_id ≡ true)
  unfolding new_frame flush
  new_frame-writes value v version at owner t t1 h = ground (arith, h)

  owned_frame-some :
      (o : Option (RemediationFrameRow F)) (session : ℕ) (row : RemediationFrameRow F)
      → owned_frame o session ≡ ok row
      → o ≡ some row
  unfolding owned_frame
  owned_frame-some none session row h = absurd (cc h)
  owned_frame-some (some found) session row h = ground (arith, h)

  assign_frame-writes :
      (value v : RemediationFrameSnapshot F) (expected at : ℕ) (owner : LearningSessionSnapshot)
      (row : RemediationFrameRow F) (t t1 : Tables F)
      → assign_frame host value expected at owner row t ≡ ok (v, t1)
      → (v ≡ value)
        × (has_provenance row.snapshot value ≡ true)
        × (t1
            ≡ with_frame t value.frame_id
                (frame_row (assigned value row.snapshot) row.created_at at))
  unfolding assign_frame flush
  assign_frame-writes value v expected at owner row t t1 h = ground (arith, h)

  change_frame-parts :
      (value v : RemediationFrameSnapshot F) (expected version at : ℕ)
      (owner : LearningSessionSnapshot) (t t1 : Tables F)
      → change_frame host value expected version at owner t ≡ ok (v, t1)
      → (row : RemediationFrameRow F) × (owned_frame (t.frames value.frame_id) value.session_id
          ≡ ok row)
        × (assign_frame host value expected at owner row t ≡ ok (v, t1))
  unfolding change_frame
  change_frame-parts value v expected version at owner t t1 h =
      let (_, rest) = then_ok (check_version owner.version version) _ h in
      bind_ok (owned_frame (t.frames value.frame_id) value.session_id)
        (λ row. assign_frame host value expected at owner row t) rest

  pub change_frame-writes :
      (value v : RemediationFrameSnapshot F) (expected version at : ℕ)
      (owner : LearningSessionSnapshot) (t t1 : Tables F)
      → change_frame host value expected version at owner t ≡ ok (v, t1)
      → (row : RemediationFrameRow F) × (v ≡ value)
        × (t.frames value.frame_id ≡ some row)
        × (has_provenance row.snapshot value ≡ true)
        × (t1
            ≡ with_frame t value.frame_id
                (frame_row (assigned value row.snapshot) row.created_at at))
  change_frame-writes value v expected version at owner t t1 h =
      let (row, found, rest) = change_frame-parts value v expected version at owner t t1 h in
      let (same, provenance, writes) =
        assign_frame-writes value v expected at owner row t t1 rest in
      (row, same, owned_frame-some _ _ row found, provenance, writes)

  pub new_frame_attempt-writes :
      (learner session : ℕ) (value v : FrameAttempt F) (expected : ℕ)
      (owner : LearningSessionSnapshot) (t t1 : Tables F)
      → new_frame_attempt host learner session value expected owner t ≡ ok (v, t1)
      → (v ≡ value) × (t1 ≡ record t { frame_attempts = value ∷ t.frame_attempts })
  unfolding new_frame_attempt flush
  new_frame_attempt-writes learner session value v expected owner t t1 h = ground (arith, h)

  pub new_run-writes :
      (source_id : SourceIdentity → ℕ) (value v : DiagnosticRunSnapshot)
      (owner : LearningSessionSnapshot) (t t1 : Tables F)
      → new_run host source_id value owner t ≡ ok (v, t1)
      → (v ≡ value)
        × (t1 ≡ with_run t value.diagnostic.diagnostic_run_id (run_row value owner))
        × (is_some (t.runs value.diagnostic.diagnostic_run_id) ≡ false)
  unfolding new_run flush
  new_run-writes source_id value v owner t t1 h = ground (arith, h)

  pub new_reservation-writes :
      (session run_id reservation execution question concept version at : ℕ)
      (owner : LearningSessionSnapshot) (v : DiagnosticReservation) (t t1 : Tables F)
      → new_reservation host session run_id reservation execution question concept version at owner
          t
        ≡ ok (v, t1)
      → (run : DiagnosticRunRow) × (t.runs run_id ≡ some run)
        × (length (run_reservations run_id t.reservations) < run.item_budget)
        × (any (asks question) (run_reservations run_id t.reservations) ≡ false)
        × (any (has_id reservation) t.reservations ≡ false)
        × (v
            ≡ reserved_value run run_id reservation execution question concept
                (length (run_reservations run_id t.reservations) + 1)
                at)
        × (reservation_bounds v ≡ ok tt)
        × (t1 ≡ record t {
          reservations = (record { session_id = session; reservation = v }) ∷ t.reservations;
        })
  unfolding new_reservation flush
  new_reservation-writes session run_id reservation execution question concept version at owner v t
        t1 h =
      ground (arith, h)

  pub mark_attempted-writes :
      (learner session reservation attempt event expected at : ℕ) (owner : LearningSessionSnapshot)
      (v : DiagnosticReservation) (t t1 : Tables F)
      → mark_attempted host learner session reservation attempt event expected at owner t
        ≡ ok (v, t1)
      → (row : DiagnosticReservation) × (reservation_bounds row ≡ ok tt)
        × (is_reserved row.state ≡ true)
        × (v ≡ attempted_value attempt (expected + 1) at row)
        × (reservation_checks v ≡ true)
        × (owned_reservation (find? (has_id reservation) t.reservations) session ≡ ok row)
        × (t1 ≡ with_reservation t reservation (attempted_value attempt (expected + 1) at))
  unfolding mark_attempted flush
  mark_attempted-writes learner session reservation attempt event expected at owner v t t1 h =
      ground (arith, h)

  pub acknowledge-writes :
      (session : ℕ) (value v : DiagnosticReservation) (expected event : ℕ)
      (owner : LearningSessionSnapshot) (t t1 : Tables F)
      → acknowledge host session value expected event owner t ≡ ok (v, t1)
      → (row : DiagnosticReservation) × (v ≡ value)
        × (keeps_identity row value ≡ true)
        × (owned_reservation (find? (has_id value.reservation_id) t.reservations) session ≡ ok row)
        × (t1 ≡ with_reservation t value.reservation_id (acknowledged value))
  unfolding acknowledge flush
  acknowledge-writes session value v expected event owner t t1 h = ground (arith, h)

  pub end_run-writes :
      (learner session run_id expected event at : ℕ) (cancels : Bool)
      (owner : LearningSessionSnapshot) (v : DiagnosticRunSnapshot) (t t1 : Tables F)
      → end_run host learner session run_id expected event at cancels owner t ≡ ok (v, t1)
      → (run : DiagnosticRunRow) × (t.runs run_id ≡ some run)
        × (run_validators v ≡ ok tt)
        × (t1 ≡ with_run t run_id (ended_row v run))
  unfolding end_run flush
  end_run-writes learner session run_id expected event at cancels owner v t t1 h = ground (arith, h)
