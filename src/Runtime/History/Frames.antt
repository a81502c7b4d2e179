-- ===== src/Runtime/History/Frames.antt =====
-- The operations on remediation frames, in packages/persistence/runtime.py, extend the tables.
use autonomus_academic_assis.Base.{ℕ, some, ◌≡◌, refl, sym, subst, ◌∙◌, arith, ok, some_same}
use autonomus_academic_assis.Base.Floats.{Floats}
use autonomus_academic_assis.Session.{LearningSessionSnapshot}
use autonomus_academic_assis.Remediation.Frame.{
  RemediationFrameSnapshot, FrameAttempt, frame_bounds,
}
use autonomus_academic_assis.Runtime.Tables.{Tables, RemediationFrameRow}
use autonomus_academic_assis.Runtime.Journal.{Validated, locked_session}
use autonomus_academic_assis.Runtime.Requests.{Host, unvalidated}
use autonomus_academic_assis.Runtime.Frames.{
  with_frame, frame_row, assigned, new_frame, frame_creation, create_remediation_frame,
  change_frame, frame_update, update_remediation_frame, new_frame_attempt, frame_attempt,
  record_frame_attempt,
}
use autonomus_academic_assis.Runtime.Effects.{
  new_frame-writes, change_frame-writes, new_frame_attempt-writes,
}
use autonomus_academic_assis.Runtime.History.{
  SameFrame, SameFrame-refl, Kept-put, Extends, Extends-refl,
}
use autonomus_academic_assis.Runtime.History.Once.{Journaled, journaled-Journaled}

module _ {F : Floats} where
  -- An assignment to a row of a frame extends the tables, if it keeps what never changes.
  with_frame-Extends :
      (t : Tables F) (id : ℕ) (new : RemediationFrameRow F)
      → ((old : RemediationFrameRow F) → t.frames id ≡ some old → SameFrame old new)
      → Extends t (with_frame t id new)
  with_frame-Extends t id new same =
      let e = Extends-refl t in
      record {
        learners = e.learners;
        sessions = e.sessions;
        frames = Kept-put SameFrame SameFrame-refl t.frames id new same;
        bookings = e.bookings;
        operations = e.operations;
      }

module _ {F : Floats} (host : Host F) where
  new_frame-Extends :
      (value v : RemediationFrameSnapshot F) (version at : ℕ) (owner : LearningSessionSnapshot)
      (t t1 : Tables F)
      → frame_bounds value ≡ ok tt
      → new_frame host value version at owner t ≡ ok (v, t1)
      → (Validated host.frames frame_bounds → frame_bounds v ≡ ok tt) × Extends t t1
  new_frame-Extends value v version at owner t t1 valid h =
      let (same, writes, absent, _) = new_frame-writes host value v version at owner t t1 h in
      (
        λ _. subst (λ r. frame_bounds r ≡ ok tt) (sym same) valid,
        subst (Extends t) (sym writes) (
            with_frame-Extends t value.frame_id (frame_row value at at)
              (λ old found. absurd (ground (arith, absent, found)))),
      )

  pub create_remediation_frame-Journaled :
      (learner : ℕ) (value v : RemediationFrameSnapshot F) (version at : ℕ) (t t1 : Tables F)
      → frame_bounds value ≡ ok tt
      → create_remediation_frame host learner value version at t ≡ ok (v, t1)
      → (owner : LearningSessionSnapshot) × (locked_session t learner value.session_id ≡ ok owner)
        × Journaled host.frames frame_bounds (frame_creation host learner value version at) v t t1
  unfolding create_remediation_frame
  create_remediation_frame-Journaled learner value v version at t t1 valid h =
      journaled-Journaled host.frames frame_bounds (λ t. locked_session t learner value.session_id)
        (frame_creation host learner value version at) (new_frame host value version at) v t t1
        (λ owner _ v t1. new_frame-Extends value v version at owner t t1 valid) h

  change_frame-Extends :
      (value v : RemediationFrameSnapshot F) (expected version at : ℕ)
      (owner : LearningSessionSnapshot) (t t1 : Tables F)
      → frame_bounds value ≡ ok tt
      → change_frame host value expected version at owner t ≡ ok (v, t1)
      → (Validated host.frames frame_bounds → frame_bounds v ≡ ok tt) × Extends t t1
  change_frame-Extends value v expected version at owner t t1 valid h =
      let (row, same, found, _, writes) =
        change_frame-writes host value v expected version at owner t t1 h in
      let new : RemediationFrameRow F = frame_row (assigned value row.snapshot) row.created_at at in
      (
        λ _. subst (λ r. frame_bounds r ≡ ok tt) (sym same) valid,
        subst (Extends t) (sym writes) (
            with_frame-Extends t value.frame_id new λ old is_old.
              subst (λ r. SameFrame r new) (some_same (sym found ∙ is_old))
                (record { session = refl; parent = refl })),
      )

  pub update_remediation_frame-Journaled :
      (learner : ℕ) (value v : RemediationFrameSnapshot F) (expected version at : ℕ)
      (t t1 : Tables F)
      → frame_bounds value ≡ ok tt
      → update_remediation_frame host learner value expected version at t ≡ ok (v, t1)
      → (owner : LearningSessionSnapshot) × (locked_session t learner value.session_id ≡ ok owner)
        × Journaled host.frames frame_bounds
            (frame_update host learner value expected version at)
            v
            t
            t1
  unfolding update_remediation_frame
  update_remediation_frame-Journaled learner value v expected version at t t1 valid h =
      journaled-Journaled host.frames frame_bounds (λ t. locked_session t learner value.session_id)
        (frame_update host learner value expected version at)
        (change_frame host value expected version at) v t t1
        (λ owner _ v t1. change_frame-Extends value v expected version at owner t t1 valid) h

  new_frame_attempt-Extends :
      (learner session : ℕ) (value v : FrameAttempt F) (expected : ℕ)
      (owner : LearningSessionSnapshot) (t t1 : Tables F)
      → new_frame_attempt host learner session value expected owner t ≡ ok (v, t1)
      → (Validated host.frame_attempts unvalidated → unvalidated v ≡ ok tt) × Extends t t1
  new_frame_attempt-Extends learner session value v expected owner t t1 h =
      let (_, writes) =
        new_frame_attempt-writes host learner session value v expected owner t t1 h in
      let e = Extends-refl t in
      (
        λ _. refl,
        subst (Extends t) (sym writes) (record {
          learners = e.learners;
          sessions = e.sessions;
          frames = e.frames;
          bookings = e.bookings;
          operations = e.operations;
        }),
      )

  pub record_frame_attempt-Journaled :
      (learner session : ℕ) (value v : FrameAttempt F) (expected : ℕ) (t t1 : Tables F)
      → record_frame_attempt host learner session value expected t ≡ ok (v, t1)
      → (owner : LearningSessionSnapshot) × (locked_session t learner session ≡ ok owner)
        × Journaled host.frame_attempts unvalidated
            (frame_attempt host learner value expected)
            v
            t
            t1
  unfolding record_frame_attempt
  record_frame_attempt-Journaled learner session value v expected t t1 h =
      journaled-Journaled host.frame_attempts unvalidated (λ t. locked_session t learner session)
        (frame_attempt host learner value expected)
        (new_frame_attempt host learner session value expected) v t t1
        (λ owner _ v t1. new_frame_attempt-Extends learner session value v expected owner t t1) h
