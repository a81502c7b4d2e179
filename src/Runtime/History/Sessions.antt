-- ===== src/Runtime/History/Sessions.antt =====
-- The creation and the transitions of sessions, in packages/persistence/runtime.py, extend the tables.
use autonomus_academic_assis.Base.{
  ℕ, Bool, true, false, Option, some, ◌≡◌, refl, sym, ap, ◌∙◌, subst, arith, ok, if◌then◌else◌,
  ◌==◌, some_same,
}
use autonomus_academic_assis.Base.Floats.{Floats}
use autonomus_academic_assis.Session.{
  SessionState, SessionTransition, LearningSessionSnapshot, lifecycle, legal_transition, created,
  planning, retrieving, teaching, checkpoint, assessing, diagnosing, replanning, advance, paused,
  needs_state, complete, state_place, same_state,
}
use autonomus_academic_assis.Session.Path.{Transitions, arrived, moved}
use autonomus_academic_assis.Runtime.Tables.{Tables}
use autonomus_academic_assis.Runtime.Journal.{Validated, lock_runtime_learner, locked_session}
use autonomus_academic_assis.Runtime.Requests.{Host}
use autonomus_academic_assis.Runtime.Sessions.{
  created_row, moved_row, transitioned_row, with_session, creation_identity,
  create_learning_session, new_session, make_transition, transition_identity,
  transition_learning_session,
}
use autonomus_academic_assis.Runtime.Effects.{new_session-writes, make_transition-writes}
use autonomus_academic_assis.Runtime.History.{
  Evolves, Evolves-refl, Kept-put, Extends, Extends-refl,
}
use autonomus_academic_assis.Runtime.History.Locks.{locked_session-parts}
use autonomus_academic_assis.Runtime.History.Once.{Journaled, journaled-Journaled}

-- The state at a place.
unfoldable state_at : ℕ → SessionState
state_at n =
    if n == 0
    then created
    else if n == 1
    then planning
    else if n == 2
    then retrieving
    else if n == 3
    then teaching
    else if n == 4
    then checkpoint
    else if n == 5
    then assessing
    else if n == 6
    then diagnosing
    else if n == 7
    then replanning
    else if n == 8
    then advance
    else if n == 9
    then paused
    else if n == 10
    then needs_state
    else complete

state_at-place : (s : SessionState) → state_at (state_place s) ≡ s
unfolding state_at
state_at-place created = refl
state_at-place planning = refl
state_at-place retrieving = refl
state_at-place teaching = refl
state_at-place checkpoint = refl
state_at-place assessing = refl
state_at-place diagnosing = refl
state_at-place replanning = refl
state_at-place advance = refl
state_at-place paused = refl
state_at-place needs_state = refl
state_at-place complete = refl

pub same_state_iff : (a b : SessionState) → same_state a b ≡ true → a ≡ b
same_state_iff a b h =
    let places : state_place a ≡ state_place b = ground (arith, h) in
    sym (state_at-place a) ∙ ap state_at places ∙ state_at-place b

moved_row-Evolves :
    (changes : Bool) (graph topic : Option ℕ) (row : LearningSessionSnapshot)
    → Evolves row (moved_row changes graph topic row)
moved_row-Evolves false graph topic row = Evolves-refl row
moved_row-Evolves true graph topic row = record {
  same_learner = refl;
  same_course = refl;
  same_creation = refl;
  path = (0, arrived);
}

-- The row after a legal transition from its state and version.
transitioned_row-Evolves :
    (transition : SessionTransition) (changes : Bool) (graph topic : Option ℕ)
    (row : LearningSessionSnapshot)
    → legal_transition transition ≡ ok tt
    → row.version ≡ transition.from_version
    → row.state ≡ transition.from_state
    → Evolves row (transitioned_row transition (moved_row changes graph topic row))
transitioned_row-Evolves transition changes graph topic row legal version state =
    let kept = moved_row-Evolves changes graph topic row in
    record {
      same_learner = kept.same_learner;
      same_course = kept.same_course;
      same_creation = kept.same_creation;
      path = (
        1,
        subst (λ s. Transitions transition.to_state transition.to_version s row.version 1)
            (sym state)
            (subst
              (λ v. Transitions transition.to_state transition.to_version transition.from_state v 1)
              (sym version) (moved transition legal arrived)),
      );
    }

module _ {F : Floats} where
  -- An assignment to a row of a session extends the tables, if the row evolves.
  pub with_session-Extends :
      (t : Tables F) (id : ℕ) (new : LearningSessionSnapshot)
      → ((old : LearningSessionSnapshot) → t.sessions id ≡ some old → Evolves old new)
      → Extends t (with_session t id new)
  with_session-Extends t id new evolves =
      let e = Extends-refl t in
      record {
        learners = e.learners;
        sessions = Kept-put Evolves Evolves-refl t.sessions id new evolves;
        frames = e.frames;
        bookings = e.bookings;
        operations = e.operations;
      }

module _ {F : Floats} (host : Host F) where
  new_session-Extends :
      (value v : LearningSessionSnapshot) (t t1 : Tables F)
      → lifecycle value ≡ ok tt
      → new_session host value t ≡ ok (v, t1)
      → (Validated host.sessions lifecycle → lifecycle v ≡ ok tt) × Extends t t1
  new_session-Extends value v t t1 valid h =
      let (same, writes, absent) = new_session-writes host value v t t1 h in
      (
        λ _. subst (λ r. lifecycle r ≡ ok tt) (sym same) valid,
        subst (Extends t) (sym writes) (
            with_session-Extends t value.session_id (created_row value)
              (λ old found. absurd (ground (arith, absent, found)))),
      )

  pub create_learning_session-Journaled :
      (value v : LearningSessionSnapshot) (t t1 : Tables F)
      → lifecycle value ≡ ok tt
      → create_learning_session host value t ≡ ok (v, t1)
      → (owner : Unit {0}) × (lock_runtime_learner t value.learner_id ≡ ok owner)
        × Journaled host.sessions lifecycle (creation_identity host value) v t t1
  unfolding create_learning_session
  create_learning_session-Journaled value v t t1 valid h =
      journaled-Journaled host.sessions lifecycle (λ t. lock_runtime_learner t value.learner_id)
        (creation_identity host value) (λ _. new_session host value) v t t1
        (λ _ _ v t1. new_session-Extends value v t t1 valid) h

  make_transition-Extends :
      (learner : ℕ) (transition : SessionTransition) (graph topic : Option ℕ) (changes : Bool)
      (owner v : LearningSessionSnapshot) (t t1 : Tables F)
      → legal_transition transition ≡ ok tt
      → locked_session t learner transition.session_id ≡ ok owner
      → make_transition host transition graph topic changes owner t ≡ ok (v, t1)
      → (Validated host.sessions lifecycle → lifecycle v ≡ ok tt) × Extends t t1
  make_transition-Extends learner transition graph topic changes owner v t t1 legal locked h =
      let (version, state, same, valid, writes) =
        make_transition-writes host transition graph topic changes owner v t t1 h in
      let (_, found, _) = locked_session-parts t learner transition.session_id owner locked in
      let evolves =
        transitioned_row-Evolves transition changes graph topic owner legal version
          (same_state_iff owner.state transition.from_state state) in
      let e = with_session-Extends t transition.session_id v λ old is_old.
        subst (Evolves old) (sym same) (
          subst (λ r. Evolves r (transitioned_row transition (moved_row changes graph topic owner)))
            (some_same (sym found ∙ is_old)) evolves) in
      (
        λ _. valid,
        subst (Extends t) (sym writes) (record {
          learners = e.learners;
          sessions = e.sessions;
          frames = e.frames;
          bookings = e.bookings;
          operations = e.operations;
        }),
      )

  pub transition_learning_session-Journaled :
      (learner : ℕ) (transition : SessionTransition) (graph topic : Option ℕ) (changes : Bool)
      (v : LearningSessionSnapshot) (t t1 : Tables F)
      → legal_transition transition ≡ ok tt
      → transition_learning_session host learner transition graph topic changes t ≡ ok (v, t1)
      → (owner : LearningSessionSnapshot) × (locked_session t learner transition.session_id
          ≡ ok owner)
        × Journaled host.sessions lifecycle
            (transition_identity host learner transition graph topic changes)
            v
            t
            t1
  unfolding transition_learning_session
  transition_learning_session-Journaled learner transition graph topic changes v t t1 legal h =
      journaled-Journaled host.sessions lifecycle
        (λ t. locked_session t learner transition.session_id)
        (transition_identity host learner transition graph topic changes)
        (make_transition host transition graph topic changes) v t t1
        (λ owner locked v t1.
          make_transition-Extends learner transition graph topic changes owner v t t1 legal locked)
        h
