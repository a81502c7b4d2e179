-- ===== src/Runtime/History/Locks.antt =====
-- The locks of packages/persistence/runtime.py: what they give, and that tables that extend others give
-- them again.
use autonomus_academic_assis.Base.{ℕ, true, Option, none, some, ◌≡◌, ◌∙◌, arith, ok}
use autonomus_academic_assis.Base.Floats.{Floats}
use autonomus_academic_assis.Session.{LearningSessionSnapshot}
use autonomus_academic_assis.Runtime.Tables.{Tables}
use autonomus_academic_assis.Runtime.Journal.{lock_runtime_learner, owned_session, locked_session}
use autonomus_academic_assis.Runtime.History.{Extends}

owned_session-some :
    (o : Option LearningSessionSnapshot) (learner : ℕ) (owner : LearningSessionSnapshot)
    → owned_session o learner ≡ ok owner
    → (o ≡ some owner) × (owner.learner_id ≡ learner)
owned_session-some none learner owner h = absurd (cc h)
owned_session-some (some row) learner owner h = ground (arith, h)

module _ {F : Floats} where
  pub locked_session-parts :
      (t : Tables F) (learner session : ℕ) (owner : LearningSessionSnapshot)
      → locked_session t learner session ≡ ok owner
      → (t.learners learner ≡ true)
        × (t.sessions session ≡ some owner)
        × (owner.learner_id ≡ learner)
  unfolding locked_session lock_runtime_learner
  locked_session-parts t learner session owner h =
      let known : t.learners learner ≡ true = ground (arith, h) in
      let owned : owned_session (t.sessions session) learner ≡ ok owner = ground (arith, h) in
      let (found, same) = owned_session-some (t.sessions session) learner owner owned in
      (known, found, same)

  pub locked_session-found :
      (t : Tables F) (learner session : ℕ) (owner : LearningSessionSnapshot)
      → t.learners learner ≡ true
      → t.sessions session ≡ some owner
      → owner.learner_id ≡ learner
      → locked_session t learner session ≡ ok owner
  unfolding locked_session lock_runtime_learner
  locked_session-found t learner session owner known found same = ground (arith, known, found, same)

  pub lock_runtime_learner-Extends :
      (t t' : Tables F) (learner : ℕ) (owner : Unit {0})
      → Extends t t'
      → lock_runtime_learner t learner ≡ ok owner
      → lock_runtime_learner t' learner ≡ ok tt
  unfolding lock_runtime_learner
  lock_runtime_learner-Extends t t' learner owner e locked =
      let known : t.learners learner ≡ true = ground (arith, locked) in
      let still = e.learners learner known in ground (arith, still)

  pub locked_session-Extends :
      (t t' : Tables F) (learner session : ℕ) (owner : LearningSessionSnapshot)
      → Extends t t'
      → locked_session t learner session ≡ ok owner
      → (owner' : LearningSessionSnapshot) × (locked_session t' learner session ≡ ok owner')
  locked_session-Extends t t' learner session owner e locked =
      let (known, found, same) = locked_session-parts t learner session owner locked in
      let (owner', still, evolves) = e.sessions.row session owner found in
      (
        owner',
        locked_session-found t' learner session owner' (e.learners learner known) still
            (evolves.same_learner ∙ same),
      )
