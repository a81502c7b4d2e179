-- ===== src/Runtime/Recovers.antt =====
-- When `recover_deferred_trigger` of packages/persistence/runtime.py takes a trigger out of its deferral.
use autonomus_academic_assis.Base.{ℕ, ◌≡◌, ◌≢◌, true, Option, none, some, put, ok}
use autonomus_academic_assis.Base.Floats.{Floats}
use autonomus_academic_assis.Session.{LearningSessionSnapshot}
use autonomus_academic_assis.Triggers.Facts.{
  TriggerIdentity, deferred, identity, RuntimePolicy, TriggerFacts, TriggerEvaluation,
}
use autonomus_academic_assis.Runtime.Tables.{Tables}
use autonomus_academic_assis.Runtime.Recovery.{TriggerRow, recover_deferred_trigger}
use autonomus_academic_assis.Runtime.DueRows.{IsDue}

module _ (F : Floats) (trigger_id : TriggerIdentity → ℕ) where
  -- The rows of the triggers after recoveries that return and recordings of new triggers, in any order.
  pub data TriggerHistory (before : ℕ → Option TriggerRow) : (ℕ → Option TriggerRow) → Type 0 where
    start : TriggerHistory before before
    recovery :
        {rows after : ℕ → Option TriggerRow} (t : Tables F) (learner_id id : ℕ)
        (facts : TriggerFacts F) (as_of : ℕ) (policy : RuntimePolicy F) (e : TriggerEvaluation)
        → TriggerHistory before rows
        → recover_deferred_trigger trigger_id t rows learner_id id facts as_of policy
          ≡ ok (e, after)
        → TriggerHistory before after
    recording :
        {rows : ℕ → Option TriggerRow} (id : ℕ) (row : TriggerRow)
        → TriggerHistory before rows
        → rows id ≡ none
        → TriggerHistory before (put rows id (some row))

-- A row that is there and no longer deferred.
abbrev IsSettled : Option TriggerRow → Type 0
IsSettled o = (row : TriggerRow) × (o ≡ some row) × (row.status ≢ deferred)

module _ {F : Floats} (trigger_id : TriggerIdentity → ℕ) where
  -- What a recovery asks: the learner exists and owns the session of the trigger, whose row is due, and
  -- the facts are those of the trigger.
  pub record IsRecoverable (t : Tables F) (triggers : ℕ → Option TriggerRow) (learner_id id : ℕ)
      (facts : TriggerFacts F) (as_of : ℕ) : Type 0 where
    pub learner : t.learners learner_id ≡ true
    pub owner :
        (s : LearningSessionSnapshot) × (t.sessions facts.submission.session_id ≡ some s)
        × (s.learner_id ≡ learner_id)
    pub due : IsDue (triggers id) learner_id as_of
    pub same : trigger_id (identity facts.submission) ≡ id
