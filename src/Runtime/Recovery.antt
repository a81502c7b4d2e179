-- ===== src/Runtime/Recovery.antt =====
-- `recover_deferred_trigger` of packages/persistence/runtime.py: the re-evaluation of a deferred trigger.
-- Its time has a zone. Of a row of `runtime_triggers`, what the recovery reads and writes.
use autonomus_academic_assis.Base.{
  ℕ, Bool, true, false, not, ◌&&◌, Option, none, some, put, ◌==◌, ltb, if◌then◌else◌, Result, ok,
  raise, runtime_conflict, runtime_stale, runtime_validation, fail_if, ◌>>=◌, ◌>>◌,
}
use autonomus_academic_assis.Base.Floats.{Floats}
use autonomus_academic_assis.Triggers.Facts.{
  TriggerIdentity, TriggerStatus, evidence_only, rejected, blocked, deferred, admitted, identity,
  RuntimePolicy, TriggerFacts, TriggerEvaluation,
}
use autonomus_academic_assis.Triggers.Evaluate.{evaluate_trigger}
use autonomus_academic_assis.Runtime.Tables.{Tables}
use autonomus_academic_assis.Runtime.Journal.{locked_session}

pub record TriggerRow : Type 0 where
  pub learner_id : ℕ
  pub status : TriggerStatus
  pub eligible_after : Option ℕ
  pub admitted_at : Option ℕ

abbrev pub is_deferred : TriggerStatus → Bool
is_deferred deferred = true
is_deferred evidence_only = false
is_deferred rejected = false
is_deferred blocked = false
is_deferred admitted = false

-- `as_of if status == TriggerStatus.ADMITTED else None`
abbrev pub admission_time : TriggerStatus → (as_of : ℕ) → Option ℕ
admission_time admitted as_of = some as_of
admission_time evidence_only as_of = none
admission_time rejected as_of = none
admission_time blocked as_of = none
admission_time deferred as_of = none

-- The row of the trigger among those of the learner, if it is deferred.
unfoldable pub deferred_row : Option TriggerRow → (learner_id : ℕ) → Result TriggerRow
deferred_row none learner_id =
    raise (runtime_validation "Only a durable deferred trigger can be recovered")
deferred_row (some row) learner_id =
    if (row.learner_id == learner_id) && is_deferred row.status
    then ok row
    else raise (runtime_validation "Only a durable deferred trigger can be recovered")

unfoldable pub check_eligible : (eligible_after : Option ℕ) → (as_of : ℕ) → Result (Unit {0})
check_eligible none as_of = ok tt
check_eligible (some at) as_of =
    fail_if (ltb as_of at) (runtime_stale "Deferred trigger is not eligible yet")

module _ {F : Floats} (trigger_id : TriggerIdentity → ℕ) where
  -- The evaluation, and the rows that it leaves.
  unfoldable pub recover_deferred_trigger :
      Tables F
      → (triggers : ℕ → Option TriggerRow) → (learner_id id : ℕ) → TriggerFacts F
      → (as_of : ℕ) → RuntimePolicy F
      → Result (TriggerEvaluation × (ℕ → Option TriggerRow))
  recover_deferred_trigger t triggers learner_id id facts as_of policy = do
    owner ← locked_session t learner_id facts.submission.session_id
    row ← deferred_row (triggers id) learner_id
    check_eligible row.eligible_after as_of
    fail_if (not (trigger_id (identity facts.submission) == id))
        (runtime_conflict "Deferred trigger identity conflicts")
    result ←
        evaluate_trigger trigger_id (record facts { last_plan_trigger_at = none })
          (record { micros = as_of; aware = true }) policy
    fail_if (is_deferred result.status)
        (runtime_stale "Cooldown remains active after deferred recovery")
    ok (
      result,
      put triggers id (
          some (record row {
            status = result.status;
            admitted_at = admission_time result.status as_of;
          })),
    )
