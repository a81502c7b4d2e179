-- ===== src/Triggers/Evaluate.antt =====
-- `evaluate_trigger` of packages/domain/triggers.py.
use autonomus_academic_assis.Base.{
  ℕ, ◌+◌, ◌*◌, Bool, true, false, not, ◌&&◌, ◌||◌, Option, none, some, List, [], ◌∷◌, ◌++◌, map,
  length, any, keep, contains, if◌then◌else◌, ◌==◌, ltb, leb, Result, ok, raise, value_error,
}
use autonomus_academic_assis.Base.Floats.{Floats}
use autonomus_academic_assis.Triggers.Facts.{
  TriggerKind, single_wrong_answer, repeated_failure, batch_completed, strong_performance,
  curriculum_edited, nightly_decay, explicit_directive, deadline_changed, same_kind,
  TriggerIdentity, GuardCode, stale_session, active_remediation, invalid_directive,
  expired_directive, duplicate_trigger, cooldown, terminal_session, non_material, guard_place,
  same_guard, has, TriggerStatus, evidence_only, rejected, blocked, deferred, admitted, Instant,
  identity, RuntimePolicy, GradeObservation, TriggerFacts, TriggerEvaluation,
}

-- `optional == id`
abbrev pub is_id : Option ℕ → ℕ → Bool
is_id none id = false
is_id (some a) id = a == id

-- `set(ids)`, of which the source takes the size
abbrev pub distinct : List ℕ → List ℕ
distinct [] = []
distinct (a ∷ ids) = let rest = distinct ids in if contains a rest then rest else a ∷ rest

-- `sorted(set(codes), key=value)`
unfoldable pub insert_guard : GuardCode → List GuardCode → List GuardCode
insert_guard a [] = a ∷ []
insert_guard a (b ∷ codes) =
    let rest = insert_guard a codes in
    if same_guard a b
    then b ∷ codes
    else if ltb (guard_place a) (guard_place b)
    then a ∷ b ∷ codes
    else b ∷ rest

unfoldable pub sorted_guards : List GuardCode → List GuardCode
unfolding insert_guard
sorted_guards [] = []
sorted_guards (a ∷ codes) = insert_guard a (sorted_guards codes)

-- `[code] if test else []`
abbrev pub guard_if : Bool → GuardCode → List GuardCode
guard_if true code = code ∷ []
guard_if false code = []

-- `a >= b` on a score that may be missing
abbrev pub reaches : (F : Floats) → Option F.Float → F.Float → Bool
reaches F none b = false
reaches F (some a) b = F.le b a

-- `optional is True`
abbrev pub is_true : Option Bool → Bool
is_true none = false
is_true (some b) = b

abbrev pub is_wrong_answer : TriggerKind → Bool
is_wrong_answer kind = same_kind kind single_wrong_answer || same_kind kind repeated_failure

module _ {F : Floats} where
  -- The observations that count: direct, qualified and of the window of the trigger.
  unfoldable pub valid_observations : TriggerFacts F → List (GradeObservation F)
  valid_observations facts =
      keep
        (λ item.
          item.direct && item.qualified_impact && is_id facts.submission.window_id item.window_id)
        facts.observations

  abbrev pub is_failure : RuntimePolicy F → GradeObservation F → Bool
  is_failure policy item = F.eq item.correct F.zero && F.le policy.failure_min_weight item.weight

  -- The attempts that failed on a concept.
  unfoldable pub failed_attempts :
      RuntimePolicy F → List (GradeObservation F) → (concept : ℕ) → List ℕ
  failed_attempts policy valid concept = distinct (
      map (λ item. item.attempt_id)
        (keep (λ item. (item.concept_id == concept) && is_failure policy item) valid))

  -- Whether the failures of a wrong answer are material.
  unfoldable pub material_failure : RuntimePolicy F → TriggerFacts F → Bool
  unfolding valid_observations failed_attempts
  material_failure policy facts =
      let valid = valid_observations facts in
      let source = keep (λ item. is_id facts.submission.evidence_id item.evidence_id) valid in
      let repeated =
        any
          (λ item.
            leb policy.repeated_failure_items
              (length (failed_attempts policy valid item.concept_id)))
          (keep (is_failure policy) source) in
      let weak_entry =
        any (λ item. item.entered_weak && F.le policy.weak_entry_confidence item.confidence)
          source in
      repeated || weak_entry

  -- `strong`, which is false for a trigger of another kind
  unfoldable pub strong_result : RuntimePolicy F → TriggerFacts F → Bool
  strong_result policy facts =
      (same_kind facts.submission.kind batch_completed
        || same_kind facts.submission.kind strong_performance)
      && facts.batch_completed
      && facts.batch_is_quiz
      && reaches F facts.batch_score policy.strong_quiz_score
      && leb policy.strong_quiz_items facts.batch_item_count
      && is_true facts.gate_satisfied

  unfoldable pub is_material : RuntimePolicy F → TriggerFacts F → Bool
  unfolding material_failure strong_result
  is_material policy facts = elim facts.submission.kind [
    | single_wrong_answer ↦ material_failure policy facts
    | repeated_failure ↦ material_failure policy facts
    | batch_completed ↦ facts.batch_completed
    | strong_performance ↦ strong_result policy facts
    | nightly_decay ↦ facts.review_available
    | explicit_directive ↦ facts.directive_valid && not facts.directive_expired
    | curriculum_edited ↦ true
    | deadline_changed ↦ true
  ]

  -- The kind that the evaluation reports.
  unfoldable pub evaluated_kind : RuntimePolicy F → TriggerFacts F → TriggerKind
  unfolding material_failure
  evaluated_kind policy facts =
      if is_wrong_answer facts.submission.kind
      then if material_failure policy facts then repeated_failure else single_wrong_answer
      else facts.submission.kind

  -- `issues`, in the order in which they are appended
  unfoldable pub issues : RuntimePolicy F → TriggerFacts F → List GuardCode
  unfolding evaluated_kind
  issues policy facts =
      facts.guards
      ++ guard_if (not (facts.submission.expected_session_version == facts.session_version))
          stale_session
      ++ guard_if facts.duplicate duplicate_trigger
      ++ guard_if (same_kind facts.submission.kind explicit_directive && facts.directive_expired)
          expired_directive
      ++ guard_if
          (same_kind facts.submission.kind explicit_directive
            && not facts.directive_expired
            && not facts.directive_valid)
          invalid_directive
      ++ guard_if
          (same_kind (evaluated_kind policy facts) nightly_decay && facts.active_remediation)
          active_remediation

-- The codes that reject a trigger.
abbrev pub rejects : List GuardCode → Bool
rejects guards =
    has duplicate_trigger guards
    || has terminal_session guards
    || has invalid_directive guards
    || has expired_directive guards

-- `facts.last_plan_trigger_at + timedelta(seconds=policy.cooldown_seconds)`, where `as_of` is before it
abbrev pub cooling : Option ℕ → (cooldown_seconds : ℕ) → (as_of : ℕ) → Option ℕ
cooling none seconds as_of = none
cooling (some at) seconds as_of =
    if ltb as_of (at + seconds * 1_000_000) then some (at + seconds * 1_000_000) else none

pub record Admission : Type 0 where
  pub status : TriggerStatus
  pub guards : List GuardCode
  pub eligible_after : Option ℕ

-- `status`, `guards` and `eligible_after`, from the material test and the sorted guards
unfoldable pub admission :
    (material : Bool) → (guards : List GuardCode) → (wait : Option ℕ) → Admission
admission material guards wait =
    if rejects guards
    then record { status = rejected; guards = guards; eligible_after = none }
    else if not material
    then record {
      status = evidence_only;
      guards = guards ++ (non_material ∷ []);
      eligible_after = none;
    }
    else elim guards [
      | code ∷ codes ↦ record { status = blocked; guards = code ∷ codes; eligible_after = none }
      | [] ↦ elim wait [
        | none ↦ record { status = admitted; guards = []; eligible_after = none }
        | some deadline ↦ record {
          status = deferred;
          guards = cooldown ∷ [];
          eligible_after = some deadline;
        }
      ]
    ]

module _ {F : Floats} where
  -- The wait of a trigger, which an explicit directive does not have.
  unfoldable pub wait : RuntimePolicy F → TriggerFacts F → (as_of : ℕ) → Option ℕ
  unfolding evaluated_kind
  wait policy facts as_of =
      if same_kind (evaluated_kind policy facts) explicit_directive
      then none
      else cooling facts.last_plan_trigger_at policy.cooldown_seconds as_of

module _ {F : Floats} (trigger_id : TriggerIdentity → ℕ) where
  unfoldable pub evaluate_trigger :
      TriggerFacts F → (as_of : Instant) → RuntimePolicy F → Result TriggerEvaluation
  unfolding is_material evaluated_kind issues sorted_guards admission wait strong_result
  evaluate_trigger facts as_of policy =
      if not as_of.aware
      then raise (value_error "Trigger evaluation time must be timezone-aware")
      else let material = is_material policy facts in
        let kind = evaluated_kind policy facts in
        let made =
          admission material (sorted_guards (issues policy facts))
            (wait policy facts as_of.micros) in
        ok record {
          trigger_id = trigger_id (identity facts.submission);
          kind = kind;
          status = made.status;
          material = material;
          guards = made.guards;
          evaluated_at = as_of.micros;
          eligible_after = made.eligible_after;
          allow_advance = strong_result policy facts;
          invalidate_segment = material && same_kind kind repeated_failure;
          rebuild_graph_diff = material && same_kind kind curriculum_edited;
          recompute_pacing = material && same_kind kind deadline_changed;
        }
