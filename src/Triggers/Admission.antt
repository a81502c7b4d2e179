-- ===== src/Triggers/Admission.antt =====
-- When `evaluate_trigger` of packages/domain/triggers.py admits and rejects.
use autonomus_academic_assis.Base.{
  ℕ, ◌+◌, ◌*◌, ◌≤◌, ◌≡◌, refl, ◌↔◌, Bool, true, false, not, ◌&&◌, Option, none, some, List, [], ◌∷◌,
  ◌++◌, arith, if◌then◌else◌, ok, raise, value_error, String, ◌∙◌, ap,
}
use autonomus_academic_assis.Base.Floats.{Floats}
use autonomus_academic_assis.Triggers.Facts.{
  TriggerKind, nightly_decay, explicit_directive, single_wrong_answer, repeated_failure,
  batch_completed, strong_performance, curriculum_edited, deadline_changed, same_kind,
  TriggerIdentity, GuardCode, rejected, admitted, Instant, RuntimePolicy, TriggerFacts,
  TriggerEvaluation,
}
use autonomus_academic_assis.Triggers.Evaluate.{
  is_material, evaluated_kind, issues, sorted_guards, admission, wait, evaluate_trigger, rejects,
  cooling, guard_if, is_wrong_answer,
}
use autonomus_academic_assis.Triggers.Guards.{sorted_guards-eq-[]}

-- The three parts of an admission, by its status.
admission-admitted :
    (material : Bool) (guards : List GuardCode) (w : Option ℕ)
    → ((admission material guards w).status ≡ admitted)
      ↔ ((material ≡ true) × (guards ≡ []) × (w ≡ none))
unfolding admission
admission-admitted material guards w = ground arith

pub admission-rejected :
    (material : Bool) (guards : List GuardCode) (w : Option ℕ)
    → ((admission material guards w).status ≡ rejected) ↔ (rejects guards ≡ true)
unfolding admission
admission-rejected material guards w = ground arith

reported_kind :
    (k : TriggerKind) (m : Bool)
    → (same_kind
          (if is_wrong_answer k then if m then repeated_failure else single_wrong_answer else k)
          nightly_decay
        ≡ same_kind k nightly_decay)
      × (same_kind
            (if is_wrong_answer k then if m then repeated_failure else single_wrong_answer else k)
            explicit_directive
          ≡ same_kind k explicit_directive)
reported_kind single_wrong_answer true = (refl, refl)
reported_kind single_wrong_answer false = (refl, refl)
reported_kind repeated_failure true = (refl, refl)
reported_kind repeated_failure false = (refl, refl)
reported_kind batch_completed m = (refl, refl)
reported_kind strong_performance m = (refl, refl)
reported_kind curriculum_edited m = (refl, refl)
reported_kind nightly_decay m = (refl, refl)
reported_kind explicit_directive m = (refl, refl)
reported_kind deadline_changed m = (refl, refl)

none_left :
    (gs : List GuardCode) (a b c d e : Bool) (v w x y z : GuardCode)
    → gs ++ guard_if a v ++ guard_if b w ++ guard_if c x ++ guard_if d y ++ guard_if e z ≡ []
    → (gs ≡ []) × (a ≡ false) × (b ≡ false) × (e ≡ false)
none_left (g ∷ gs) a b c d e v w x y z h = absurd (cc h)
none_left [] true b c d e v w x y z h = absurd (cc h)
none_left [] false true c d e v w x y z h = absurd (cc h)
none_left [] false false true d e v w x y z h = absurd (cc h)
none_left [] false false false true e v w x y z h = absurd (cc h)
none_left [] false false false false true v w x y z h = absurd (cc h)
none_left [] false false false false false v w x y z h = (refl, refl, refl, refl)

cooled_lem :
    (last : Option ℕ) (seconds as_of : ℕ)
    → cooling last seconds as_of ≡ none
    → (at : ℕ) → last ≡ some at
    → at + seconds * 1_000_000 ≤ as_of
cooled_lem none seconds as_of h at e = absurd (cc e)
cooled_lem (some t) seconds as_of h at e = ground arith

calmed : (a b : Bool) → a ≡ true → a && b ≡ false → b ≡ false
calmed a b h k = ground arith

waiting : (b : Bool) (o : Option ℕ) → b ≡ false → (if b then none else o) ≡ none → o ≡ none
waiting b o h k = ground arith

-- A run that returns has an aware time.
pub returned_lem :
    (aware : Bool) (message : String) (r e : TriggerEvaluation)
    → (if not aware then raise (value_error message) else ok r) ≡ ok e
    → (aware ≡ true) × (r ≡ e)
returned_lem true message r e h = (refl, cc h)
returned_lem false message r e h = absurd (cc h)

module _ {F : Floats} where
  -- What a trigger must meet to be admitted at `as_of`: it is material, no guard stands, and the
  -- cooldown since the last plan trigger is over, or it is an explicit directive.
  pub record Admits (policy : RuntimePolicy F) (facts : TriggerFacts F) (as_of : ℕ) : Type 0 where
    pub material : is_material policy facts ≡ true
    pub no_guards : facts.guards ≡ []
    pub same_version : facts.submission.expected_session_version ≡ facts.session_version
    pub no_duplicate : facts.duplicate ≡ false
    pub no_remediation :
        same_kind facts.submission.kind nightly_decay ≡ true → facts.active_remediation ≡ false
    pub cooled :
        same_kind facts.submission.kind explicit_directive ≡ false
        → (at : ℕ) → facts.last_plan_trigger_at ≡ some at
        → at + policy.cooldown_seconds * 1_000_000 ≤ as_of

  same_evaluated_kind :
      (policy : RuntimePolicy F) (facts : TriggerFacts F)
      → (same_kind (evaluated_kind policy facts) nightly_decay
          ≡ same_kind facts.submission.kind nightly_decay)
        × (same_kind (evaluated_kind policy facts) explicit_directive
            ≡ same_kind facts.submission.kind explicit_directive)
  unfolding evaluated_kind
  same_evaluated_kind policy facts = reported_kind facts.submission.kind _

  issues-eq-[] :
      (policy : RuntimePolicy F) (facts : TriggerFacts F)
      → issues policy facts ≡ []
      → (facts.guards ≡ [])
        × (facts.submission.expected_session_version ≡ facts.session_version)
        × (facts.duplicate ≡ false)
        × (same_kind (evaluated_kind policy facts) nightly_decay && facts.active_remediation
            ≡ false)
  unfolding issues
  issues-eq-[] policy facts h =
      let (no_guards, same, once, calm) = none_left facts.guards _ _ _ _ _ _ _ _ _ _ h in
      (no_guards, ground (arith, same), once, calm)

  admitted-Admits :
      (policy : RuntimePolicy F) (facts : TriggerFacts F) (as_of : ℕ)
      → is_material policy facts ≡ true
      → issues policy facts ≡ []
      → wait policy facts as_of ≡ none
      → Admits policy facts as_of
  unfolding wait
  admitted-Admits policy facts as_of material clear free =
      let (no_guards, same, once, calm) = issues-eq-[] policy facts clear in
      let (nightly, explicit) = same_evaluated_kind policy facts in
      record {
        material = material;
        no_guards = no_guards;
        same_version = same;
        no_duplicate = once;
        no_remediation = λ n. calmed _ _ (nightly ∙ n) calm;
        cooled = λ n. cooled_lem _ _ _ (waiting _ _ (explicit ∙ n) free);
      }

module _ {F : Floats} (trigger_id : TriggerIdentity → ℕ) where
  -- A trigger that `evaluate_trigger` admits is material, has no guard, names the session's version,
  -- is no duplicate, decays no mastery while a remediation is active, and, unless it is an explicit
  -- directive, comes when the cooldown since the last plan trigger is over.
  pub evaluate_trigger-Admits :
      (facts : TriggerFacts F) (as_of : Instant) (policy : RuntimePolicy F) (e : TriggerEvaluation)
      → evaluate_trigger trigger_id facts as_of policy ≡ ok e
      → e.status ≡ admitted
      → Admits policy facts as_of.micros
  unfolding evaluate_trigger
  evaluate_trigger-Admits facts as_of policy e h s =
      let (material, sorted, free) =
        (admission-admitted (is_material policy facts) (sorted_guards (issues policy facts))
            (wait policy facts as_of.micros)).0
          (ap (λ r. r.status) (returned_lem as_of.aware _ _ e h).1 ∙ s) in
      admitted-Admits policy facts as_of.micros material
        (sorted_guards-eq-[] (issues policy facts) sorted) free
