-- ===== src/Triggers/Rejection.antt =====
-- Rejection in packages/domain/triggers.py.
use autonomus_academic_assis.Base.{
  ℕ, ◌≡◌, ◌==◌, refl, ap, sym, ◌∙◌, ◌↔◌, Bool, true, false, not, ◌&&◌, ◌||◌, List, ◌++◌, arith, ok,
}
use autonomus_academic_assis.Base.Floats.{Floats}
use autonomus_academic_assis.Triggers.Facts.{
  nightly_decay, explicit_directive, same_kind, TriggerIdentity, GuardCode, stale_session,
  active_remediation, duplicate_trigger, invalid_directive, expired_directive, terminal_session,
  same_guard, guard_place, has, rejected, Instant, RuntimePolicy, TriggerFacts, TriggerEvaluation,
}
use autonomus_academic_assis.Triggers.Evaluate.{
  is_material, evaluated_kind, issues, sorted_guards, wait, evaluate_trigger, rejects, guard_if,
}
use autonomus_academic_assis.Triggers.Guards.{has-++, rejects-sorted_guards}
use autonomus_academic_assis.Triggers.Admission.{admission-rejected, returned_lem}

rejects-++ : (xs ys : List GuardCode) → rejects (xs ++ ys) ≡ rejects xs || rejects ys
rejects-++ xs ys = ground (
  arith,
  has-++ duplicate_trigger xs ys,
  has-++ terminal_session xs ys,
  has-++ invalid_directive xs ys,
  has-++ expired_directive xs ys,
)

single_rejects :
    (a b c d e : Bool)
    → (rejects (guard_if a stale_session) ≡ false)
      × (rejects (guard_if b duplicate_trigger) ≡ b)
      × (rejects (guard_if c expired_directive) ≡ c)
      × (rejects (guard_if d invalid_directive) ≡ d)
      × (rejects (guard_if e active_remediation) ≡ false)
unfolding same_guard guard_place
single_rejects a b c d e = ground arith

regroup :
    (r a b c d e q : Bool)
    → a ≡ false
    → e ≡ false
    → c || d ≡ q
    → ((((r || a) || b) || c) || d) || e ≡ r || (b || q)
regroup r a b c d e q h k m = ground arith

bad_directive : (x v z : Bool) → (x && z) || (x && not z && not v) ≡ x && not (v && not z)
bad_directive x v z = ground arith

rejected_by :
    (gs : List GuardCode) (a b x v z e : Bool)
    → rejects (
        gs
        ++ guard_if a stale_session
        ++ guard_if b duplicate_trigger
        ++ guard_if (x && z) expired_directive
        ++ guard_if (x && not z && not v) invalid_directive
        ++ guard_if e active_remediation)
      ≡ rejects gs || (b || (x && not (v && not z)))
rejected_by gs a b x v z e =
    let (ra, rb, rc, rd, re) = single_rejects a b (x && z) (x && not z && not v) e in
    rejects-++ _ (guard_if e active_remediation)
    ∙ ap (λ r. r || rejects (guard_if e active_remediation))
        (rejects-++ _ (guard_if (x && not z && not v) invalid_directive)
          ∙ ap (λ r. r || rejects (guard_if (x && not z && not v) invalid_directive))
              (rejects-++ _ (guard_if (x && z) expired_directive)
                ∙ ap (λ r. r || rejects (guard_if (x && z) expired_directive))
                    (rejects-++ _ (guard_if b duplicate_trigger)
                      ∙ ap (λ r. r || rejects (guard_if b duplicate_trigger))
                          (rejects-++ gs (guard_if a stale_session)))))
    ∙ regroup (rejects gs) _ _ _ _ _ (x && not (v && not z)) ra re (
        ap (λ y. y || rejects (guard_if (x && not z && not v) invalid_directive)) rc
        ∙ ap (λ y. (x && z) || y) rd
        ∙ bad_directive x v z)
    ∙ ap (λ y. rejects gs || (y || (x && not (v && not z)))) rb

rejects_lem :
    (gs : List GuardCode)
    → rejects gs
      ≡ has duplicate_trigger gs
        || has terminal_session gs
        || has invalid_directive gs
        || has expired_directive gs
rejects_lem gs = refl

module _ {F : Floats} where
  -- The facts that reject a trigger: one of the four guards that reject, a duplicate, or a directive that
  -- is invalid or expired.
  abbrev pub is_rejected : TriggerFacts F → Bool
  is_rejected facts =
      (has duplicate_trigger facts.guards
        || has terminal_session facts.guards
        || has invalid_directive facts.guards
        || has expired_directive facts.guards)
      || (facts.duplicate
          || (same_kind facts.submission.kind explicit_directive
              && not (facts.directive_valid && not facts.directive_expired)))

module _ {F : Floats} (trigger_id : TriggerIdentity → ℕ) where
  rejects-issues :
      (policy : RuntimePolicy F) (facts : TriggerFacts F)
      → rejects (issues policy facts) ≡ is_rejected facts
  unfolding issues
  rejects-issues policy facts =
      rejected_by facts.guards
        (not (facts.submission.expected_session_version == facts.session_version)) facts.duplicate
        (same_kind facts.submission.kind explicit_directive) facts.directive_valid
        facts.directive_expired
        (same_kind (evaluated_kind policy facts) nightly_decay && facts.active_remediation)
      ∙ ap
          (λ y.
            y
            || (facts.duplicate
                || (same_kind facts.submission.kind explicit_directive
                    && not (facts.directive_valid && not facts.directive_expired))))
          (rejects_lem facts.guards)

  -- With a time that has a zone, `evaluate_trigger` rejects a trigger exactly if the guards of its facts hold
  -- `DUPLICATE_TRIGGER`, `TERMINAL_SESSION`, `INVALID_DIRECTIVE` or `EXPIRED_DIRECTIVE`, it is a duplicate,
  -- or it is a directive that is invalid or expired.
  pub evaluate_trigger-rejects :
      (facts : TriggerFacts F) (as_of : Instant) (policy : RuntimePolicy F) (e : TriggerEvaluation)
      → evaluate_trigger trigger_id facts as_of policy ≡ ok e
      → (e.status ≡ rejected) ↔ (is_rejected facts ≡ true)
  unfolding evaluate_trigger
  evaluate_trigger-rejects facts as_of policy e h =
      let status = ap (λ r. r.status) (returned_lem as_of.aware _ _ e h).1 in
      let same = rejects-sorted_guards (issues policy facts) ∙ rejects-issues policy facts in
      let (forth, back) =
        admission-rejected (is_material policy facts) (sorted_guards (issues policy facts))
          (wait policy facts as_of.micros) in
      (λ s. sym same ∙ forth (status ∙ s), λ r. sym status ∙ back (same ∙ r))
