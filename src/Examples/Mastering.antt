-- ===== src/Examples/Mastering.antt =====
-- The theorems on mastery at a first successful review, in hundredths.
use autonomus_academic_assis.Base.{
  put, ℕ, ◌+◌, ◌*◌, ◌-◌, ◌≡◌, refl, min, max, true, Option, none, some, [], ◌∷◌, ltb, leb, ◌==◌,
  if◌then◌else◌, sort_by, insert_by, ok, raise,
}
use Prim.Native.Nat.{◌/◌}
use autonomus_academic_assis.Mastery.State.{
  Arithmetic, direct, l0_rule, numeric, primary, EvidenceInput, MasteryState, validate_state,
}
use autonomus_academic_assis.Mastery.Weights.{
  correct_difficulty_weight, incorrect_difficulty_weight, type_weight, calculate_weight_snapshot,
}
use autonomus_academic_assis.Mastery.Decay.{mastery_value, decay_state, decay_concepts, tag}
use autonomus_academic_assis.Mastery.Apply.{
  EvidenceApplication, unchanged, apply_one, apply_all, apply_evidence,
}
use autonomus_academic_assis.Mastery.Consistent.{AreConsistent, apply_evidence-AreConsistent}
use autonomus_academic_assis.Mastery.Reviews.{Moved, apply_evidence-Moved}
use autonomus_academic_assis.Mastery.Priors.{
  SelfReportPriorContribution, with_prior, apply_priors, apply_self_report_priors,
  apply_self_report_priors_once,
}
use autonomus_academic_assis.Mastery.Decay.{initial_state}

abbrev hundredths : Arithmetic
hundredths = record {
  Float = ℕ;
  decimal = λ digits places. if places == 1 then digits * 10 else digits;
  of_int = λ n. n * 100;
  add = ◌+◌;
  sub = ◌-◌;
  mul = λ a b. (a * b) / 100;
  div = λ a b. (a * 100) / b;
  neg = λ a. a;
  pow = λ a b. 100;
  lt = ltb;
  le = leb;
  eq = ◌==◌;
  min = min;
  max = max;
  days = λ n. n / 864_000_000;
}

abbrev two_days : ℕ
two_days = 2 * 86_400_000_000

abbrev review : EvidenceInput hundredths
review = record {
  evidence_id = 1;
  learner_id = 2;
  actor_id = none;
  course_id = 3;
  question_id = 4;
  question_version_id = 5;
  attempt_id = 6;
  correct = 100;
  difficulty = 3;
  question_type = numeric;
  n_options = none;
  hints_used = 0;
  grader_level = l0_rule;
  grader_confidence = 100;
  kind = direct;
  occurred_at = two_days;
  graph_version_id = 7;
  concept_roles = record { stable_concept_id = 8; role = primary } ∷ [];
  tag_confidence = 100;
  is_review = true;
  idempotency_key = "review";
}

abbrev untouched : ℕ → Option (MasteryState hundredths)
untouched v = none

abbrev applied : EvidenceApplication hundredths
unfolding apply_evidence apply_all apply_one validate_state calculate_weight_snapshot
    correct_difficulty_weight incorrect_difficulty_weight type_weight tag decay_concepts decay_state
    mastery_value sort_by insert_by
applied = elim (apply_evidence untouched review (λ v. some 0) (λ v. none)) [
  | raise e ↦ unchanged untouched
  | ok app ↦ app
]

review_applied : apply_evidence untouched review (λ v. some 0) (λ v. none) ≡ ok applied
unfolding apply_evidence apply_all apply_one validate_state calculate_weight_snapshot
    correct_difficulty_weight incorrect_difficulty_weight type_weight tag decay_concepts decay_state
    mastery_value sort_by insert_by
review_applied = refl

untouched-AreConsistent : AreConsistent untouched
untouched-AreConsistent v s e = absurd (cc e)

apply_evidence-AreConsistent_example : AreConsistent applied.states
apply_evidence-AreConsistent_example =
    apply_evidence-AreConsistent untouched review (λ v. some 0) (λ v. none) applied
      untouched-AreConsistent review_applied

apply_evidence-Moved_example : Moved untouched review (λ v. some 0) 8 (applied.states 8)
apply_evidence-Moved_example =
    apply_evidence-Moved untouched review (λ v. some 0) (λ v. none) applied review_applied 8

abbrev confident : SelfReportPriorContribution hundredths
confident = record {
  assertion_id = 11;
  learner_id = 2;
  course_id = 3;
  stable_concept_id = 8;
  graph_version_id = none;
  occurred_at = 0;
  alpha_delta = 100;
  beta_delta = 0;
  policy_version = "v1";
}

abbrev reported : ℕ → Option (MasteryState hundredths)
reported = put untouched 8 (some (with_prior confident (initial_state hundredths)))

prior_applied : apply_self_report_priors untouched (confident ∷ []) ≡ ok reported
unfolding apply_self_report_priors apply_priors sort_by insert_by
prior_applied = refl

apply_self_report_priors_once_example :
    apply_self_report_priors reported (confident ∷ []) ≡ ok reported
apply_self_report_priors_once_example =
    apply_self_report_priors_once (confident ∷ []) untouched reported prior_applied
