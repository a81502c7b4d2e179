-- ===== src/Mastery/Weights.antt =====
-- The weights of packages/mastery/weights.py.
use autonomus_academic_assis.Base.{
  ℕ, Bool, true, false, ◌||◌, Option, none, some, ltb, ◌==◌, if◌then◌else◌, Result, ok, raise,
  value_error, ◌>>=◌,
}
use autonomus_academic_assis.Mastery.State.{
  Arithmetic, l2_llm_rubric, mcq, true_false, numeric, short_text, code, EvidenceInput, GraderLevel,
  WeightSnapshot,
}

-- Whether the grade comes from the rubric of a model.
abbrev pub is_rubric : GraderLevel → Bool
is_rubric l2_llm_rubric = true
is_rubric _ = false

unfoldable pub correct_difficulty_weight : (F : Arithmetic) (difficulty : ℕ) → Result F.Float
correct_difficulty_weight F difficulty =
    if (difficulty == 1) || (difficulty == 2)
    then ok (F.decimal 7 1)
    else if difficulty == 3
    then ok (F.decimal 10 1)
    else if (difficulty == 4) || (difficulty == 5)
    then ok (F.decimal 13 1)
    else raise (value_error "Difficulty must be between 1 and 5")

unfoldable pub incorrect_difficulty_weight : (F : Arithmetic) (difficulty : ℕ) → Result F.Float
incorrect_difficulty_weight F difficulty =
    if (difficulty == 1) || (difficulty == 2)
    then ok (F.decimal 13 1)
    else if difficulty == 3
    then ok (F.decimal 10 1)
    else if (difficulty == 4) || (difficulty == 5)
    then ok (F.decimal 7 1)
    else raise (value_error "Difficulty must be between 1 and 5")

abbrev pub correct_hint_factor : (F : Arithmetic) (hints_used : ℕ) → F.Float
correct_hint_factor F hints_used =
    if hints_used == 0
    then F.decimal 10 1
    else if hints_used == 1
    then F.decimal 5 1
    else F.decimal 25 2

abbrev pub mcq_weight : (F : Arithmetic) (n_options : Option ℕ) → Result F.Float
mcq_weight F none = raise (value_error "MCQ evidence requires at least two options")
mcq_weight F (some n) =
    if ltb n 2
    then raise (value_error "MCQ evidence requires at least two options")
    else ok (F.mul (F.decimal 6 1) (F.sub (F.decimal 10 1) (F.div (F.decimal 10 1) (F.of_int n))))

module _ {F : Arithmetic} where
  unfoldable pub type_weight : EvidenceInput F → Result F.Float
  type_weight evidence =
      if is_rubric evidence.grader_level
      then ok evidence.grader_confidence
      else elim evidence.question_type [
        | mcq ↦ mcq_weight F evidence.n_options
        | true_false ↦ ok (F.decimal 4 1)
        | numeric ↦ ok (F.decimal 10 1)
        | short_text ↦ ok (F.decimal 9 1)
        | code ↦ ok (F.decimal 12 1)
      ]

  unfoldable pub calculate_weight_snapshot : EvidenceInput F → Result (WeightSnapshot F)
  calculate_weight_snapshot evidence =
      let tag_confidence = F.min (F.decimal 10 1) (F.max (F.decimal 5 1) evidence.tag_confidence) in
      do
        correct_difficulty ← correct_difficulty_weight F evidence.difficulty
        incorrect_difficulty ← incorrect_difficulty_weight F evidence.difficulty
        question_type ← type_weight evidence
        let hint = correct_hint_factor F evidence.hints_used
        ok (record {
          correct_difficulty_weight = correct_difficulty;
          incorrect_difficulty_weight = incorrect_difficulty;
          type_weight = question_type;
          correct_hint_factor = hint;
          tag_confidence = tag_confidence;
          w_correct = F.mul (F.mul (F.mul correct_difficulty question_type) hint) tag_confidence;
          w_incorrect = F.mul (F.mul incorrect_difficulty question_type) tag_confidence;
        })
