-- ===== src/Remediation/Ladder.antt =====
-- `evaluate_remediation_progress` of packages/domain/remediation.py, and how
-- packages/persistence/remediation.py applies its result to the frame.
use autonomus_academic_assis.Base.{
  ℕ, zero, suc, ◌+◌, ◌-◌, Bool, true, false, not, ◌&&◌, ◌||◌, Option, none, some, List, [], ◌∷◌,
  String, str_eq, if◌then◌else◌, ◌==◌, ltb, leb, length, Result, ok, raise, value_error,
  index_error, ◌>>=◌,
}
use autonomus_academic_assis.Base.Floats.{Floats}
use autonomus_academic_assis.Remediation.Frame.{
  FrameState, active, complete, blocked_needs_human, RemediationOutcome, return, continue,
  rung_exhausted, blocked, RemediationFrameSnapshot, FrameAttempt, RemediationProgressEvaluation,
}

-- `REMEDIATION_ESCALATION_LADDER`
abbrev pub ladder : List String
ladder =
    "RETEACH_WITH_NEW_STRATEGY" ∷ "TEACH_PREREQUISITE" ∷ "ASK_USER" ∷ "ESCALATE_MODEL"
    ∷ "BLOCKED_NEEDS_HUMAN" ∷ []

-- `ladder.index(strategy)`, where none stands for its ValueError
abbrev pub index : String → List String → Option ℕ
index strategy [] = none
index strategy (rung ∷ rungs) =
    let later = index strategy rungs in
    if str_eq strategy rung then some 0 else elim later [ none ↦ none | some i ↦ some (suc i) ]

-- `ladder[i]`
abbrev pub nth : List String → ℕ → Result String
nth [] i = raise index_error
nth (rung ∷ rungs) zero = ok rung
nth (rung ∷ rungs) (suc i) = nth rungs i

module _ {F : Floats} where
  -- The fields that every return of the evaluation shares, and those in which they differ.
  abbrev pub evaluation :
      RemediationFrameSnapshot F
      → FrameAttempt F
      → (next_attempt_count : ℕ) → RemediationOutcome
      → FrameState
      → (next_rung : ℕ) → (next_strategy : String) → (next_baseline_mastery : F.Float)
      → (rung_advanced : Bool) → RemediationProgressEvaluation F
  evaluation frame attempt count outcome state rung strategy baseline advanced = record {
    frame_id = frame.frame_id;
    source_attempt_id = attempt.source_attempt_id;
    observed_mastery = attempt.observed_mastery;
    baseline_mastery = frame.baseline_mastery;
    progress_delta = F.sub attempt.observed_mastery frame.baseline_mastery;
    threshold = frame.min_progress_delta;
    next_attempt_count = count;
    max_attempts = frame.max_attempts;
    outcome = outcome;
    next_state = state;
    next_rung = rung;
    next_strategy = strategy;
    next_baseline_mastery = baseline;
    rung_advanced = advanced;
    replayed = false;
  }

  -- The evaluation behind the choice of the next strategy.
  abbrev climbed :
      RemediationFrameSnapshot F → FrameAttempt F → String → RemediationProgressEvaluation F
  climbed frame attempt strategy =
      if str_eq strategy "BLOCKED_NEEDS_HUMAN"
      then evaluation frame attempt (frame.attempt_count + 1) blocked blocked_needs_human
          (frame.rung + 1) strategy attempt.observed_mastery false
      else evaluation frame attempt 0 rung_exhausted active (frame.rung + 1) strategy
          attempt.observed_mastery true

  -- The rung at `current_index` is exhausted.
  unfoldable pub escalate :
      RemediationFrameSnapshot F
      → FrameAttempt F
      → (allow_model_escalation : Bool) → (current_index : ℕ)
      → Result (RemediationProgressEvaluation F)
  escalate frame attempt allow_model_escalation current_index =
      if leb (length ladder - 1) current_index
      then ok (
          evaluation frame attempt (frame.attempt_count + 1) blocked blocked_needs_human frame.rung
            frame.strategy frame.baseline_mastery false)
      else do
        above ← nth ladder (current_index + 1)
        strategy ← nth ladder (
            if str_eq above "ESCALATE_MODEL" && not allow_model_escalation
            then current_index + 2
            else current_index + 1)
        ok (climbed frame attempt strategy)

  unfoldable pub evaluate_remediation_progress :
      RemediationFrameSnapshot F
      → FrameAttempt F
      → (allow_model_escalation : Bool) → Result (RemediationProgressEvaluation F)
  unfolding escalate
  evaluate_remediation_progress frame attempt allow_model_escalation =
      if not (attempt.frame_id == frame.frame_id) || not (attempt.rung == frame.rung)
      then raise (value_error "Remediation attempt does not belong to the current frame rung")
      else if F.le frame.min_progress_delta (F.sub attempt.observed_mastery frame.baseline_mastery)
      then ok (
          evaluation frame attempt (frame.attempt_count + 1) return complete frame.rung
            frame.strategy frame.baseline_mastery false)
      else if ltb (frame.attempt_count + 1) frame.max_attempts
      then ok (
          evaluation frame attempt (frame.attempt_count + 1) continue active frame.rung
            frame.strategy frame.baseline_mastery false)
      else elim (index frame.strategy ladder) [
        | none ↦ raise (value_error "Unknown remediation escalation strategy")
        | some i ↦ escalate frame attempt allow_model_escalation i
      ]

  -- The frame that `record_remediation_attempt` stores after an evaluation.
  unfoldable pub updated :
      RemediationFrameSnapshot F
      → FrameAttempt F
      → RemediationProgressEvaluation F
      → (last_event_id : ℕ) → RemediationFrameSnapshot F
  updated frame persisted evaluation last_event_id = record frame {
    state = evaluation.next_state;
    version = frame.version + 1;
    rung = evaluation.next_rung;
    strategy = evaluation.next_strategy;
    attempt_count = evaluation.next_attempt_count;
    baseline_mastery = evaluation.next_baseline_mastery;
    latest_mastery = persisted.observed_mastery;
    last_event_id = last_event_id;
  }
