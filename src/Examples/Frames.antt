-- ===== src/Examples/Frames.antt =====
-- The theorems on remediation frames at a frame on the top rung below the human.
use autonomus_academic_assis.Base.{◌≤◌, ◌≡◌, refl, false, none, arith, ok}
use autonomus_academic_assis.Base.Floats.{whole}
use autonomus_academic_assis.Remediation.Frame.{
  active, blocked_needs_human, blocked, RemediationFrameSnapshot, FrameAttempt,
  RemediationProgressEvaluation,
}
use autonomus_academic_assis.Remediation.Ladder.{evaluation, evaluate_remediation_progress, updated}
use autonomus_academic_assis.Remediation.Guard.{
  IsLive, Guarded, budget, Climbs, stay, attempted, evaluate_remediation_progress-Guarded,
  Climbs-budget,
}

abbrev frame : RemediationFrameSnapshot whole
frame = record {
  frame_id = 1;
  session_id = 2;
  graph_version_id = 3;
  target_concept_id = 4;
  return_to_topic_id = 5;
  created_by_execution_id = 6;
  parent_frame_id = none;
  depth = 1;
  state = active;
  version = 1;
  rung = 2;
  strategy = "ASK_USER";
  guard_policy_version = "remediation_v1";
  attempt_count = 2;
  max_attempts = 3;
  min_progress_delta = 5;
  baseline_mastery = 40;
  latest_mastery = 40;
  last_event_id = 10;
  returned_by_execution_id = none;
  returned_at = none;
}

-- An attempt without progress.
abbrev attempt : FrameAttempt whole
attempt = record {
  frame_id = 1;
  source_attempt_id = 11;
  event_id = 12;
  rung = 2;
  observed_mastery = 41;
  occurred_at = 100;
}

frame-IsLive : IsLive frame
frame-IsLive = record { is_active = refl; below_max = ground arith; on_ladder = refl }

evaluate_remediation_progress-Guarded_example :
    (e : RemediationProgressEvaluation whole) × (evaluate_remediation_progress frame attempt false
      ≡ ok e)
    × Guarded frame (updated frame attempt e 12)
evaluate_remediation_progress-Guarded_example =
    evaluate_remediation_progress-Guarded frame attempt false 12 frame-IsLive (refl, refl)

-- Without escalation to a model, the attempt blocks the frame.
abbrev blocks : RemediationProgressEvaluation whole
blocks = evaluation frame attempt 3 blocked blocked_needs_human 3 "BLOCKED_NEEDS_HUMAN" 41 false

one_attempt : Climbs frame 1 (updated frame attempt blocks 12)
unfolding evaluate_remediation_progress
one_attempt = attempted attempt false 12 blocks refl (refl, refl) refl stay

Climbs-budget_example : 1 ≤ budget frame
Climbs-budget_example = Climbs-budget frame-IsLive one_attempt
