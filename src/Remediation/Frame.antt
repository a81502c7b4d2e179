-- ===== src/Remediation/Frame.antt =====
-- The frames of packages/domain/runtime.py (`FrameState`, `RemediationFrameSnapshot`, `FrameAttempt`)
-- and the results of packages/domain/remediation.py. A UUID is a number, and so is a time.
use autonomus_academic_assis.Base.{
  ℕ, Bool, true, false, not, ◌||◌, Option, none, some, String, Result, raise_if, ◌>>◌, ltb, ◌==◌,
  is_some,
}
use autonomus_academic_assis.Base.Floats.{Floats}

pub data FrameState : Type 0 where
  active complete returned blocked_needs_human : FrameState

abbrev pub same_state : FrameState → FrameState → Bool
same_state active active = true
same_state complete complete = true
same_state returned returned = true
same_state blocked_needs_human blocked_needs_human = true
same_state _ _ = false

pub data RemediationOutcome : Type 0 where
  return continue rung_exhausted blocked : RemediationOutcome

module _ (F : Floats) where
  open F use {Float}

  pub record RemediationFrameSnapshot : Type 0 where
    pub frame_id : ℕ
    pub session_id : ℕ
    pub graph_version_id : ℕ
    pub target_concept_id : ℕ
    pub return_to_topic_id : ℕ
    pub created_by_execution_id : ℕ
    pub parent_frame_id : Option ℕ
    pub depth : ℕ
    pub state : FrameState
    pub version : ℕ
    pub rung : ℕ
    pub strategy : String
    pub guard_policy_version : String
    pub attempt_count : ℕ
    pub max_attempts : ℕ
    pub min_progress_delta : Float
    pub baseline_mastery : Float
    pub latest_mastery : Float
    pub last_event_id : ℕ
    pub returned_by_execution_id : Option ℕ
    pub returned_at : Option ℕ

  pub record FrameAttempt : Type 0 where
    pub frame_id : ℕ
    pub source_attempt_id : ℕ
    pub event_id : ℕ
    pub rung : ℕ
    pub observed_mastery : Float
    pub occurred_at : ℕ

  pub record RemediationProgressEvaluation : Type 0 where
    pub frame_id : ℕ
    pub source_attempt_id : ℕ
    pub observed_mastery : Float
    pub baseline_mastery : Float
    pub progress_delta : Float
    pub threshold : Float
    pub next_attempt_count : ℕ
    pub max_attempts : ℕ
    pub outcome : RemediationOutcome
    pub next_state : FrameState
    pub next_rung : ℕ
    pub next_strategy : String
    pub next_baseline_mastery : Float
    pub rung_advanced : Bool
    pub replayed : Bool

-- `a != b` of two tests
abbrev pub differ : Bool → Bool → Bool
differ true b = not b
differ false b = b

-- `optional == id`
abbrev pub is_id : Option ℕ → ℕ → Bool
is_id none id = false
is_id (some a) id = a == id

module _ {F : Floats} where
  -- The validator `frame_bounds`.
  unfoldable pub frame_bounds : RemediationFrameSnapshot F → Result (Unit {0})
  frame_bounds frame = do
    raise_if (ltb frame.max_attempts frame.attempt_count)
        "Frame attempts exceed the configured rung budget"
    raise_if
        (differ (frame.depth == 1) (not (is_some frame.parent_frame_id))
          || is_id frame.parent_frame_id frame.frame_id)
        "Frame stack must retain a distinct parent above depth one"
    raise_if (differ (same_state frame.state returned) (is_some frame.returned_at))
        "Only a returned frame has a return timestamp"
    raise_if (differ (same_state frame.state returned) (is_some frame.returned_by_execution_id))
        "Frame return requires its owning execution"
