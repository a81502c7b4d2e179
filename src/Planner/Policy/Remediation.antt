-- ===== src/Planner/Policy/Remediation.antt =====
-- Rules 3 and 4: reviews, and the continuation of or the return from a remediation frame.
use autonomus_academic_assis.Base.{
  ℕ, false, not, ◌&&◌, ◌||◌, none, some, [], ◌∷◌, ◌==◌, if◌then◌else◌, is_some, String, str_eq,
}
use autonomus_academic_assis.Base.Floats.{Floats}
use autonomus_academic_assis.Planner.Vocabulary.{
  practice_concept, review_due, return_to_target, ReasonCode, low_prereq_mastery, frame_complete,
  review, remediation_continue, remediation_return,
}
use autonomus_academic_assis.Planner.State.{PlanningState, ReviewCandidate, RemediationFrame}
use autonomus_academic_assis.Planner.Decision.{no_details, decision, blocked, graph_issue}
use autonomus_academic_assis.Planner.Policy.Rule.{
  Stage, decided, undecided, unless_issue, if_present, required, if_any,
}

module _ {F : Floats} (state_digest : PlanningState F → String) where
  unfoldable pub reviewed : PlanningState F → ReviewCandidate F → Stage F
  reviewed state candidate =
      if not
        ((candidate.learner_id == state.learner_id) && (candidate.course_id == state.course_id))
      then decided (blocked state_digest state "REVIEW_CONTEXT_MISMATCH" false)
      else unless_issue
          (graph_issue state [] (candidate.stable_concept_id ∷ []) candidate.graph_version_id)
          (λ issue. blocked state_digest state issue (str_eq issue "GRAPH_CONTEXT_STALE"))
          (decided (
            decision state_digest state review review_due ReasonCode.review_due
              "Review the first candidate supplied by the spaced-review selector."
              (record (no_details F) {
                target = some candidate.stable_concept_id;
                evidence_ids = candidate.supporting_evidence_ids;
                confidence = candidate.confidence;
              })))

  unfoldable pub reviews : PlanningState F → Stage F
  reviews state = if_any state.review_candidates undecided λ candidate _.
      if is_some state.remediation_frame || state.active_remediation_frame
      then undecided
      else reviewed state candidate

  unfoldable pub in_frame : PlanningState F → RemediationFrame F → Stage F
  in_frame state frame =
      unless_issue
        (graph_issue state (frame.return_to_topic_id ∷ []) (frame.target_concept_id ∷ []) none)
        (λ issue. blocked state_digest state issue false)
        (decided (
          decision state_digest state
            (if frame.complete then remediation_return else remediation_continue)
            (if frame.complete then return_to_target else frame.continuation_action)
            (if frame.complete then frame_complete else low_prereq_mastery)
            (if frame.complete then "Return to the saved target." else "Continue the active frame.")
            (record (no_details F) {
              target =
                  some
                    (if frame.complete then frame.return_to_topic_id else frame.target_concept_id);
              evidence_ids = frame.evidence_ids;
              confidence = frame.confidence;
              frame_id = some frame.frame_id;
              return_to = some frame.return_to_topic_id;
            })))

  unfoldable pub frames : PlanningState F → Stage F
  frames state = if_present state.remediation_frame (in_frame state)

  -- The target of a caller-mapped frame is checked only where a graph is there to check it against.
  unfoldable pub in_mapped_frame : PlanningState F → (target : ℕ) → Stage F
  in_mapped_frame state target =
      let done = state.remediation_frame_complete in
      unless_issue
        (if is_some state.graph_context
          then graph_issue state (if done then target ∷ [] else [])
              (if done then [] else target ∷ []) none
          else none)
        (λ issue. blocked state_digest state issue false)
        (decided (
          decision state_digest state (if done then remediation_return else remediation_continue)
            (if done then return_to_target else practice_concept)
            (if done then frame_complete else low_prereq_mastery)
            "Continue the caller-mapped Sprint 3.5 remediation state."
            (record (no_details F) { target = some target })))

  unfoldable pub mapped_frames : PlanningState F → Stage F
  mapped_frames state =
      if state.active_remediation_frame
      then required
          (if state.remediation_frame_complete
            then state.return_to_target_id
            else state.remediation_target_id)
          (blocked state_digest state "MISSING_REMEDIATION_TARGET" false) (in_mapped_frame state)
      else undecided
