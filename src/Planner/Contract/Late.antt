-- ===== src/Planner/Contract/Late.antt =====
-- Rules 4 and 5 meet the contract: frames and assessments.
use autonomus_academic_assis.Base.{
  if◌then◌else◌, ℕ, ◌≡◌, refl, true, false, not, none, some, List, [], ◌∷◌, String, arith, contains,
  is_some, all, All, ok,
}
use autonomus_academic_assis.Base.Floats.{Floats}
use autonomus_academic_assis.Planner.State.{
  PlanningState, RemediationFrame, GraphEdge, WeakPrerequisiteCandidate, AssessmentPlanningState,
}
use autonomus_academic_assis.Planner.Decision.{decision, blocked, graph_issue}
use autonomus_academic_assis.Planner.Policy.Remediation.{
  in_frame, frames, in_mapped_frame, mapped_frames,
}
use autonomus_academic_assis.Planner.Policy.Assessment.{
  is_executable, last_edge, path_concepts, teach, reteach, prerequisites, is_current, current_topic,
  assessed, assessments,
}
use autonomus_academic_assis.Planner.Contract.Meets.{
  Meets-decided, Meets-undecided, Meets-if, Meets-unless, Meets-present, Meets-required,
}
use autonomus_academic_assis.Planner.Contract.Sound.{
  known, InGraph, graph_issue-InGraph, blocked-Sound,
}
use autonomus_academic_assis.Planner.Contract.Early.{Good}

module _ {F : Floats} where
  -- What the input's validators check: a weak prerequisite's path starts at its concept.
  abbrev pub StartsAt : ℕ → List (GraphEdge F) → Type 0
  StartsAt a [] = ⊥
  StartsAt a (e ∷ path) = e.source_node_id ≡ a

  abbrev pub HasPath : WeakPrerequisiteCandidate F → Type 0
  HasPath weak = StartsAt weak.stable_concept_id weak.path

module _ {F : Floats} (state_digest : PlanningState F → String) (state : PlanningState F) where
  in_frame-Sound :
      (frame : RemediationFrame F) → Good state_digest state (in_frame state_digest state frame)
  unfolding in_frame graph_issue decision blocked
  in_frame-Sound frame = ground arith

  pub frames-Sound : Good state_digest state (frames state_digest state)
  unfolding frames
  frames-Sound = Meets-present state.remediation_frame _ (λ _. tt) λ frame _. in_frame-Sound frame

  in_mapped_frame-Sound :
      (target : ℕ) → Good state_digest state (in_mapped_frame state_digest state target)
  unfolding in_mapped_frame graph_issue decision blocked
  in_mapped_frame-Sound target = ground arith

  pub mapped_frames-Sound : Good state_digest state (mapped_frames state_digest state)
  unfolding mapped_frames
  mapped_frames-Sound =
      Meets-if state.active_remediation_frame _ _
        (λ _.
          Meets-required
            (if state.remediation_frame_complete
              then state.return_to_target_id
              else state.remediation_target_id)
            (blocked state_digest state "MISSING_REMEDIATION_TARGET" false)
            (in_mapped_frame state_digest state) (blocked-Sound state_digest state _ _)
            λ target _. in_mapped_frame-Sound target)
        (λ _. Meets-undecided tt)

  first_concept :
      (path : List (GraphEdge F)) (a : ℕ)
      → StartsAt a path
      → InGraph state [] (path_concepts path)
      → (known state.graph_context a ≡ true) × (is_some state.graph_context ≡ true)
  first_concept [] a h g = absurd h
  first_concept (e ∷ path) a h g = ground (arith, g.there, g.concepts_known)

  teach-Sound :
      (assessment : AssessmentPlanningState F) (weak : WeakPrerequisiteCandidate F)
      → HasPath weak
      → Good state_digest state (teach state_digest state assessment weak)
  unfolding teach
  teach-Sound assessment weak h =
      Meets-unless (graph_issue state [] (path_concepts weak.path) none) _ _
        (λ issue. blocked-Sound state_digest state issue false)
        λ clear.
          let (k, g) =
            first_concept weak.path weak.stable_concept_id h
              (graph_issue-InGraph state [] (path_concepts weak.path) none clear) in
          Meets-decided _ (unfold decision in ground arith)

  reteach-Sound :
      (assessment : AssessmentPlanningState F)
      → known state.graph_context assessment.topic_id ≡ true
      → is_some state.graph_context ≡ true
      → Good state_digest state (reteach state_digest state assessment)
  unfolding reteach decision
  reteach-Sound assessment k g = ground arith

  last_edge_there :
      (path : List (GraphEdge F)) (a : ℕ)
      → StartsAt a path
      → (e : GraphEdge F) × (last_edge path ≡ ok e)
  last_edge_there [] a h = absurd h
  last_edge_there (e ∷ []) a h = (e, refl)
  last_edge_there (e ∷ f ∷ path) a h = last_edge_there (f ∷ path) f.source_node_id refl

  prerequisites-Sound :
      (assessment : AssessmentPlanningState F) (weaks : List (WeakPrerequisiteCandidate F))
      → All HasPath weaks
      → known state.graph_context assessment.topic_id ≡ true
      → is_some state.graph_context ≡ true
      → Good state_digest state (prerequisites state_digest state assessment weaks)
  unfolding prerequisites
  prerequisites-Sound assessment [] h k g = reteach-Sound assessment k g
  prerequisites-Sound assessment (weak ∷ rest) h k g =
      let later = prerequisites-Sound assessment rest h.1 k g in
      let (last, e) = last_edge_there weak.path weak.stable_concept_id h.0 in
      Meets-if (not (all is_executable weak.path)) _ _ (λ _. later)
        λ _. rw e (
          Meets-if (not (contains last.target_node_id assessment.failing_concept_ids)) _ _
            (λ _. later) (λ _. teach-Sound assessment weak h.0))

  topic_known :
      (a : ℕ) (concepts : List ℕ)
      → InGraph state (a ∷ []) concepts
      → (known state.graph_context a ≡ true) × (is_some state.graph_context ≡ true)
  topic_known a concepts g = ground (arith, g.there, g.topics_known)

  assessed-Sound :
      (assessment : AssessmentPlanningState F)
      → All HasPath assessment.weak_prerequisites
      → Good state_digest state (assessed state_digest state assessment)
  unfolding assessed
  assessed-Sound assessment h =
      Meets-if (not (is_current (current_topic state) assessment.topic_id)) _ _
        (λ _. Meets-decided _ (blocked-Sound state_digest state "ASSESSMENT_TOPIC_MISMATCH" false))
        λ _.
          Meets-unless
            (graph_issue state (assessment.topic_id ∷ []) assessment.failing_concept_ids none) _ _
            (λ issue. blocked-Sound state_digest state issue false)
            λ clear.
              let (k, g) =
                topic_known assessment.topic_id assessment.failing_concept_ids
                  (graph_issue-InGraph state _ _ none clear) in
              prerequisites-Sound assessment assessment.weak_prerequisites h k g

  pub assessments-Sound :
      ((assessment : AssessmentPlanningState F)
        → state.latest_assessment ≡ some assessment
        → All HasPath assessment.weak_prerequisites)
      → Good state_digest state (assessments state_digest state)
  unfolding assessments
  assessments-Sound h =
      Meets-present state.latest_assessment _ (λ _. tt)
        λ assessment e. assessed-Sound assessment (h assessment e)
