-- ===== src/Planner/Policy/Assessment.antt =====
-- Rule 5: the failures of the latest assessment.
use autonomus_academic_assis.Base.{
  ℕ, Bool, false, not, ◌&&◌, Option, none, some, List, [], ◌∷◌, map, ◌==◌, if◌then◌else◌, all,
  contains, String, Result, ok, raise, index_error, ◌>>=◌,
}
use autonomus_academic_assis.Base.Floats.{Floats}
use autonomus_academic_assis.Planner.Vocabulary.{
  teach_prerequisite, reteach_with_new_strategy, low_prereq_mastery, repeated_failure,
  assessment_failure, prerequisite_of, confirmed, same_edge_type, same_edge_status,
}
use autonomus_academic_assis.Planner.State.{
  PlanningState, GraphEdge, WeakPrerequisiteCandidate, AssessmentPlanningState,
}
use autonomus_academic_assis.Planner.Decision.{no_details, decision, blocked, graph_issue}
use autonomus_academic_assis.Planner.Policy.Rule.{Stage, decided, unless_issue, if_present}

abbrev pub is_current : Option ℕ → ℕ → Bool
is_current none topic_id = false
is_current (some current) topic_id = current == topic_id

module _ {F : Floats} where
  abbrev pub is_executable : GraphEdge F → Bool
  is_executable edge =
      same_edge_type edge.edge_type prerequisite_of && same_edge_status edge.status confirmed

  -- `path[-1]`
  abbrev pub last_edge : List (GraphEdge F) → Result (GraphEdge F)
  last_edge [] = raise index_error
  last_edge (e ∷ []) = ok e
  last_edge (e ∷ f ∷ path) = last_edge (f ∷ path)

  abbrev pub path_concepts : List (GraphEdge F) → List ℕ
  path_concepts [] = []
  path_concepts (e ∷ path) = e.source_node_id ∷ e.target_node_id ∷ path_concepts path

module _ {F : Floats} where
  -- `topic.topic_id if topic is not None else target_topic_id`
  abbrev pub current_topic : PlanningState F → Option ℕ
  current_topic state = elim state.topic [
    | none ↦ state.target_topic_id
    | some topic ↦ some topic.topic_id
  ]

module _ {F : Floats} (state_digest : PlanningState F → String) where
  unfoldable pub teach :
      PlanningState F → AssessmentPlanningState F → WeakPrerequisiteCandidate F → Stage F
  teach state assessment weak =
      unless_issue (graph_issue state [] (path_concepts weak.path) none)
        (λ issue. blocked state_digest state issue false)
        (decided (
          decision state_digest state assessment_failure teach_prerequisite low_prereq_mastery
            "Teach the first caller-ranked weak prerequisite."
            (record (no_details F) {
              target = some weak.stable_concept_id;
              evidence_ids = weak.evidence_ids;
              confidence = weak.confidence;
              return_to = some assessment.topic_id;
              edge_ids = map (λ e. e.edge_id) weak.path;
            })))

  unfoldable pub reteach : PlanningState F → AssessmentPlanningState F → Stage F
  reteach state assessment = decided (
      decision state_digest state assessment_failure reteach_with_new_strategy repeated_failure
        "Reteach the failed topic; no executable weak prerequisite."
        (record (no_details F) {
          target = some assessment.topic_id;
          evidence_ids = assessment.evidence_ids;
          confidence = assessment.confidence;
        }))

  -- The `for` loop over the weak prerequisites, and what follows it.
  unfoldable pub prerequisites :
      PlanningState F → AssessmentPlanningState F → List (WeakPrerequisiteCandidate F) → Stage F
  prerequisites state assessment [] = reteach state assessment
  prerequisites state assessment (weak ∷ rest) =
      let later = prerequisites state assessment rest in
      if not (all is_executable weak.path) then later else (do
        last ← last_edge weak.path
        if not (contains last.target_node_id assessment.failing_concept_ids)
            then later
            else teach state assessment weak)

  unfoldable pub assessed : PlanningState F → AssessmentPlanningState F → Stage F
  assessed state assessment =
      if not (is_current (current_topic state) assessment.topic_id)
      then decided (blocked state_digest state "ASSESSMENT_TOPIC_MISMATCH" false)
      else unless_issue
          (graph_issue state (assessment.topic_id ∷ []) assessment.failing_concept_ids none)
          (λ issue. blocked state_digest state issue false)
          (prerequisites state assessment assessment.weak_prerequisites)

  unfoldable pub assessments : PlanningState F → Stage F
  assessments state = if_present state.latest_assessment (assessed state)
