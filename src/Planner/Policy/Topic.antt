-- ===== src/Planner/Policy/Topic.antt =====
-- Rules 6 to 8: topic progression, the advance through a satisfied gate, and pending diagnostics.
use autonomus_academic_assis.Base.{
  ℕ, Bool, true, false, not, ◌&&◌, ◌||◌, Option, none, some, List, [], ◌∷◌, ◌==◌, if◌then◌else◌,
  contains, String, str_eq,
}
use autonomus_academic_assis.Base.Floats.{Floats}
use autonomus_academic_assis.Planner.Vocabulary.{
  PlannerAction, teach_prerequisite, teach_current_topic, generate_micro_check, generate_quiz,
  advance_topic, diagnose, ReasonCode, low_prereq_mastery, topic_not_taught, check_required,
  quiz_required, gate_satisfied, diagnostic_pending, PlannerRule, prerequisite_gate, topic_teach,
  topic_check, topic_quiz, gate_advance, diagnostic,
}
use autonomus_academic_assis.Planner.State.{
  PlanningState, PrerequisiteGate, TopicPlanningState, DiagnosticCandidate,
}
use autonomus_academic_assis.Planner.Decision.{
  no_details, decision, blocked, graph_issue, diagnostic_issue,
}
use autonomus_academic_assis.Planner.Policy.Rule.{
  Stage, decided, undecided, unless_issue, if_present, required, if_any, otherwise,
}
use autonomus_academic_assis.Planner.Policy.Assessment.{is_executable}

-- `target_topic_id is not None and target_topic_id != topic_id`
abbrev pub other_topic : Option ℕ → ℕ → Bool
other_topic none topic_id = false
other_topic (some target) topic_id = not (target == topic_id)

module _ {F : Floats} where
  -- A gate on a confirmed prerequisite of a core concept; the others inform only.
  abbrev pub is_hard_gate : TopicPlanningState F → PrerequisiteGate F → Bool
  is_hard_gate topic gate =
      is_executable gate.edge && contains gate.edge.target_node_id topic.core_concept_ids

module _ {F : Floats} (state_digest : PlanningState F → String) where
  unfoldable pub gate_result :
      PlanningState F → TopicPlanningState F → PrerequisiteGate F → Option Bool → Stage F
  gate_result state topic gate none =
      decided (blocked state_digest state "MISSING_PREREQUISITE_GATE_RESULT" false)
  gate_result state topic gate (some true) = undecided
  gate_result state topic gate (some false) = decided (
      decision state_digest state prerequisite_gate teach_prerequisite low_prereq_mastery
        "A confirmed prerequisite blocks progression."
        (record (no_details F) {
          target = some gate.edge.source_node_id;
          evidence_ids = gate.evidence_ids;
          confidence = gate.confidence;
          return_to = some topic.topic_id;
          edge_ids = gate.edge.edge_id ∷ [];
        }))

  unfoldable pub hard_gate : PlanningState F → TopicPlanningState F → PrerequisiteGate F → Stage F
  hard_gate state topic gate =
      unless_issue
        (graph_issue state [] (gate.edge.source_node_id ∷ gate.edge.target_node_id ∷ []) none)
        (λ issue. blocked state_digest state issue false)
        (gate_result state topic gate gate.satisfied)

  -- The `for` loop over the prerequisite gates.
  unfoldable pub gates :
      PlanningState F → TopicPlanningState F → List (PrerequisiteGate F) → Stage F
  gates state topic [] = undecided
  gates state topic (gate ∷ rest) =
      let later = gates state topic rest in
      if not (is_hard_gate topic gate) then later else otherwise (hard_gate state topic gate) later

  abbrev pub proceed :
      PlanningState F → TopicPlanningState F → PlannerRule → PlannerAction → ReasonCode → Stage F
  proceed state topic rule action reason = decided (
      decision state_digest state rule action reason
        "Proceed from the authoritative topic position."
        (record (no_details F) {
          target = some topic.topic_id;
          evidence_ids = topic.evidence_ids;
          confidence = topic.confidence;
        }))

  -- The first applicable of teaching, checking and the quiz.
  unfoldable pub position : PlanningState F → TopicPlanningState F → Stage F
  position state topic =
      if not topic.taught
      then proceed state topic topic_teach teach_current_topic topic_not_taught
      else if not topic.checked
      then proceed state topic topic_check generate_micro_check check_required
      else if not topic.quiz_completed
      then proceed state topic topic_quiz generate_quiz quiz_required
      else undecided

  unfoldable pub advance_to : PlanningState F → TopicPlanningState F → (next : ℕ) → Stage F
  advance_to state topic next =
      unless_issue (graph_issue state (next ∷ []) [] none)
        (λ issue. blocked state_digest state issue false)
        (decided (
          decision state_digest state gate_advance advance_topic gate_satisfied
            "Advance to the caller-authorized next topic."
            (record (no_details F) {
              target = some next;
              evidence_ids = topic.evidence_ids;
              confidence = topic.confidence;
            })))

  -- `if topic.gate_satisfied`: neither None nor False passes.
  unfoldable pub advance : PlanningState F → TopicPlanningState F → Option Bool → Stage F
  advance state topic (some true) =
      required topic.next_topic_id (blocked state_digest state "MISSING_NEXT_TOPIC" false)
        (advance_to state topic)
  advance state topic _ = undecided

  unfoldable pub authorized_topic : PlanningState F → TopicPlanningState F → Stage F
  authorized_topic state topic =
      if other_topic state.target_topic_id topic.topic_id
      then decided (blocked state_digest state "TOPIC_CONTEXT_MISMATCH" false)
      else if not topic.authorized || not topic.prerequisites_evaluated
      then decided (blocked state_digest state "MISSING_TOPIC_AUTHORIZATION" false)
      else otherwise (gates state topic topic.prerequisite_gates)
          (otherwise (position state topic) (advance state topic topic.gate_satisfied))

  unfoldable pub in_topic : PlanningState F → TopicPlanningState F → Stage F
  in_topic state topic =
      unless_issue (graph_issue state (topic.topic_id ∷ []) topic.core_concept_ids none)
        (λ issue. blocked state_digest state issue false) (authorized_topic state topic)

  unfoldable pub progression : PlanningState F → Stage F
  progression state = if_present state.topic (in_topic state)

  unfoldable pub diagnosed : PlanningState F → DiagnosticCandidate F → Stage F
  diagnosed state candidate =
      unless_issue (diagnostic_issue state candidate)
        (λ issue. blocked state_digest state issue (str_eq issue "GRAPH_CONTEXT_STALE"))
        (decided (
          decision state_digest state diagnostic diagnose diagnostic_pending
            "Use the first diagnostic candidate and its already-selected questions."
            (record (no_details F) {
              target = some candidate.stable_concept_id;
              diagnostic = some candidate;
              confidence = candidate.confidence;
            })))

  unfoldable pub diagnostics : PlanningState F → Stage F
  diagnostics state =
      if_any state.diagnostic_candidates undecided λ candidate _. diagnosed state candidate
