-- ===== src/Planner/Contract/Progress.antt =====
-- Rules 6 to 8 meet the contract: topic progression, the advance and diagnostics; and so does `decide`.
use autonomus_academic_assis.Base.{
  ℕ, ◌≡◌, refl, Bool, true, false, not, ◌||◌, Option, none, some, List, [], ◌∷◌, String, arith,
  is_some, All,
}
use autonomus_academic_assis.Base.Floats.{Floats}
use autonomus_academic_assis.Planner.State.{
  PlanningState, TopicPlanningState, PrerequisiteGate, DiagnosticCandidate,
}
use autonomus_academic_assis.Planner.Decision.{decision, blocked, graph_issue, diagnostic_issue}
use autonomus_academic_assis.Planner.Policy.Topic.{
  is_hard_gate, gate_result, hard_gate, gates, position, advance_to, advance, authorized_topic,
  in_topic, progression, diagnosed, diagnostics, other_topic,
}
use autonomus_academic_assis.Planner.Contract.Meets.{
  Meets, Meets-decided, Meets-undecided, Meets-if, Meets-unless, Meets-present, Meets-required,
  Meets-any, Meets-otherwise, Meets-imp,
}
use autonomus_academic_assis.Planner.Contract.Sound.{
  Sound, known, InGraph, graph_issue-InGraph, blocked-Sound, IsOpen, MayAdvance,
}
use autonomus_academic_assis.Planner.Contract.Early.{Good}

module _ {F : Floats} (state_digest : PlanningState F → String) (state : PlanningState F)
    (topic : TopicPlanningState F) (here : state.topic ≡ some topic)
    (g : is_some state.graph_context ≡ true) where
  gate_result-Sound :
      (gate : PrerequisiteGate F) (satisfied : Option Bool)
      → known state.graph_context gate.edge.source_node_id ≡ true
      → Meets
          (Sound state)
          (satisfied ≡ some true)
          (gate_result state_digest state topic gate satisfied)
  unfolding gate_result decision blocked
  gate_result-Sound gate none k = ground arith
  gate_result-Sound gate (some true) k = Meets-undecided refl
  gate_result-Sound gate (some false) k = ground arith

  edge_known : (a b : ℕ) → InGraph state [] (a ∷ b ∷ []) → known state.graph_context a ≡ true
  edge_known a b i = ground (arith, i.there, i.concepts_known)

  hard_gate-Sound :
      (gate : PrerequisiteGate F)
      → Meets (Sound state) (gate.satisfied ≡ some true) (hard_gate state_digest state topic gate)
  unfolding hard_gate
  hard_gate-Sound gate =
      let concepts = gate.edge.source_node_id ∷ gate.edge.target_node_id ∷ [] in
      Meets-unless (graph_issue state [] concepts none) _
        (gate_result state_digest state topic gate gate.satisfied)
        (λ issue. blocked-Sound state_digest state issue false)
        λ clear.
          gate_result-Sound gate gate.satisfied
            (edge_known _ _ (graph_issue-InGraph state [] concepts none clear))

  gates-Sound :
      (gs : List (PrerequisiteGate F))
      → Meets (Sound state) (All (IsOpen topic) gs) (gates state_digest state topic gs)
  unfolding gates
  gates-Sound [] = Meets-undecided tt
  gates-Sound (gate ∷ rest) =
      Meets-if (not (is_hard_gate topic gate)) _ _
        (λ soft.
          Meets-imp _ (gates-Sound rest) λ open_rest. ((λ h. absurd (ground arith)), open_rest))
        (λ _.
          Meets-otherwise (gate.satisfied ≡ some true) _ _ (hard_gate-Sound gate)
            λ s. Meets-imp _ (gates-Sound rest) λ open_rest. ((λ _. s), open_rest))

  position-Sound :
      known state.graph_context topic.topic_id ≡ true
      → Meets
          (Sound state)
          ((topic.taught ≡ true) × (topic.checked ≡ true) × (topic.quiz_completed ≡ true))
          (position state_digest state topic)
  unfolding position decision
  position-Sound k = ground arith

  next_known : (next : ℕ) → InGraph state (next ∷ []) [] → known state.graph_context next ≡ true
  next_known next i = ground (arith, i.there, i.topics_known)

  advance_to-Sound :
      (next : ℕ)
      → MayAdvance topic
      → topic.next_topic_id ≡ some next
      → Meets (Sound state) Unit (advance_to state_digest state topic next)
  unfolding advance_to decision
  advance_to-Sound next may e =
      Meets-unless (graph_issue state (next ∷ []) [] none) _ _
        (λ issue. blocked-Sound state_digest state issue false)
        λ clear.
          let i = graph_issue-InGraph state (next ∷ []) [] none clear in
          Meets-decided _ (record {
            graph_there = λ _. g;
            known_target = λ _. next_known next i;
            confirmed_skip = λ _ _ r. absurd (cc r);
            may_advance = λ _. (topic, here, may, e);
            no_frame = λ r. absurd (cc r);
            blocks = λ r. absurd (cc r);
            versions = (refl, refl);
          })

  advance-Sound :
      (satisfied : Option Bool)
      → (satisfied ≡ some true → MayAdvance topic)
      → Good state_digest state (advance state_digest state topic satisfied)
  unfolding advance
  advance-Sound none may = Meets-undecided tt
  advance-Sound (some false) may = Meets-undecided tt
  advance-Sound (some true) may =
      Meets-required topic.next_topic_id (blocked state_digest state "MISSING_NEXT_TOPIC" false)
        (advance_to state_digest state topic) (blocked-Sound state_digest state _ _)
        λ next e. advance_to-Sound next (may refl) e

  allowed :
      not topic.authorized || not topic.prerequisites_evaluated ≡ false
      → (topic.authorized ≡ true) × (topic.prerequisites_evaluated ≡ true)
  allowed h = ground arith

  authorized_topic-Sound :
      known state.graph_context topic.topic_id ≡ true
      → Good state_digest state (authorized_topic state_digest state topic)
  unfolding authorized_topic
  authorized_topic-Sound k =
      Meets-if (other_topic state.target_topic_id topic.topic_id) _ _
        (λ _. Meets-decided _ (blocked-Sound state_digest state "TOPIC_CONTEXT_MISMATCH" false))
        λ _.
          Meets-if (not topic.authorized || not topic.prerequisites_evaluated) _ _
            (λ _.
              Meets-decided _
                (blocked-Sound state_digest state "MISSING_TOPIC_AUTHORIZATION" false))
            λ a.
              Meets-otherwise (All (IsOpen topic) topic.prerequisite_gates) _ _
                (gates-Sound topic.prerequisite_gates)
                λ open_gates.
                  Meets-otherwise
                    ((topic.taught ≡ true) × (topic.checked ≡ true) × (topic.quiz_completed ≡ true))
                    _ _ (position-Sound k)
                    λ p. advance-Sound topic.gate_satisfied λ s. record {
                      authorized = (allowed a).0;
                      evaluated = (allowed a).1;
                      taught = p.0;
                      checked = p.1;
                      quizzed = p.2;
                      satisfied = s;
                      open_gates = open_gates;
                    }

module _ {F : Floats} (state_digest : PlanningState F → String) (state : PlanningState F) where
  topic_known :
      (a : ℕ) (concepts : List ℕ)
      → InGraph state (a ∷ []) concepts
      → (known state.graph_context a ≡ true) × (is_some state.graph_context ≡ true)
  topic_known a concepts g = ground (arith, g.there, g.topics_known)

  in_topic-Sound :
      (topic : TopicPlanningState F)
      → state.topic ≡ some topic
      → Good state_digest state (in_topic state_digest state topic)
  unfolding in_topic
  in_topic-Sound topic e =
      Meets-unless (graph_issue state (topic.topic_id ∷ []) topic.core_concept_ids none) _ _
        (λ issue. blocked-Sound state_digest state issue false)
        λ clear.
          let (k, g) =
            topic_known topic.topic_id topic.core_concept_ids
              (graph_issue-InGraph state _ _ none clear) in
          authorized_topic-Sound state_digest state topic e g k

  pub progression-Sound : Good state_digest state (progression state_digest state)
  unfolding progression
  progression-Sound = Meets-present state.topic _ (λ _. tt) in_topic-Sound

  diagnosed-Sound :
      (candidate : DiagnosticCandidate F)
      → Good state_digest state (diagnosed state_digest state candidate)
  unfolding diagnosed diagnostic_issue graph_issue decision blocked
  diagnosed-Sound candidate = ground arith

  pub diagnostics-Sound : Good state_digest state (diagnostics state_digest state)
  unfolding diagnostics
  diagnostics-Sound =
      Meets-any state.diagnostic_candidates _ _ (Meets-undecided tt)
        λ candidate _ _. diagnosed-Sound candidate
