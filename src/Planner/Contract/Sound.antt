-- ===== src/Planner/Contract/Sound.antt =====
-- The guarantees of one decision, and what a passed graph check tells.
use autonomus_academic_assis.Base.{
  ℕ, ◌≡◌, refl, Bool, true, false, not, ◌||◌, Option, none, some, List, String, arith, any,
  contains, is_some, All,
}
use autonomus_academic_assis.Base.Floats.{Floats}
use autonomus_academic_assis.Planner.Vocabulary.{
  advance_topic, PlannerRule, hard_stop, required_state, directive, review, remediation_continue,
  remediation_return, gate_advance, needs_state, block, require_confirmation,
}
use autonomus_academic_assis.Planner.State.{
  PlanningState, PlanningGraphContext, TopicPlanningState, PrerequisiteGate,
}
use autonomus_academic_assis.Planner.Decision.{PlannerDecision, blocked, graph_issue}
use autonomus_academic_assis.Planner.Policy.Topic.{is_hard_gate}

-- `a` is a topic or a concept of the graph, if there is a graph.
abbrev pub known : Option PlanningGraphContext → ℕ → Bool
known none a = true
known (some g) a = contains a g.topic_ids || contains a g.concept_ids

-- The rules that choose an action for the learner.
abbrev pub chooses : PlannerRule → Bool
chooses hard_stop = false
chooses required_state = false
chooses needs_state = false
chooses _ = true

-- The rules that need a graph.
abbrev pub needs_graph : PlannerRule → Bool
needs_graph remediation_continue = false
needs_graph remediation_return = false
needs_graph rule = chooses rule

module _ {F : Floats} where
  -- `PrerequisiteGate`s that are no hard gate, or are satisfied.
  abbrev pub IsOpen : TopicPlanningState F → PrerequisiteGate F → Type 0
  IsOpen topic gate = is_hard_gate topic gate ≡ true → gate.satisfied ≡ some true

  -- The topic may be left: it is authorized, taught, checked and quizzed, its gate is satisfied, and
  -- so is every hard gate on it.
  pub record MayAdvance (topic : TopicPlanningState F) : Type 0 where
    pub authorized : topic.authorized ≡ true
    pub evaluated : topic.prerequisites_evaluated ≡ true
    pub taught : topic.taught ≡ true
    pub checked : topic.checked ≡ true
    pub quizzed : topic.quiz_completed ≡ true
    pub satisfied : topic.gate_satisfied ≡ some true
    pub open_gates : All (IsOpen topic) topic.prerequisite_gates

  -- Fields, not a sum: a decision of another rule meets each for lack of its premise.
  pub record Sound (state : PlanningState F) (d : PlannerDecision F) : Type 0 where
    pub graph_there : needs_graph d.provenance.rule ≡ true → is_some state.graph_context ≡ true
    pub known_target :
        chooses d.provenance.rule ≡ true → known state.graph_context d.target_id ≡ true
    pub confirmed_skip :
        (g : PlanningGraphContext)
        → state.graph_context ≡ some g
        → d.provenance.rule ≡ directive
        → d.action ≡ advance_topic
        → contains d.target_id g.mandatory_topic_ids ≡ true
        → d.policy_outcome ≡ require_confirmation
    pub may_advance :
        d.provenance.rule ≡ gate_advance
        → (topic : TopicPlanningState F) × (state.topic ≡ some topic)
          × MayAdvance topic
          × (topic.next_topic_id ≡ some d.target_id)
    pub no_frame :
        d.provenance.rule ≡ review
        → (state.remediation_frame ≡ none) × (state.active_remediation_frame ≡ false)
    pub blocks : d.provenance.rule ≡ required_state → d.policy_outcome ≡ block
    pub versions :
        (d.plan_version ≡ state.plan_version) × (d.provenance.session_id ≡ state.session_id)

  pub record InGraph (state : PlanningState F) (topics concepts : List ℕ) : Type 0 where
    pub graph : PlanningGraphContext
    pub there : state.graph_context ≡ some graph
    pub topics_known : any (λ t. not (contains t graph.topic_ids)) topics ≡ false
    pub concepts_known : any (λ c. not (contains c graph.concept_ids)) concepts ≡ false

  pub graph_issue-InGraph :
      (state : PlanningState F) (topics concepts : List ℕ) (version : Option ℕ)
      → graph_issue state topics concepts version ≡ none
      → InGraph state topics concepts
  unfolding graph_issue
  graph_issue-InGraph state topics concepts version h = go state.graph_context refl h
    where
      go :
          (g : Option PlanningGraphContext)
          → state.graph_context ≡ g
          → graph_issue state topics concepts version ≡ none
          → InGraph state topics concepts
      go none e h = absurd (ground arith)
      go (some g) e h = record {
        graph = g;
        there = e;
        topics_known = ground arith;
        concepts_known = ground arith;
      }

module _ {F : Floats} (state_digest : PlanningState F → String) where
  pub blocked-Sound :
      (state : PlanningState F) (issue : String) (stale : Bool)
      → Sound state (blocked state_digest state issue stale)
  unfolding blocked
  blocked-Sound state issue stale = ground arith
