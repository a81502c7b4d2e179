-- ===== src/Examples/Plan.antt =====
-- The theorems on the planner at a topic that may be left.
use autonomus_academic_assis.Base.{◌≡◌, true, false, none, some, [], ◌∷◌, String, ok}
use autonomus_academic_assis.Base.Floats.{whole}
use autonomus_academic_assis.Planner.Vocabulary.{
  advance_topic, gate_satisfied, gate_advance, hard_stop, fresh,
}
use autonomus_academic_assis.Planner.State.{
  PlanningState, PlanningGraphContext, TopicPlanningState, ProjectionFreshnessResult,
}
use autonomus_academic_assis.Planner.Decision.{PlannerDecision, no_details, decision}
use autonomus_academic_assis.Planner.Policy.{decide}
use autonomus_academic_assis.Planner.Policy.Directives.{directives}
use autonomus_academic_assis.Planner.Contract.Sound.{Sound}
use autonomus_academic_assis.Planner.Contract.Decide.{HasPaths, decide-Sound}
use autonomus_academic_assis.Planner.Contract.Ready.{Ready}

abbrev graph : PlanningGraphContext
graph = record {
  course_id = 2;
  graph_version_id = 5;
  current_graph_version_id = 5;
  topic_ids = 10 ∷ 11 ∷ [];
  concept_ids = 20 ∷ [];
  mandatory_topic_ids = 10 ∷ [];
}

abbrev topic : TopicPlanningState whole
topic = record {
  topic_id = 10;
  core_concept_ids = 20 ∷ [];
  authorized = true;
  taught = true;
  checked = true;
  quiz_completed = true;
  prerequisites_evaluated = true;
  prerequisite_gates = [];
  gate_satisfied = some true;
  next_topic_id = some 11;
  evidence_ids = 31 ∷ 30 ∷ 31 ∷ [];
  confidence = 8;
}

abbrev projection : ProjectionFreshnessResult
projection = record {
  learner_id = 1;
  course_id = 2;
  stable_concept_id = 20;
  state = fresh;
  projection_head_id = none;
  projection_revision_id = none;
  expected_evidence_set_digest = none;
  observed_evidence_set_digest = none;
  expected_graph_version_id = none;
  observed_graph_version_id = none;
}

abbrev state : PlanningState whole
state = record {
  learner_id = 1;
  course_id = 2;
  session_id = 3;
  plan_version = 4;
  planner_policy_version = "planner_v1";
  hard_stop = none;
  pending_user_directive = none;
  active_remediation_frame = false;
  remediation_frame_complete = false;
  remediation_target_id = none;
  return_to_target_id = none;
  review_candidates = [];
  diagnostic_state = none;
  diagnostic_target_id = none;
  target_topic_id = some 10;
  session_complete = false;
  user_paused = false;
  budget_exceeded = false;
  directives = [];
  remediation_frame = none;
  diagnostic_candidates = [];
  topic = some topic;
  latest_assessment = none;
  graph_context = some graph;
  required_freshness = projection ∷ [];
  source_event_ids = [];
}

abbrev digest : PlanningState whole → String
digest s = "digest"

state-HasPaths : HasPaths state
state-HasPaths = λ assessment e. absurd (cc e)

abbrev advances : PlannerDecision whole
advances =
    decision digest state gate_advance advance_topic gate_satisfied
      "Advance to the caller-authorized next topic."
      (record (no_details whole) {
        target = some 11;
        evidence_ids = 31 ∷ 30 ∷ 31 ∷ [];
        confidence = 8;
      })

decide-Sound_example : (d : PlannerDecision whole) × (decide digest state ≡ ok d) × Sound state d
decide-Sound_example = decide-Sound digest state state-HasPaths
