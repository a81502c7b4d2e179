-- ===== src/Planner/State.antt =====
-- The planner's input, packages/domain/adaptation.py with `GraphEdge` of packages/domain/graph.py.
use autonomus_academic_assis.Base.{ℕ, Bool, Option, List, String}
use autonomus_academic_assis.Base.Floats.{Floats}
use autonomus_academic_assis.Planner.Vocabulary.{
  PlannerAction, ReviewDueReason, DirectiveKind, EdgeType, EdgeSource, EdgeStatus,
  ProjectionFreshness, MasteryStatus,
}

pub record ProjectionFreshnessResult : Type 0 where
  pub learner_id : ℕ
  pub course_id : ℕ
  pub stable_concept_id : ℕ
  pub state : ProjectionFreshness
  pub projection_head_id : Option ℕ
  pub projection_revision_id : Option ℕ
  pub expected_evidence_set_digest : Option String
  pub observed_evidence_set_digest : Option String
  pub expected_graph_version_id : Option ℕ
  pub observed_graph_version_id : Option ℕ

pub record DiagnosticState : Type 0 where
  pub diagnostic_run_id : ℕ
  pub learner_id : ℕ
  pub course_id : ℕ
  pub graph_version_id : ℕ
  pub diagnostic_policy_version : String
  pub item_budget : ℕ
  pub selected_concept_ids : List ℕ
  pub attempted_question_version_ids : List ℕ
  pub diagnostic_assessed_concept_ids : List ℕ
  pub remaining_item_budget : ℕ

pub record PlanningDirective : Type 0 where
  pub directive_id : ℕ
  pub kind : DirectiveKind
  pub target_id : ℕ
  pub source : String

pub record PlanningGraphContext : Type 0 where
  pub course_id : ℕ
  pub graph_version_id : ℕ
  pub current_graph_version_id : ℕ
  pub topic_ids : List ℕ
  pub concept_ids : List ℕ
  pub mandatory_topic_ids : List ℕ

module _ (F : Floats) where
  open F use {Float}

  pub record ReviewCandidate : Type 0 where
    pub learner_id : ℕ
    pub course_id : ℕ
    pub stable_concept_id : ℕ
    pub reasons : List ReviewDueReason
    pub due_at : Option ℕ
    pub decayed_mastery : Float
    pub confidence : Float
    pub mastery_status : MasteryStatus
    pub review_successes : ℕ
    pub review_rung : ℕ
    pub projection_revision_id : Option ℕ
    pub evidence_set_digest : Option String
    pub graph_version_id : Option ℕ
    pub review_policy_version : String
    pub schedule_cycle : Option String
    pub supporting_evidence_ids : List ℕ
    pub supporting_event_ids : List ℕ

  pub record DiagnosticCandidate : Type 0 where
    pub stable_concept_id : ℕ
    pub score : Float
    pub descendant_count : ℕ
    pub confidence : Float
    pub topological_rank : ℕ
    pub question_version_ids : List ℕ

  pub record RemediationFrame : Type 0 where
    pub frame_id : ℕ
    pub target_concept_id : ℕ
    pub return_to_topic_id : ℕ
    pub complete : Bool
    pub continuation_action : PlannerAction
    pub evidence_ids : List ℕ
    pub confidence : Float

  pub record GraphEdge : Type 0 where
    pub edge_id : ℕ
    pub edge_type : EdgeType
    pub source_node_id : ℕ
    pub target_node_id : ℕ
    pub source : EdgeSource
    pub confidence : Float
    pub status : EdgeStatus

  pub record PrerequisiteGate : Type 0 where
    pub edge : GraphEdge
    pub satisfied : Option Bool
    pub evidence_ids : List ℕ
    pub confidence : Float

  pub record WeakPrerequisiteCandidate : Type 0 where
    pub stable_concept_id : ℕ
    pub path : List GraphEdge
    pub evidence_ids : List ℕ
    pub confidence : Float

  pub record AssessmentPlanningState : Type 0 where
    pub topic_id : ℕ
    pub failing_concept_ids : List ℕ
    pub weak_prerequisites : List WeakPrerequisiteCandidate
    pub evidence_ids : List ℕ
    pub confidence : Float

  pub record TopicPlanningState : Type 0 where
    pub topic_id : ℕ
    pub core_concept_ids : List ℕ
    pub authorized : Bool
    pub taught : Bool
    pub checked : Bool
    pub quiz_completed : Bool
    pub prerequisites_evaluated : Bool
    pub prerequisite_gates : List PrerequisiteGate
    pub gate_satisfied : Option Bool
    pub next_topic_id : Option ℕ
    pub evidence_ids : List ℕ
    pub confidence : Float

  pub record PlanningState : Type 0 where
    pub learner_id : ℕ
    pub course_id : ℕ
    pub session_id : ℕ
    pub plan_version : ℕ
    pub planner_policy_version : String
    pub hard_stop : Option PlannerAction
    pub pending_user_directive : Option PlannerAction
    pub active_remediation_frame : Bool
    pub remediation_frame_complete : Bool
    pub remediation_target_id : Option ℕ
    pub return_to_target_id : Option ℕ
    pub review_candidates : List ReviewCandidate
    pub diagnostic_state : Option DiagnosticState
    pub diagnostic_target_id : Option ℕ
    pub target_topic_id : Option ℕ
    pub session_complete : Bool
    pub user_paused : Bool
    pub budget_exceeded : Bool
    pub directives : List PlanningDirective
    pub remediation_frame : Option RemediationFrame
    pub diagnostic_candidates : List DiagnosticCandidate
    pub topic : Option TopicPlanningState
    pub latest_assessment : Option AssessmentPlanningState
    pub graph_context : Option PlanningGraphContext
    pub required_freshness : List ProjectionFreshnessResult
    pub source_event_ids : List ℕ
