-- ===== src/Planner/Vocabulary.antt =====
-- The enumerations that the planner reads and writes: packages/domain/enums.py,
-- packages/domain/adaptation.py, packages/domain/graph.py and packages/domain/models.py. Two values are
-- compared by their places in the declaration; the places of `ProjectionFreshness` are in the order of the values' texts, so that they
-- also sort it.
use autonomus_academic_assis.Base.{ℕ, Bool, ◌==◌, String}

pub data PlannerAction : Type 0 where
  diagnose teach_current_topic teach_prerequisite practice_concept : PlannerAction
  generate_micro_check generate_quiz review_due reteach_with_new_strategy : PlannerAction
  advance_topic return_to_target search_more_context escalate_model ask_user : PlannerAction
  pause complete : PlannerAction

abbrev pub action_place : PlannerAction → ℕ
action_place diagnose = 0
action_place teach_current_topic = 1
action_place teach_prerequisite = 2
action_place practice_concept = 3
action_place generate_micro_check = 4
action_place generate_quiz = 5
action_place review_due = 6
action_place reteach_with_new_strategy = 7
action_place advance_topic = 8
action_place return_to_target = 9
action_place search_more_context = 10
action_place escalate_model = 11
action_place ask_user = 12
action_place pause = 13
action_place complete = 14

abbrev pub same_action : PlannerAction → PlannerAction → Bool
same_action a b = action_place a == action_place b

pub data ReasonCode : Type 0 where
  low_prereq_mastery repeated_failure gate_satisfied review_due user_directive : ReasonCode
  no_progress_loop low_evidence retrieval_insufficient budget_exceeded : ReasonCode
  frame_complete user_paused session_complete state_missing state_stale : ReasonCode
  topic_not_taught check_required quiz_required diagnostic_pending : ReasonCode

pub data PlannerRule : Type 0 where
  hard_stop required_state directive review remediation_continue : PlannerRule
  remediation_return assessment_failure prerequisite_gate topic_teach : PlannerRule
  topic_check topic_quiz gate_advance diagnostic needs_state : PlannerRule

abbrev pub rule_place : PlannerRule → ℕ
rule_place hard_stop = 0
rule_place required_state = 1
rule_place directive = 2
rule_place review = 3
rule_place remediation_continue = 4
rule_place remediation_return = 5
rule_place assessment_failure = 6
rule_place prerequisite_gate = 7
rule_place topic_teach = 8
rule_place topic_check = 9
rule_place topic_quiz = 10
rule_place gate_advance = 11
rule_place diagnostic = 12
rule_place needs_state = 13

abbrev pub same_rule : PlannerRule → PlannerRule → Bool
same_rule a b = rule_place a == rule_place b

pub data PolicyOutcome : Type 0 where
  allow require_confirmation block : PolicyOutcome

pub data ReviewDueReason : Type 0 where
  mastery_below_threshold review_overdue : ReviewDueReason

pub data DirectiveKind : Type 0 where
  skip explain_simpler more_practice i_know_this : DirectiveKind

abbrev pub kind_place : DirectiveKind → ℕ
kind_place skip = 0
kind_place explain_simpler = 1
kind_place more_practice = 2
kind_place i_know_this = 3

abbrev pub same_kind : DirectiveKind → DirectiveKind → Bool
same_kind a b = kind_place a == kind_place b

pub data EdgeType : Type 0 where
  prerequisite_of part_of related_to builds_on assesses example_of : EdgeType

abbrev pub edge_type_place : EdgeType → ℕ
edge_type_place prerequisite_of = 0
edge_type_place part_of = 1
edge_type_place related_to = 2
edge_type_place builds_on = 3
edge_type_place assesses = 4
edge_type_place example_of = 5

abbrev pub same_edge_type : EdgeType → EdgeType → Bool
same_edge_type a b = edge_type_place a == edge_type_place b

pub data EdgeSource : Type 0 where
  syllabus_explicit llm_proposed user_confirmed seed_template : EdgeSource

pub data EdgeStatus : Type 0 where
  proposed confirmed rejected : EdgeStatus

abbrev pub edge_status_place : EdgeStatus → ℕ
edge_status_place proposed = 0
edge_status_place confirmed = 1
edge_status_place rejected = 2

abbrev pub same_edge_status : EdgeStatus → EdgeStatus → Bool
same_edge_status a b = edge_status_place a == edge_status_place b

pub data ProjectionFreshness : Type 0 where
  evidence_set_stale fresh graph_context_stale missing_projection : ProjectionFreshness
  missing_revision : ProjectionFreshness

abbrev pub freshness_place : ProjectionFreshness → ℕ
freshness_place evidence_set_stale = 0
freshness_place fresh = 1
freshness_place graph_context_stale = 2
freshness_place missing_projection = 3
freshness_place missing_revision = 4

abbrev pub same_freshness : ProjectionFreshness → ProjectionFreshness → Bool
same_freshness a b = freshness_place a == freshness_place b

pub data MasteryStatus : Type 0 where
  unassessed weak developing proficient mastered : MasteryStatus

-- `state.value`
abbrev pub freshness_value : ProjectionFreshness → String
freshness_value evidence_set_stale = "EVIDENCE_SET_STALE"
freshness_value fresh = "FRESH"
freshness_value graph_context_stale = "GRAPH_CONTEXT_STALE"
freshness_value missing_projection = "MISSING_PROJECTION"
freshness_value missing_revision = "MISSING_REVISION"
