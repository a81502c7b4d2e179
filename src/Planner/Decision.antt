-- ===== src/Planner/Decision.antt =====
-- The planner's output, `PlannerDecision` and `PlannerDecisionProvenance` of packages/domain/models.py,
-- and the helpers `_decision`, `_blocked`, `_graph_issue` and `_diagnostic_issue` of
-- packages/planner/policy.py. A UUID stands for its text in `target_id`. The digest of the state,
-- which hashes its serialization, is a parameter.
use Prim.Native.String.{◌++◌ as join}
use autonomus_academic_assis.Base.{
  ℕ, ◌+◌, Bool, false, not, ◌&&◌, ◌||◌, Option, none, some, List, [], ◌∷◌, ◌++◌, ltb, ◌==◌,
  if◌then◌else◌, or_else, any, contains, length, String,
}
use autonomus_academic_assis.Base.Floats.{Floats}
use autonomus_academic_assis.Planner.Vocabulary.{
  PlannerAction, ask_user, ReasonCode, state_missing, state_stale, PlannerRule, required_state,
  review, same_rule, PolicyOutcome, allow, block, ReviewDueReason,
}
use autonomus_academic_assis.Planner.State.{
  PlanningState, PlanningGraphContext, DiagnosticState, DiagnosticCandidate,
}

pub record PlannerDecisionProvenance : Type 0 where
  pub rule : PlannerRule
  pub learner_id : ℕ
  pub course_id : ℕ
  pub session_id : ℕ
  pub state_digest : String
  pub graph_version_id : Option ℕ
  pub directive_id : Option ℕ
  pub remediation_frame_id : Option ℕ
  pub return_to_topic_id : Option ℕ
  pub diagnostic_run_id : Option ℕ
  pub diagnostic_policy_version : Option String
  pub question_version_ids : List ℕ
  pub source_event_ids : List ℕ
  pub prerequisite_edge_ids : List ℕ
  pub projection_revision_id : Option ℕ
  pub evidence_set_digest : Option String
  pub review_reasons : List ReviewDueReason
  pub state_issue : Option String

-- `tuple(sorted(set(ids), key=bytes))`
unfoldable pub insert_id : ℕ → List ℕ → List ℕ
insert_id a [] = a ∷ []
insert_id a (b ∷ ids) =
    let rest = insert_id a ids in
    if ltb a b then a ∷ b ∷ ids else if a == b then b ∷ ids else b ∷ rest

unfoldable pub sorted_set : List ℕ → List ℕ
unfolding insert_id
sorted_set [] = []
sorted_set (a ∷ ids) = insert_id a (sorted_set ids)

-- `items[0]`, where the source reads it only from a non-empty tuple
abbrev pub first {ℓ} : {A : Type ℓ} → List A → Option A
first [] = none
first (x ∷ xs) = some x

module _ (F : Floats) where
  open F use {Float}

  pub record PlannerDecision : Type 0 where
    pub action : PlannerAction
    pub target_id : ℕ
    pub reason_codes : List ReasonCode
    pub evidence_ids : List ℕ
    pub confidence : Float
    pub policy_outcome : PolicyOutcome
    pub plan_version : ℕ
    pub planner_policy_version : String
    pub explanation : String
    pub provenance : PlannerDecisionProvenance

  -- The keyword arguments of `_decision`.
  pub record Details : Type 0 where
    pub target : Option ℕ
    pub evidence_ids : List ℕ
    pub confidence : Float
    pub outcome : PolicyOutcome
    pub directive_id : Option ℕ
    pub frame_id : Option ℕ
    pub return_to : Option ℕ
    pub diagnostic : Option (DiagnosticCandidate F)
    pub edge_ids : List ℕ
    pub issue : Option String

  abbrev pub no_details : Details
  no_details = record {
    target = none;
    evidence_ids = [];
    confidence = F.zero;
    outcome = allow;
    directive_id = none;
    frame_id = none;
    return_to = none;
    diagnostic = none;
    edge_ids = [];
    issue = none;
  }

module _ {F : Floats} (state_digest : PlanningState F → String) where
  unfoldable pub decision :
      PlanningState F
      → PlannerRule
      → PlannerAction
      → ReasonCode
      → String
      → Details F
      → PlannerDecision F
  unfolding sorted_set
  decision state rule action reason explanation details =
      let reviewed = if same_rule rule review then first state.review_candidates else none in
      let run : Option DiagnosticState = elim details.diagnostic [
        | none ↦ none
        | some _ ↦ state.diagnostic_state
      ] in
      record {
        action = action;
        target_id = or_else details.target (or_else state.target_topic_id state.session_id);
        reason_codes = reason ∷ [];
        evidence_ids = sorted_set details.evidence_ids;
        confidence = details.confidence;
        policy_outcome = details.outcome;
        plan_version = state.plan_version;
        planner_policy_version = state.planner_policy_version;
        explanation = explanation;
        provenance = record {
          rule = rule;
          learner_id = state.learner_id;
          course_id = state.course_id;
          session_id = state.session_id;
          state_digest = state_digest state;
          graph_version_id = elim state.graph_context [
            | none ↦ none
            | some g ↦ some g.graph_version_id
          ];
          directive_id = details.directive_id;
          remediation_frame_id = details.frame_id;
          return_to_topic_id = details.return_to;
          diagnostic_run_id = elim run [ none ↦ none | some r ↦ some r.diagnostic_run_id ];
          diagnostic_policy_version = elim run [
            | none ↦ none
            | some r ↦ some r.diagnostic_policy_version
          ];
          question_version_ids = elim details.diagnostic [
            | none ↦ []
            | some c ↦ c.question_version_ids
          ];
          source_event_ids = sorted_set (
              state.source_event_ids
              ++ elim reviewed [ none ↦ [] | some c ↦ c.supporting_event_ids ]);
          prerequisite_edge_ids = details.edge_ids;
          projection_revision_id = elim reviewed [
            | none ↦ none
            | some c ↦ c.projection_revision_id
          ];
          evidence_set_digest = elim reviewed [ none ↦ none | some c ↦ c.evidence_set_digest ];
          review_reasons = elim reviewed [ none ↦ [] | some c ↦ c.reasons ];
          state_issue = details.issue;
        };
      }

  unfoldable pub blocked : PlanningState F → (issue : String) → (stale : Bool) → PlannerDecision F
  unfolding decision
  blocked state issue stale =
      decision state required_state ask_user (if stale then state_stale else state_missing)
        (join "Authoritative planning state is unavailable: " (join issue "."))
        (record (no_details F) { outcome = block; issue = some issue })

-- `version is not None and version != graph.graph_version_id`
abbrev pub other_version : Option ℕ → PlanningGraphContext → Bool
other_version none graph = false
other_version (some v) graph = not (v == graph.graph_version_id)

module _ {F : Floats} where
  unfoldable pub graph_issue :
      PlanningState F → (topics concepts : List ℕ) → (version : Option ℕ) → Option String
  graph_issue state topics concepts version = elim state.graph_context [
    | none ↦ some "MISSING_GRAPH_CONTEXT"
    | some graph ↦
        if other_version version graph
        then some "GRAPH_CONTEXT_STALE"
        else if any (λ t. not (contains t graph.topic_ids)) topics
        then some "UNKNOWN_TOPIC"
        else if any (λ c. not (contains c graph.concept_ids)) concepts
        then some "UNKNOWN_CONCEPT"
        else none
  ]

  abbrev pub sum_questions : List (DiagnosticCandidate F) → ℕ
  sum_questions [] = 0
  sum_questions (c ∷ cs) = length c.question_version_ids + sum_questions cs

  -- The checks of `_diagnostic_issue` behind those of the graph.
  unfoldable pub budget_issue :
      PlanningState F → DiagnosticState → DiagnosticCandidate F → Option String
  budget_issue state run candidate =
      if ltb run.remaining_item_budget (sum_questions state.diagnostic_candidates)
      then some "DIAGNOSTIC_BUDGET_MISMATCH"
      else if contains candidate.stable_concept_id
            (run.selected_concept_ids ++ run.diagnostic_assessed_concept_ids)
          || any (λ q. contains q run.attempted_question_version_ids) candidate.question_version_ids
      then some "DIAGNOSTIC_SELECTION_ALREADY_USED"
      else none

  unfoldable pub diagnostic_issue : PlanningState F → DiagnosticCandidate F → Option String
  unfolding graph_issue budget_issue
  diagnostic_issue state candidate = elim state.diagnostic_state [
    | none ↦ some "MISSING_DIAGNOSTIC_RUN"
    | some run ↦
        if not ((run.learner_id == state.learner_id) && (run.course_id == state.course_id))
        then some "DIAGNOSTIC_CONTEXT_MISMATCH"
        else elim (graph_issue state [] (candidate.stable_concept_id ∷ [])
            (some run.graph_version_id)) [
              | some issue ↦ some issue
              | none ↦ budget_issue state run candidate
            ]
  ]
