-- ===== src/Planner/Policy/Directives.antt =====
-- Rule 2: explicit directives.
use autonomus_academic_assis.Base.{
  ℕ, Bool, false, ◌&&◌, ◌||◌, Option, none, some, List, [], ◌∷◌, ltb, ◌==◌, if◌then◌else◌, is_some,
  contains, find?, String, str_eq, Result, ok, raise, assertion_error, index_error, ◌>>=◌,
}
use autonomus_academic_assis.Base.Floats.{Floats}
use autonomus_academic_assis.Planner.Vocabulary.{
  PlannerAction, diagnose, practice_concept, reteach_with_new_strategy, advance_topic,
  user_directive, directive, PolicyOutcome, allow, require_confirmation, DirectiveKind, skip,
  explain_simpler, more_practice, i_know_this, same_kind, same_action,
}
use autonomus_academic_assis.Planner.State.{
  PlanningState, PlanningDirective, PlanningGraphContext, DiagnosticCandidate,
}
use autonomus_academic_assis.Planner.Decision.{
  no_details, decision, blocked, graph_issue, diagnostic_issue,
}
use autonomus_academic_assis.Planner.Policy.Rule.{
  Stage, decided, unless_issue, if_present, required, if_any,
}

-- `min(directives, key=directive_id.bytes)`: the first one with the least identifier.
unfoldable pub least_directive : PlanningDirective → List PlanningDirective → PlanningDirective
least_directive d [] = d
least_directive d (e ∷ rest) =
    least_directive (if ltb e.directive_id d.directive_id then e else d) rest

-- The directives that name a concept; the others name a topic.
abbrev pub concept_target : DirectiveKind → Bool
concept_target kind = same_kind kind more_practice || same_kind kind i_know_this

abbrev pub named_topics : PlanningDirective → List ℕ
named_topics d = if concept_target d.kind then [] else d.target_id ∷ []

abbrev pub named_concepts : PlanningDirective → List ℕ
named_concepts d = if concept_target d.kind then d.target_id ∷ [] else []

-- `actions[directive.kind]`; the table has no entry for I_KNOW_THIS.
abbrev pub directive_action : DirectiveKind → Result PlannerAction
directive_action skip = ok advance_topic
directive_action explain_simpler = ok reteach_with_new_strategy
directive_action more_practice = ok practice_concept
directive_action i_know_this = raise index_error

-- `assert graph is not None`
abbrev pub asserted : Option PlanningGraphContext → Result PlanningGraphContext
asserted none = raise assertion_error
asserted (some graph) = ok graph

abbrev pub confirm_if : Bool → PolicyOutcome
confirm_if mandatory = if mandatory then require_confirmation else allow

module _ {F : Floats} (state_digest : PlanningState F → String) where
  unfoldable pub verify : PlanningState F → PlanningDirective → DiagnosticCandidate F → Stage F
  verify state d candidate =
      unless_issue (diagnostic_issue state candidate)
        (λ issue. blocked state_digest state issue (str_eq issue "GRAPH_CONTEXT_STALE"))
        (decided (
          decision state_digest state directive diagnose user_directive
            "Verify the self-report using the caller-selected diagnostic; no gate is waived."
            (record (no_details F) {
              target = some d.target_id;
              directive_id = some d.directive_id;
              diagnostic = some candidate;
              confidence = candidate.confidence;
            })))

  unfoldable pub self_report : PlanningState F → PlanningDirective → Stage F
  self_report state d =
      required (find? (λ c. c.stable_concept_id == d.target_id) state.diagnostic_candidates)
        (blocked state_digest state "MISSING_SELECTED_DIAGNOSTIC" false)
        λ candidate. verify state d candidate

  unfoldable pub mapped_directive : PlanningState F → PlanningDirective → Stage F
  mapped_directive state d = do
    action ← directive_action d.kind
    graph ← asserted state.graph_context
    decided (
        decision state_digest state directive action user_directive
          "Apply the explicit directive; mandatory topic skipping requires confirmation."
          (record (no_details F) {
            target = some d.target_id;
            directive_id = some d.directive_id;
            outcome =
                confirm_if
                  (same_kind d.kind skip && contains d.target_id graph.mandatory_topic_ids);
          }))

  unfoldable pub explicit : PlanningState F → PlanningDirective → Stage F
  explicit state d =
      unless_issue (graph_issue state (named_topics d) (named_concepts d) none)
        (λ issue. blocked state_digest state issue false)
        (if same_kind d.kind i_know_this then self_report state d else mapped_directive state d)

  -- A pending action that the caller has mapped from a directive.
  unfoldable pub pending : PlanningState F → PlannerAction → (target : ℕ) → Stage F
  pending state action target =
      unless_issue (graph_issue state (target ∷ []) [] none)
        (λ issue. blocked state_digest state issue false)
        (do
          graph ← asserted state.graph_context
          decided (
              decision state_digest state directive action user_directive
                "Apply the caller-mapped explicit directive."
                (record (no_details F) {
                  target = some target;
                  outcome = confirm_if (
                      same_action action advance_topic
                      && contains target graph.mandatory_topic_ids);
                })))

  unfoldable pub pending_directive : PlanningState F → Stage F
  pending_directive state = if_present state.pending_user_directive λ action.
      required state.target_topic_id (blocked state_digest state "MISSING_DIRECTIVE_TARGET" false)
        λ target. pending state action target

  unfoldable pub some_directive : PlanningState F → PlanningDirective → Stage F
  some_directive state d =
      if is_some state.pending_user_directive
      then decided (blocked state_digest state "AMBIGUOUS_DIRECTIVE_INPUT" false)
      else explicit state d

  unfoldable pub directives : PlanningState F → Stage F
  directives state =
      if_any state.directives (pending_directive state)
        λ d rest. some_directive state (least_directive d rest)
