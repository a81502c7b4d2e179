-- ===== src/Planner/Policy/Stops.antt =====
-- Rule 1: hard stops, and the state that every later rule requires.
use autonomus_academic_assis.Base.{
  Bool, true, false, not, ◌&&◌, ◌||◌, Option, none, some, List, [], ◌∷◌, ltb, ◌==◌, if◌then◌else◌,
  String,
}
use autonomus_academic_assis.Base.Floats.{Floats}
use autonomus_academic_assis.Planner.Vocabulary.{
  PlannerAction, ask_user, pause, complete, session_complete, user_paused, budget_exceeded,
  hard_stop, block, same_action, same_freshness, freshness_place, freshness_value, fresh,
  evidence_set_stale, graph_context_stale,
}
use autonomus_academic_assis.Planner.State.{PlanningState, ProjectionFreshnessResult}
use autonomus_academic_assis.Planner.Decision.{no_details, decision, blocked}
use autonomus_academic_assis.Planner.Policy.Rule.{Stage, decided, undecided, if_present, otherwise}

-- `optional == action`
abbrev pub is_action : Option PlannerAction → PlannerAction → Bool
is_action none action = false
is_action (some a) action = same_action a action

-- The sort key `(stable_concept_id.bytes, state.value)`: whether `a` sorts strictly before `b`.
abbrev fresher : ProjectionFreshnessResult → ProjectionFreshnessResult → Bool
fresher a b =
    ltb a.stable_concept_id b.stable_concept_id
    || ((a.stable_concept_id == b.stable_concept_id)
        && ltb (freshness_place a.state) (freshness_place b.state))

unfoldable pub insert_freshness :
    ProjectionFreshnessResult → List ProjectionFreshnessResult → List ProjectionFreshnessResult
insert_freshness a [] = a ∷ []
insert_freshness a (b ∷ rest) =
    let later = insert_freshness a rest in if fresher b a then b ∷ later else a ∷ b ∷ rest

unfoldable pub freshness_order : List ProjectionFreshnessResult → List ProjectionFreshnessResult
unfolding insert_freshness
freshness_order [] = []
freshness_order (a ∷ rest) = insert_freshness a (freshness_order rest)

module _ {F : Floats} (state_digest : PlanningState F → String) where
  unfoldable pub hard_stops : PlanningState F → Stage F
  hard_stops state =
      if state.session_complete || is_action state.hard_stop complete
      then decided (
          decision state_digest state hard_stop complete session_complete
            "The session is already complete."
            (record (no_details F) { target = some state.session_id }))
      else if state.user_paused
          || is_action state.hard_stop pause
          || is_action state.pending_user_directive pause
      then decided (
          decision state_digest state hard_stop pause user_paused "The learner paused the session."
            (record (no_details F) { target = some state.session_id }))
      else if state.budget_exceeded || is_action state.hard_stop ask_user
      then decided (
          decision state_digest state hard_stop ask_user budget_exceeded
            "The caller reports that the session budget is exhausted."
            (record (no_details F) { outcome = block }))
      else elim state.hard_stop [
        | none ↦ undecided
        | some _ ↦ decided (blocked state_digest state "INVALID_HARD_STOP_ACTION" false)
      ]

  unfoldable pub required_graph : PlanningState F → Stage F
  required_graph state = if_present state.graph_context λ graph.
      if not (graph.course_id == state.course_id)
      then decided (blocked state_digest state "GRAPH_COURSE_MISMATCH" false)
      else if not (graph.graph_version_id == graph.current_graph_version_id)
      then decided (blocked state_digest state "GRAPH_CONTEXT_STALE" true)
      else undecided

  -- The `for` loop over the sorted freshness results.
  unfoldable pub first_unfresh : PlanningState F → List ProjectionFreshnessResult → Stage F
  first_unfresh state [] = undecided
  first_unfresh state (f ∷ rest) =
      if not ((f.learner_id == state.learner_id) && (f.course_id == state.course_id))
      then decided (blocked state_digest state "FRESHNESS_CONTEXT_MISMATCH" false)
      else if not (same_freshness f.state fresh)
      then decided (
          blocked state_digest state (freshness_value f.state) (
            same_freshness f.state evidence_set_stale
            || same_freshness f.state graph_context_stale))
      else first_unfresh state rest

  unfoldable pub required_states : PlanningState F → Stage F
  required_states state =
      otherwise (required_graph state)
        (first_unfresh state (freshness_order state.required_freshness))
