-- ===== src/Planner/Contract/Ready.antt =====
-- What `decide` of packages/planner/policy.py has checked when a rule below the required state decides.
use autonomus_academic_assis.Base.{◌≡◌, ◌≢◌, true, false, none, some, String, All}
use autonomus_academic_assis.Base.Floats.{Floats}
use autonomus_academic_assis.Planner.Vocabulary.{hard_stop, required_state, fresh, same_freshness}
use autonomus_academic_assis.Planner.State.{
  PlanningState, PlanningGraphContext, ProjectionFreshnessResult,
}
use autonomus_academic_assis.Planner.Decision.{PlannerDecision}
use autonomus_academic_assis.Planner.Policy.Rule.{Stage}
use autonomus_academic_assis.Planner.Contract.Meets.{Meets}

module _ {F : Floats} where
  abbrev pub IsFresh : PlanningState F → ProjectionFreshnessResult → Type 0
  IsFresh state f =
      (f.learner_id ≡ state.learner_id)
      × (f.course_id ≡ state.course_id)
      × (same_freshness f.state fresh ≡ true)

  -- No hard stop holds.
  abbrev pub Runs : PlanningState F → Type 0
  Runs state =
      (state.session_complete ≡ false)
      × (state.user_paused ≡ false)
      × (state.budget_exceeded ≡ false)
      × (state.hard_stop ≡ none)

  -- The graph of the state, if it has one, is the current graph of the course.
  abbrev pub IsCurrentGraph : PlanningState F → Type 0
  IsCurrentGraph state =
      (graph : PlanningGraphContext)
      → state.graph_context ≡ some graph
      → (graph.course_id ≡ state.course_id)
        × (graph.graph_version_id ≡ graph.current_graph_version_id)

  -- The decision is not of the first two stages.
  abbrev pub IsLate : PlannerDecision F → Type 0
  IsLate d = (d.provenance.rule ≢ hard_stop) × (d.provenance.rule ≢ required_state)

  pub record Ready (state : PlanningState F) : Type 0 where
    pub runs : Runs state
    pub current_graph : IsCurrentGraph state
    pub all_fresh : All (IsFresh state) state.required_freshness

module _ {F : Floats} (state_digest : PlanningState F → String) (state : PlanningState F) where
  abbrev Checked : Type 0 → Stage F → Type 0
  Checked = Meets (λ d. IsLate d → Ready state)
