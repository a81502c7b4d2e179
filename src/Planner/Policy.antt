-- ===== src/Planner/Policy.antt =====
-- `decide` of packages/planner/policy.py: the rules in order, each a stage that makes a decision or
-- leaves it to the next. The stages stand in the children; an assertion or an index that fails raises.
pub mod Rule
pub mod Stops
pub mod Directives
pub mod Remediation
pub mod Assessment
pub mod Topic
use autonomus_academic_assis.Base.{Option, none, some, String, Result, ok, ◌>>=◌}
use autonomus_academic_assis.Base.Floats.{Floats}
use autonomus_academic_assis.Planner.Vocabulary.{
  ask_user, low_evidence, needs_state, require_confirmation,
}
use autonomus_academic_assis.Planner.State.{PlanningState}
use autonomus_academic_assis.Planner.Decision.{PlannerDecision, Details, no_details, decision}
use Rule.{Stage, otherwise}
use Stops.{hard_stops, required_states}
use Directives.{directives}
use Remediation.{reviews, frames, mapped_frames}
use Assessment.{assessments}
use Topic.{progression, diagnostics}

module _ {F : Floats} (state_digest : PlanningState F → String) where
  -- Rule 9: no authoritative next action.
  unfoldable pub needs_input : PlanningState F → PlannerDecision F
  needs_input state =
      decision state_digest state needs_state ask_user low_evidence
        "No authoritative next action is available; request the missing state or learner input."
        (record (no_details F) { outcome = require_confirmation })

  -- Rules 2 to 8, in order.
  unfoldable pub late_rules : PlanningState F → Stage F
  late_rules state = otherwise (directives state_digest state) (
      otherwise (reviews state_digest state) (
        otherwise (frames state_digest state) (
          otherwise (mapped_frames state_digest state) (
            otherwise (assessments state_digest state)
              (otherwise (progression state_digest state) (diagnostics state_digest state))))))

  -- Rule 1 and the required state come first.
  unfoldable pub rules : PlanningState F → Stage F
  rules state =
      otherwise (hard_stops state_digest state)
        (otherwise (required_states state_digest state) (late_rules state))

  unfoldable pub decide : PlanningState F → Result (PlannerDecision F)
  decide state = do found ← rules state; ok (elim found [ none ↦ needs_input state | some d ↦ d ])
