-- ===== src/Planner/Contract/Decide.antt =====
-- `decide` of packages/planner/policy.py: it always decides, its decision is sound, and no rule chooses
-- an action over state that is stale, missing or of another learner.
use autonomus_academic_assis.Base.{◌≡◌, refl, none, some, String, arith, All, ok, raise, ◌>>=◌}
use autonomus_academic_assis.Base.Floats.{Floats}
use autonomus_academic_assis.Planner.State.{PlanningState, AssessmentPlanningState}
use autonomus_academic_assis.Planner.Decision.{PlannerDecision, decision}
use autonomus_academic_assis.Planner.Policy.Rule.{Stage}
use autonomus_academic_assis.Planner.Policy.{needs_input, late_rules, rules, decide}
use autonomus_academic_assis.Planner.Contract.Meets.{Meets-otherwise}
use autonomus_academic_assis.Planner.Contract.Sound.{Sound}
use autonomus_academic_assis.Planner.Contract.Early.{
  Good, hard_stops-Sound, required_states-Sound, directives-Sound, reviews-Sound,
}
use autonomus_academic_assis.Planner.Contract.Late.{
  HasPath, frames-Sound, mapped_frames-Sound, assessments-Sound,
}
use autonomus_academic_assis.Planner.Contract.Progress.{progression-Sound, diagnostics-Sound}

module _ {F : Floats} where
  -- What the input's validators check of the paths of weak prerequisites.
  abbrev pub HasPaths : PlanningState F → Type 0
  HasPaths state =
      (assessment : AssessmentPlanningState F)
      → state.latest_assessment ≡ some assessment
      → All HasPath assessment.weak_prerequisites

module _ {F : Floats} (state_digest : PlanningState F → String) (state : PlanningState F)
    (paths : HasPaths state) where
  pub late-Sound : Good state_digest state (late_rules state_digest state)
  unfolding late_rules
  late-Sound = Meets-otherwise Unit _ _ (directives-Sound state_digest state) λ _.
      Meets-otherwise Unit _ _ (reviews-Sound state_digest state) λ _.
        Meets-otherwise Unit _ _ (frames-Sound state_digest state) λ _.
          Meets-otherwise Unit _ _ (mapped_frames-Sound state_digest state) λ _.
            Meets-otherwise Unit _ _ (assessments-Sound state_digest state paths) λ _.
              Meets-otherwise Unit _ _ (progression-Sound state_digest state)
                λ _. diagnostics-Sound state_digest state

  rules-Sound : Good state_digest state (rules state_digest state)
  unfolding rules
  rules-Sound =
      Meets-otherwise Unit _ _ (hard_stops-Sound state_digest state)
        λ _. Meets-otherwise Unit _ _ (required_states-Sound state_digest state) λ _. late-Sound

  needs_input-Sound : Sound state (needs_input state_digest state)
  unfolding needs_input decision
  needs_input-Sound = ground arith

  settle :
      (m : Stage F)
      → Good state_digest state m
      → (d : PlannerDecision F) × ((m >>= λ found.
            ok (elim found [ none ↦ needs_input state_digest state | some d ↦ d ]))
          ≡ ok d)
        × Sound state d
  settle (ok none) h = (needs_input state_digest state, refl, needs_input-Sound)
  settle (ok (some d)) h = (d, refl, h.decides d refl)
  settle (raise e) h = absurd (h.returns e refl)

  -- If the path of every weak prerequisite starts at its concept, `decide` returns a decision: no
  -- assertion or index fails. The decision is `Sound`: a rule that needs a graph has one, the target
  -- of a chosen action is a topic or a concept of the graph, a directive advances past a mandatory
  -- topic only with confirmation, the advance rule fires only on a topic that may be left, towards
  -- its next topic, a review is chosen in no active remediation frame, and missing state blocks.
  pub decide-Sound : (d : PlannerDecision F) × (decide state_digest state ≡ ok d) × Sound state d
  unfolding decide
  decide-Sound = settle (rules state_digest state) rules-Sound
