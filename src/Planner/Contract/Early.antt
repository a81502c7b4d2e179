-- ===== src/Planner/Contract/Early.antt =====
-- Rules 1 to 3 meet the contract: hard stops, required state, directives and reviews.
use autonomus_academic_assis.Base.{
  if◌then◌else◌, ℕ, ◌≡◌, true, false, ◌||◌, Option, none, some, List, [], ◌∷◌, String, arith, find?,
  is_some, ◌==◌,
}
use autonomus_academic_assis.Base.Floats.{Floats}
use autonomus_academic_assis.Planner.Vocabulary.{
  PlannerAction, ReasonCode, hard_stop, i_know_this, same_kind,
}
use autonomus_academic_assis.Planner.State.{
  PlanningState, PlanningDirective, ProjectionFreshnessResult, DiagnosticCandidate, ReviewCandidate,
}
use autonomus_academic_assis.Planner.Decision.{Details, decision, blocked, graph_issue}
use autonomus_academic_assis.Planner.Policy.Rule.{Stage, decided, undecided}
use autonomus_academic_assis.Planner.Policy.Stops.{
  hard_stops, required_graph, first_unfresh, required_states,
}
use autonomus_academic_assis.Planner.Policy.Directives.{
  named_topics, named_concepts, verify, self_report, mapped_directive, explicit, pending,
  pending_directive, some_directive, directives, least_directive,
}
use autonomus_academic_assis.Planner.Policy.Remediation.{reviewed, reviews}
use autonomus_academic_assis.Planner.Contract.Meets.{
  Meets, Meets-decided, Meets-undecided, Meets-if, Meets-unless, Meets-present, Meets-required,
  Meets-any, Meets-otherwise,
}
use autonomus_academic_assis.Planner.Contract.Sound.{
  Sound, known, InGraph, graph_issue-InGraph, blocked-Sound,
}

module _ {F : Floats} (state_digest : PlanningState F → String) (state : PlanningState F) where
  abbrev pub Good : Stage F → Type 0
  Good = Meets (Sound state) (Unit {0})

  stop-Sound :
      (action : PlannerAction) (reason : ReasonCode) (explanation : String) (details : Details F)
      → Sound state (decision state_digest state hard_stop action reason explanation details)
  unfolding decision
  stop-Sound action reason explanation details = ground arith

  stop-decided :
      (action : PlannerAction) (reason : ReasonCode) (explanation : String) (details : Details F)
      → Good (decided (decision state_digest state hard_stop action reason explanation details))
  stop-decided action reason explanation details =
      Meets-decided _ (stop-Sound action reason explanation details)

  other_stop :
      (stop : Option PlannerAction)
      → Good (elim stop [
        | none ↦ undecided
        | some _ ↦ decided (blocked state_digest state "INVALID_HARD_STOP_ACTION" false)
      ])
  other_stop none = Meets-undecided tt
  other_stop (some action) =
      Meets-decided (blocked state_digest state "INVALID_HARD_STOP_ACTION" false)
        (blocked-Sound state_digest state _ _)

  last_stop : Good (elim state.hard_stop [
    | none ↦ undecided
    | some _ ↦ decided (blocked state_digest state "INVALID_HARD_STOP_ACTION" false)
  ])
  last_stop = other_stop state.hard_stop

  pub hard_stops-Sound : Good (hard_stops state_digest state)
  unfolding hard_stops
  hard_stops-Sound = search (Meets-if, stop-decided, last_stop)

  required_graph-Sound : Good (required_graph state_digest state)
  unfolding required_graph
  required_graph-Sound =
      Meets-present state.graph_context _ (λ _. tt)
        λ graph _. search (Meets-if, Meets-decided, Meets-undecided, blocked-Sound)

  first_unfresh-Sound :
      (fs : List ProjectionFreshnessResult) → Good (first_unfresh state_digest state fs)
  unfolding first_unfresh
  first_unfresh-Sound [] = Meets-undecided tt
  first_unfresh-Sound (f ∷ rest) =
      search (Meets-if, Meets-decided, blocked-Sound, first_unfresh-Sound rest)

  pub required_states-Sound : Good (required_states state_digest state)
  unfolding required_states
  required_states-Sound = Meets-otherwise Unit _ _ required_graph-Sound λ _. first_unfresh-Sound _

module _ {F : Floats} (state_digest : PlanningState F → String) (state : PlanningState F) where
  verify-Sound :
      (d : PlanningDirective) (candidate : DiagnosticCandidate F)
      → known state.graph_context d.target_id ≡ true
      → is_some state.graph_context ≡ true
      → Good state_digest state (verify state_digest state d candidate)
  unfolding verify decision blocked
  verify-Sound d candidate k g = ground arith

  self_report-Sound :
      (d : PlanningDirective)
      → known state.graph_context d.target_id ≡ true
      → is_some state.graph_context ≡ true
      → Good state_digest state (self_report state_digest state d)
  unfolding self_report
  self_report-Sound d k g =
      Meets-required (find? (λ c. c.stable_concept_id == d.target_id) state.diagnostic_candidates)
        (blocked state_digest state "MISSING_SELECTED_DIAGNOSTIC" false)
        (verify state_digest state d) (blocked-Sound state_digest state _ _)
        λ candidate _. verify-Sound d candidate k g

  mapped_directive-Sound :
      (d : PlanningDirective)
      → same_kind d.kind i_know_this ≡ false
      → known state.graph_context d.target_id ≡ true
      → is_some state.graph_context ≡ true
      → Good state_digest state (mapped_directive state_digest state d)
  unfolding mapped_directive decision
  mapped_directive-Sound d n k g = ground arith

  named_known :
      (d : PlanningDirective)
      → InGraph state (named_topics d) (named_concepts d)
      → (known state.graph_context d.target_id ≡ true) × (is_some state.graph_context ≡ true)
  named_known d g = ground (arith, g.there, g.topics_known, g.concepts_known)

  explicit-Sound : (d : PlanningDirective) → Good state_digest state (explicit state_digest state d)
  unfolding explicit
  explicit-Sound d =
      Meets-unless (graph_issue state (named_topics d) (named_concepts d) none) _
        (if same_kind d.kind i_know_this
          then self_report state_digest state d
          else mapped_directive state_digest state d)
        (λ issue. blocked-Sound state_digest state issue false)
        λ clear.
          let (k, g) =
            named_known d
              (graph_issue-InGraph state (named_topics d) (named_concepts d) none clear) in
          Meets-if (same_kind d.kind i_know_this) (self_report state_digest state d)
            (mapped_directive state_digest state d) (λ _. self_report-Sound d k g)
            (λ n. mapped_directive-Sound d n k g)

  pending-Sound :
      (action : PlannerAction) (target : ℕ)
      → Good state_digest state (pending state_digest state action target)
  unfolding pending graph_issue decision blocked
  pending-Sound action target = ground arith

  some_directive-Sound :
      (d : PlanningDirective) → Good state_digest state (some_directive state_digest state d)
  unfolding some_directive
  some_directive-Sound d =
      Meets-if (is_some state.pending_user_directive) _ (explicit state_digest state d)
        (λ _. Meets-decided _ (blocked-Sound state_digest state "AMBIGUOUS_DIRECTIVE_INPUT" false))
        (λ _. explicit-Sound d)

  pending_directive-Sound : Good state_digest state (pending_directive state_digest state)
  unfolding pending_directive
  pending_directive-Sound =
      Meets-present state.pending_user_directive _ (λ _. tt)
        λ action _.
          Meets-required state.target_topic_id
            (blocked state_digest state "MISSING_DIRECTIVE_TARGET" false)
            (pending state_digest state action) (blocked-Sound state_digest state _ _)
            λ target _. pending-Sound action target

  pub directives-Sound : Good state_digest state (directives state_digest state)
  unfolding directives
  directives-Sound =
      Meets-any state.directives _ _ pending_directive-Sound
        λ d rest _. some_directive-Sound (least_directive d rest)

  reviewed-Sound :
      (candidate : ReviewCandidate F)
      → state.remediation_frame ≡ none
      → state.active_remediation_frame ≡ false
      → Good state_digest state (reviewed state_digest state candidate)
  unfolding reviewed graph_issue decision blocked
  reviewed-Sound candidate f a = ground arith

  no_frame :
      is_some state.remediation_frame || state.active_remediation_frame ≡ false
      → (state.remediation_frame ≡ none) × (state.active_remediation_frame ≡ false)
  no_frame h = ground arith

  pub reviews-Sound : Good state_digest state (reviews state_digest state)
  unfolding reviews
  reviews-Sound = Meets-any state.review_candidates _ _ (Meets-undecided tt) λ candidate _ _.
      Meets-if (is_some state.remediation_frame || state.active_remediation_frame) _
        (reviewed state_digest state candidate) (λ _. Meets-undecided tt)
        (λ n. reviewed-Sound candidate (no_frame n).0 (no_frame n).1)
