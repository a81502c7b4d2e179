-- ===== src/Planner/Policy/Rule.antt =====
-- One rule of the policy: it raises, decides, or leaves the decision to the rules below it.
use autonomus_academic_assis.Base.{Option, none, some, List, [], ◌∷◌, String, Result, ok, ◌>>=◌}
use autonomus_academic_assis.Base.Floats.{Floats}
use autonomus_academic_assis.Planner.Decision.{PlannerDecision}

abbrev pub Stage : Floats → Type 0
Stage F = Result (Option (PlannerDecision F))

module _ {F : Floats} where
  abbrev pub decided : PlannerDecision F → Stage F
  decided d = ok (some d)

  abbrev pub undecided : Stage F
  undecided = ok none

  -- `issue is not None`: the decision that blocks, or the rest of the rule.
  abbrev pub unless_issue : Option String → (String → PlannerDecision F) → Stage F → Stage F
  unless_issue none block rest = rest
  unless_issue (some issue) block rest = decided (block issue)

  -- `if value is not None`
  abbrev pub if_present {ℓ} : {A : Type ℓ} → Option A → (A → Stage F) → Stage F
  if_present none rule = undecided
  if_present (some a) rule = rule a

  -- `if value is None: return blocked`
  abbrev pub required {ℓ} : {A : Type ℓ} → Option A → PlannerDecision F → (A → Stage F) → Stage F
  required none block rule = decided block
  required (some a) block rule = rule a

  -- `if items`, for a rule that reads the first item and the others
  abbrev pub if_any {ℓ} : {A : Type ℓ} → List A → Stage F → (A → List A → Stage F) → Stage F
  if_any [] other rule = other
  if_any (a ∷ items) other rule = rule a items

  -- The rule `m`, and the rules `n` where `m` makes no decision.
  unfoldable pub otherwise : Stage F → Stage F → Stage F
  otherwise m n = m >>= λ found. elim found [ none ↦ n | some d ↦ decided d ]
