-- ===== src/Curriculum/Descend.antt =====
-- `descendants` of packages/curriculum/graph.py. The stack is a list whose head is popped.
pub mod Fuel
pub mod Complete
use autonomus_academic_assis.Base.{
  ℕ, zero, suc, ◌+◌, Bool, true, false, not, List, [], ◌∷◌, keep, length, contains, if◌then◌else◌,
  Result, ok, raise, raise_if, assertion_error, ◌>>=◌, ◌>>◌,
}
use autonomus_academic_assis.Base.Floats.{Floats}
use autonomus_academic_assis.Planner.State.{GraphEdge}
use autonomus_academic_assis.Curriculum.Definition.{GraphDefinition}
use autonomus_academic_assis.Curriculum.Prerequisites.{prerequisite_edges}
use autonomus_academic_assis.Curriculum.Kahn.{order_nodes, node_ids}
use autonomus_academic_assis.Curriculum.Adjacency.{collect_children}

-- `pending.extend(children)`
abbrev pub extend : (children pending : List ℕ) → List ℕ
extend [] pending = pending
extend (child ∷ children) pending = extend children (child ∷ pending)

-- The `while` loop, by the rounds left: the nodes found.
unfoldable pub explore : ℕ → (adjacency : ℕ → List ℕ) → (pending found : List ℕ) → Result (List ℕ)
explore zero adjacency pending found = raise assertion_error
explore (suc rounds) adjacency [] found = ok found
explore (suc rounds) adjacency (child_id ∷ pending) found = elim (contains child_id found) [
  | true ↦ explore rounds adjacency pending found
  | false ↦ explore rounds adjacency (extend (adjacency child_id) pending) (child_id ∷ found)
]

module _ {F : Floats} where
  -- Every edge is pushed at most twice, once for the start and once when its source is found.
  unfoldable pub descend : (ids : List ℕ) → List (GraphEdge F) → (node_id : ℕ) → Result (List ℕ)
  descend ids edges node_id = do
    order ← order_nodes ids edges
    adjacency ← collect_children ids edges (λ u. [])
    found ← explore (suc (length edges + length edges)) adjacency (extend (adjacency node_id) []) []
    ok (keep (λ candidate. contains candidate found) order)

  unfoldable pub descendants :
      GraphDefinition F → (node_id : ℕ) → (confirmed_only : Bool) → Result (List ℕ)
  descendants graph node_id confirmed_only = do
    raise_if (not (contains node_id (node_ids graph))) "Unknown graph node"
    edges ← prerequisite_edges graph confirmed_only
    descend (node_ids graph) edges node_id
