-- ===== src/Curriculum/Depth.antt =====
-- `topological_depth` of packages/curriculum/graph.py. A dictionary over the nodes is a function, and the
-- returned one the list of its items.
pub mod Longest
use autonomus_academic_assis.Base.{
  put, ℕ, ◌+◌, Bool, List, [], ◌∷◌, map, max, sort_ids, Result, ok, raise, ◌>>=◌,
}
use autonomus_academic_assis.Base.Floats.{Floats}
use autonomus_academic_assis.Planner.State.{GraphEdge}
use autonomus_academic_assis.Curriculum.Definition.{GraphDefinition}
use autonomus_academic_assis.Curriculum.Prerequisites.{prerequisite_edges}
use autonomus_academic_assis.Curriculum.Kahn.{order_nodes, node_ids}
use autonomus_academic_assis.Curriculum.Adjacency.{collect_children}

-- The inner loop, over the children of `node_id`.
unfoldable pub deepen : (node_id : ℕ) → (children : List ℕ) → (ℕ → ℕ) → ℕ → ℕ
deepen node_id [] depth = depth
deepen node_id (child ∷ children) depth =
    deepen node_id children (put depth child (max (depth child) (depth node_id + 1)))

-- The outer loop, over the order.
unfoldable pub deepen_all : (order : List ℕ) → (ℕ → List ℕ) → (ℕ → ℕ) → ℕ → ℕ
deepen_all [] adjacency depth = depth
deepen_all (node_id ∷ order) adjacency depth =
    deepen_all order adjacency (deepen node_id (adjacency node_id) depth)

module _ {F : Floats} where
  unfoldable pub depth_nodes : (ids : List ℕ) → List (GraphEdge F) → Result (ℕ → ℕ)
  depth_nodes ids edges = do
    order ← order_nodes ids edges
    adjacency ← collect_children ids edges (λ u. [])
    ok (deepen_all order adjacency (λ v. 0))

  unfoldable pub topological_depth :
      GraphDefinition F → (confirmed_only : Bool) → Result (List (ℕ × ℕ))
  topological_depth graph confirmed_only = do
    edges ← prerequisite_edges graph confirmed_only
    depth ← depth_nodes (node_ids graph) edges
    ok (map (λ v. (v, depth v)) (sort_ids (node_ids graph)))
