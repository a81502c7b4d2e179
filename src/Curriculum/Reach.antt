-- ===== src/Curriculum/Reach.antt =====
-- `unique_descendant_counts` of packages/curriculum/graph.py. A set is a list without repetitions.
pub mod Exact
use autonomus_academic_assis.Base.{
  put, ℕ, Bool, List, [], ◌∷◌, map, length, contains, if◌then◌else◌, sort_ids, Result, ok, raise,
  ◌>>=◌,
}
use autonomus_academic_assis.Base.Floats.{Floats}
use autonomus_academic_assis.Planner.State.{GraphEdge}
use autonomus_academic_assis.Curriculum.Definition.{GraphDefinition}
use autonomus_academic_assis.Curriculum.Prerequisites.{prerequisite_edges}
use autonomus_academic_assis.Curriculum.Kahn.{order_nodes, node_ids}
use autonomus_academic_assis.Curriculum.Adjacency.{collect_children}

-- `set.add`
abbrev pub add : ℕ → List ℕ → List ℕ
add a xs = if contains a xs then xs else a ∷ xs

-- `set.update`
abbrev pub update : List ℕ → List ℕ → List ℕ
update [] xs = xs
update (a ∷ more) xs = update more (add a xs)

-- The inner loop, over the children of `node_id`.
unfoldable pub absorb : (node_id : ℕ) → (children : List ℕ) → (ℕ → List ℕ) → ℕ → List ℕ
absorb node_id [] descendants = descendants
absorb node_id (child ∷ children) descendants =
    let added = put descendants node_id (add child (descendants node_id)) in
    absorb node_id children (put added node_id (update (added child) (added node_id)))

-- The outer loop, over the reversed order: the last node comes first.
unfoldable pub absorb_all : (order : List ℕ) → (ℕ → List ℕ) → ℕ → List ℕ
absorb_all [] adjacency = λ v. []
absorb_all (node_id ∷ order) adjacency =
    absorb node_id (adjacency node_id) (absorb_all order adjacency)

module _ {F : Floats} where
  unfoldable pub descendants_by_node : (ids : List ℕ) → List (GraphEdge F) → Result (ℕ → List ℕ)
  descendants_by_node ids edges = do
    order ← order_nodes ids edges
    adjacency ← collect_children ids edges (λ u. [])
    ok (absorb_all order adjacency)

  unfoldable pub unique_descendant_counts :
      GraphDefinition F → (confirmed_only : Bool) → Result (List (ℕ × ℕ))
  unique_descendant_counts graph confirmed_only = do
    edges ← prerequisite_edges graph confirmed_only
    descendants ← descendants_by_node (node_ids graph) edges
    ok (map (λ v. (v, length (descendants v))) (sort_ids (node_ids graph)))
