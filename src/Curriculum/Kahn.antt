-- ===== src/Curriculum/Kahn.antt =====
-- `_topological_order` of packages/curriculum/graph.py. A dictionary is a function, with the keys beside
-- it; the heap is an ascending list.
pub mod Counting
pub mod Release
pub mod Loop
pub mod Linking
pub mod Order
pub mod Correct
pub mod Decides
use autonomus_academic_assis.Base.{
  put, ℕ, zero, suc, ◌+◌, ◌-◌, Bool, true, false, not, ◌&&◌, ◌||◌, Option, List, [], ◌∷◌, ◌++◌, map,
  keep, length, contains, ◌==◌, ltb, if◌then◌else◌, sort_ids, insert_by, Result, ok, raise,
  raise_if, key_error, graph_cycle, ◌>>=◌, ◌>>◌,
}
use autonomus_academic_assis.Base.Floats.{Floats}
use autonomus_academic_assis.Planner.State.{GraphEdge}
use autonomus_academic_assis.Curriculum.Definition.{GraphDefinition}
use autonomus_academic_assis.Curriculum.Prerequisites.{prerequisite_edges, validate_self_loops}

pub record Links : Type 0 where
  pub adjacency : ℕ → List ℕ
  pub indegree : ℕ → ℕ

abbrev pub no_links : Links
no_links = record { adjacency = λ u. []; indegree = λ v. 0 }

module _ {F : Floats} where
  -- The `for` loop over the edges. An end that is no key raises.
  unfoldable pub link : (node_ids : List ℕ) → List (GraphEdge F) → Links → Result Links
  link node_ids [] links = ok links
  link node_ids (edge ∷ edges) links =
      if contains edge.source_node_id node_ids && contains edge.target_node_id node_ids
      then link node_ids edges (record {
        adjacency =
            put links.adjacency edge.source_node_id
              (links.adjacency edge.source_node_id ++ edge.target_node_id ∷ []);
        indegree = put links.indegree edge.target_node_id (links.indegree edge.target_node_id + 1);
      })
      else raise key_error

pub record Frontier : Type 0 where
  pub indegree : ℕ → ℕ
  pub ready : List ℕ

-- The inner loop over the children. A degree that falls from 1 to 0 makes its node ready; below 0, where
-- Python's integer turns negative, no node does, and neither is above 0.
unfoldable pub release : List ℕ → Frontier → Frontier
release [] s = s
release (child ∷ children) s = release children (record {
  indegree = put s.indegree child (s.indegree child - 1);
  ready = if s.indegree child == 1 then insert_by ltb child s.ready else s.ready;
})

-- The `while` loop, by the rounds left.
unfoldable pub drain : ℕ → (adjacency : ℕ → List ℕ) → Frontier → List ℕ × Frontier
drain zero adjacency s = ([], s)
drain (suc rounds) adjacency s = elim s.ready [
  | [] ↦ ([], s)
  | node_id ∷ rest ↦
      let (ordered, t) =
        drain rounds adjacency (release (adjacency node_id) (record s { ready = rest })) in
      (node_id ∷ ordered, t)
]

-- The nodes without an open edge.
abbrev pub starting : (node_ids : List ℕ) → Links → Frontier
starting node_ids links = record {
  indegree = links.indegree;
  ready = keep (λ v. links.indegree v == 0) node_ids;
}

-- From the sorted ids and the links.
unfoldable pub drained : (node_ids : List ℕ) → Links → Result (List ℕ)
drained node_ids links =
    let (ordered, t) =
      drain (length node_ids) (λ u. sort_ids (links.adjacency u)) (starting node_ids links) in
    if length ordered == length node_ids
    then ok ordered
    else raise (graph_cycle (keep (λ v. ltb 0 (t.indegree v)) node_ids))

module _ {F : Floats} where
  unfoldable pub order_nodes : (ids : List ℕ) → List (GraphEdge F) → Result (List ℕ)
  order_nodes ids edges = do
    links ← link (sort_ids ids) edges no_links
    drained (sort_ids ids) links

  unfoldable pub node_ids : GraphDefinition F → List ℕ
  node_ids graph = map (λ node. node.id) graph.nodes

  unfoldable pub topological_order : GraphDefinition F → (confirmed_only : Bool) → Result (List ℕ)
  topological_order graph confirmed_only = do
    validate_self_loops graph.edges
    edges ← prerequisite_edges graph confirmed_only
    order_nodes (node_ids graph) edges

  unfoldable pub validate_dag : GraphDefinition F → (include_proposed : Bool) → Result (Unit {0})
  validate_dag graph include_proposed = do
    validate_self_loops graph.edges
    edges ← prerequisite_edges graph (not include_proposed)
    order ← order_nodes (node_ids graph) edges
    ok tt
