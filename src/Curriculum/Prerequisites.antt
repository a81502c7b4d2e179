-- ===== src/Curriculum/Prerequisites.antt =====
-- The prerequisite edges of packages/curriculum/graph.py, selected and in a fixed order.
use autonomus_academic_assis.Base.{
  Bool, true, false, not, ◌&&◌, ◌||◌, List, [], ◌∷◌, keep, ◌==◌, ltb, if◌then◌else◌, sort_by,
  Result, ok, raise, raise_if, graph_self_loop, ◌>>=◌, ◌>>◌,
}
use autonomus_academic_assis.Base.Floats.{Floats}
use autonomus_academic_assis.Planner.Vocabulary.{
  prerequisite_of, same_edge_type, proposed, confirmed, rejected, same_edge_status,
}
use autonomus_academic_assis.Planner.State.{GraphEdge}
use autonomus_academic_assis.Curriculum.Definition.{GraphDefinition}

module _ {F : Floats} where
  abbrev pub is_candidate : Bool → GraphEdge F → Bool
  is_candidate confirmed_only edge =
      same_edge_type edge.edge_type prerequisite_of
      && not (same_edge_status edge.status rejected)
      && (not confirmed_only || same_edge_status edge.status confirmed)

  -- `GraphEdge.reject_self_loop` of packages/domain/graph.py
  unfoldable pub reject_self_loop : GraphEdge F → Result (Unit {0})
  reject_self_loop edge =
      raise_if (edge.source_node_id == edge.target_node_id) "Graph edges cannot be self-loops"

  -- `(str(source_node_id), str(target_node_id), str(edge_id))`: whether `a` sorts before `b`.
  abbrev pub edge_before : GraphEdge F → GraphEdge F → Bool
  edge_before a b =
      ltb a.source_node_id b.source_node_id
      || ((a.source_node_id == b.source_node_id)
          && (ltb a.target_node_id b.target_node_id
              || ((a.target_node_id == b.target_node_id) && ltb a.edge_id b.edge_id)))

  unfoldable pub validate_self_loops : List (GraphEdge F) → Result (Unit {0})
  validate_self_loops [] = ok tt
  validate_self_loops (edge ∷ edges) =
      if edge.source_node_id == edge.target_node_id
      then raise (graph_self_loop edge.edge_id)
      else validate_self_loops edges

  unfoldable pub prerequisite_edges :
      GraphDefinition F → (confirmed_only : Bool) → Result (List (GraphEdge F))
  unfolding validate_self_loops
  prerequisite_edges graph confirmed_only = do
    validate_self_loops graph.edges
    ok (sort_by edge_before (keep (is_candidate confirmed_only) graph.edges))

  unfoldable pub confirmed_prerequisite_edges : GraphDefinition F → Result (List (GraphEdge F))
  confirmed_prerequisite_edges graph = prerequisite_edges graph true

  unfoldable pub proposed_prerequisite_edges : GraphDefinition F → Result (List (GraphEdge F))
  proposed_prerequisite_edges graph = do
    edges ← prerequisite_edges graph false
    ok (keep (λ edge. same_edge_status edge.status proposed) edges)

  unfoldable pub rejected_prerequisite_edges : GraphDefinition F → List (GraphEdge F)
  rejected_prerequisite_edges graph = sort_by edge_before (
      keep
        (λ edge.
          same_edge_type edge.edge_type prerequisite_of && same_edge_status edge.status rejected)
        graph.edges)
