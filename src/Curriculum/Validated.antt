-- ===== src/Curriculum/Validated.antt =====
-- The algorithms of packages/curriculum/graph.py on a graph that `validate_references` accepts.
use autonomus_academic_assis.Base.{
  ℕ, ◌<◌, ◌≡◌, refl, sym, ◌∙◌, ◌↔◌, Bool, true, List, [], ◌∷◌, keep, arith, All, All-sort_by,
  All-keep, sort_by, ok,
}
use autonomus_academic_assis.Base.Floats.{Floats}
use autonomus_academic_assis.Planner.State.{GraphEdge}
use autonomus_academic_assis.Curriculum.Definition.{GraphDefinition}
use autonomus_academic_assis.Curriculum.Prerequisites.{
  is_candidate, edge_before, reject_self_loop, validate_self_loops, prerequisite_edges,
}
use autonomus_academic_assis.Curriculum.Kahn.{order_nodes, node_ids, topological_order}
use autonomus_academic_assis.Curriculum.Kahn.Loop.{HasEnds}
use autonomus_academic_assis.Curriculum.Kahn.Order.{precedes, IsRanked, IsOrder}
use autonomus_academic_assis.Curriculum.Kahn.Correct.{order_nodes-IsOrder}
use autonomus_academic_assis.Curriculum.Kahn.Decides.{order_nodes-decides}
use autonomus_academic_assis.Curriculum.References.{validate_references}
use autonomus_academic_assis.Curriculum.References.WellFormed.{validate_references-WellFormed}

module _ {F : Floats} where
  no_self_loops :
      (edges : List (GraphEdge F))
      → All (λ e. reject_self_loop e ≡ ok tt) edges
      → validate_self_loops edges ≡ ok tt
  unfolding validate_self_loops reject_self_loop
  no_self_loops [] h = refl
  no_self_loops (e ∷ edges) h = let again = no_self_loops edges h.1 in ground (arith, again, h.0)

  abbrev candidates : GraphDefinition F → Bool → List (GraphEdge F)
  candidates graph confirmed_only = keep (is_candidate confirmed_only) graph.edges

  topological_order-eq :
      (graph : GraphDefinition F) (confirmed_only : Bool)
      → All (λ e. reject_self_loop e ≡ ok tt) graph.edges
      → topological_order graph confirmed_only
        ≡ order_nodes (node_ids graph) (sort_by edge_before (candidates graph confirmed_only))
  unfolding topological_order prerequisite_edges
  topological_order-eq graph confirmed_only h = simp (no_self_loops graph.edges h)

  -- For a validated graph without self-loops, an order is returned if and only if some rank rises along
  -- every selected edge.
  pub topological_order-decides :
      (graph : GraphDefinition F) (confirmed_only : Bool)
      → validate_references graph ≡ ok tt
      → All (λ e. reject_self_loop e ≡ ok tt) graph.edges
      → ((order : List ℕ) × (topological_order graph confirmed_only ≡ ok order))
        ↔ ((rank : ℕ → ℕ) × IsRanked (keep (is_candidate confirmed_only) graph.edges) rank)
  topological_order-decides graph confirmed_only valid loops =
      let formed = validate_references-WellFormed graph valid in
      let edges = sort_by edge_before (candidates graph confirmed_only) in
      let same = topological_order-eq graph confirmed_only loops in
      let decides = order_nodes-decides (node_ids graph) edges formed.unique in
      let sorted : (P : GraphEdge F → Type 0)
          → All P edges ↔ All P (candidates graph confirmed_only) =
        λ P. All-sort_by P edge_before (candidates graph confirmed_only) in
      let ends = (sorted (HasEnds (node_ids graph))).1 (
        All-keep (HasEnds (node_ids graph)) (is_candidate confirmed_only) graph.edges
          formed.ends) in
      (
        λ (order, h).
            let (_, (rank, ranked)) = decides.0 (order, sym same ∙ h) in
            (rank, (sorted (λ e. rank e.source_node_id < rank e.target_node_id)).0 ranked),
        λ (rank, ranked).
            let (order, h) = decides.1 (
              ends,
              (rank, (sorted (λ e. rank e.source_node_id < rank e.target_node_id)).1 ranked),
            ) in
            (order, same ∙ h),
      )

  -- For a validated graph without self-loops, a returned order has every node once and every selected
  -- edge forward.
  pub topological_order-IsOrder :
      (graph : GraphDefinition F) (confirmed_only : Bool) (order : List ℕ)
      → validate_references graph ≡ ok tt
      → All (λ e. reject_self_loop e ≡ ok tt) graph.edges
      → topological_order graph confirmed_only ≡ ok order
      → IsOrder (node_ids graph) (keep (is_candidate confirmed_only) graph.edges) order
  topological_order-IsOrder graph confirmed_only order valid loops h =
      let formed = validate_references-WellFormed graph valid in
      let edges = sort_by edge_before (candidates graph confirmed_only) in
      let same = topological_order-eq graph confirmed_only loops in
      let (found, _) =
        order_nodes-IsOrder (node_ids graph) edges order formed.unique (sym same ∙ h) in
      record {
        same_nodes = found.same_nodes;
        once = found.once;
        forward =
            (All-sort_by (λ e. precedes order e.source_node_id e.target_node_id ≡ true) edge_before
                (candidates graph confirmed_only)).0
              found.forward;
      }
