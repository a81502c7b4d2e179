-- ===== src/Curriculum/References/WellFormed.antt =====
-- What a graph that `validate_references` of packages/domain/graph.py accepts keeps.
use autonomus_academic_assis.Base.{
  ℕ, ◌≡◌, refl, Bool, true, false, Option-cases, List, [], ◌∷◌, map, contains, ◌==◌, any, arith,
  All, All-imp, Unique, inl, inr, ok, then_ok,
}
use autonomus_academic_assis.Base.Floats.{Floats}
use autonomus_academic_assis.Planner.Vocabulary.{prerequisite_of, same_edge_type}
use autonomus_academic_assis.Planner.State.{GraphEdge}
use autonomus_academic_assis.Curriculum.Definition.{GraphNode, GraphDefinition, TopicConceptMapping}
use autonomus_academic_assis.Curriculum.Kahn.{node_ids}
use autonomus_academic_assis.Curriculum.Kahn.Loop.{HasEnds}
use autonomus_academic_assis.Curriculum.References.{
  unrepeated, find_node, is_type, is_concept, is_topic, validate_edge, validate_edges,
  validate_mapping, validate_mappings, validate_references,
}
use autonomus_academic_assis.Curriculum.References.Containment.{Rooted}
use autonomus_academic_assis.Curriculum.References.Forest.{
  ids_of, find_node-contains, containment-decides,
}

unrepeated-Unique : (xs : List ℕ) → unrepeated xs ≡ true → Unique xs
unrepeated-Unique [] h = tt
unrepeated-Unique (x ∷ xs) h = (ground (arith, h), unrepeated-Unique xs (ground (arith, h)))

module _ {F : Floats} where
  -- A prerequisite joins two concepts.
  abbrev pub JoinsConcepts : List (GraphNode F) → GraphEdge F → Type 0
  JoinsConcepts nodes edge =
      same_edge_type edge.edge_type prerequisite_of ≡ true
      → (is_type (find_node nodes edge.source_node_id) is_concept ≡ true)
        × (is_type (find_node nodes edge.target_node_id) is_concept ≡ true)

  abbrev pub MapsTopic : List (GraphNode F) → TopicConceptMapping F → Type 0
  MapsTopic nodes mapping =
      (is_type (find_node nodes mapping.topic_id) is_topic ≡ true)
      × (is_type (find_node nodes mapping.concept_id) is_concept ≡ true)

  pub record WellFormed (graph : GraphDefinition F) : Type 0 where
    pub unique : Unique (node_ids graph)
    pub rooted : All (λ node. Rooted graph.nodes node.id) graph.nodes
    pub ends : All (HasEnds (node_ids graph)) graph.edges
    pub joins : All (JoinsConcepts graph.nodes) graph.edges
    pub distinct : Unique (map (λ edge. edge.edge_id) graph.edges)
    pub maps : All (MapsTopic graph.nodes) graph.mappings

  is_type-contains :
      (nodes : List (GraphNode F)) (v : ℕ) (test : GraphNode F → Bool)
      → is_type (find_node nodes v) test ≡ true
      → contains v (ids_of nodes) ≡ true
  is_type-contains nodes v test h = elim (Option-cases (find_node nodes v)) [
    | inl e ↦ absurd (ground (arith, h, e))
    | inr (node, e) ↦ find_node-contains nodes v node e
  ]

  edge_checked :
      (nodes : List (GraphNode F)) (seen : List (GraphEdge F)) (edge : GraphEdge F)
      → validate_edge nodes seen edge ≡ ok tt
      → (any (λ other. edge.edge_id == other.edge_id) seen ≡ false)
        × (HasEnds (ids_of nodes) edge × JoinsConcepts nodes edge)
  unfolding validate_edge
  edge_checked nodes seen edge h = (
    ground (arith, h),
    (
      (
        is_type-contains nodes edge.source_node_id (λ node. true) (ground (arith, h)),
        is_type-contains nodes edge.target_node_id (λ node. true) (ground (arith, h)),
      ),
      λ q. (ground (arith, h, q), ground (arith, h, q)),
    ),
  )

  mapping_checked :
      (graph : GraphDefinition F) (seen : List (TopicConceptMapping F))
      (mapping : TopicConceptMapping F)
      → validate_mapping graph seen mapping ≡ ok tt
      → MapsTopic graph.nodes mapping
  unfolding validate_mapping
  mapping_checked graph seen mapping h = (ground (arith, h), ground (arith, h))

  mappings_checked :
      (graph : GraphDefinition F) (seen mappings : List (TopicConceptMapping F))
      → validate_mappings graph seen mappings ≡ ok tt
      → All (MapsTopic graph.nodes) mappings
  unfolding validate_mappings
  mappings_checked graph seen [] h = tt
  mappings_checked graph seen (mapping ∷ mappings) h =
      let (a, rest) = then_ok _ _ h in
      (mapping_checked graph seen mapping a, mappings_checked graph (mapping ∷ seen) mappings rest)

  fresh :
      (v : ℕ) (edges : List (GraphEdge F))
      → All (λ e. (e.edge_id == v) ≡ false) edges
      → contains v (map (λ edge. edge.edge_id) edges) ≡ false
  fresh v [] h = refl
  fresh v (e ∷ edges) h = let again = fresh v edges h.1 in ground (arith, again, h.0)

  edges_checked :
      (nodes : List (GraphNode F)) (seen edges : List (GraphEdge F))
      → validate_edges nodes seen edges ≡ ok tt
      → All
          (λ edge.
            (any (λ other. edge.edge_id == other.edge_id) seen ≡ false)
            × (HasEnds (ids_of nodes) edge × JoinsConcepts nodes edge))
          edges
        × Unique (map (λ edge. edge.edge_id) edges)
  unfolding validate_edges
  edges_checked nodes seen [] h = (tt, tt)
  edges_checked nodes seen (edge ∷ edges) h =
      let (a, rest) = then_ok _ _ h in
      let (later, unique) = edges_checked nodes (edge ∷ seen) edges rest in
      let checked = edge_checked nodes seen edge a in
      (
        (checked, All-imp edges (λ e k. (ground (arith, k.0), k.1)) later),
        (fresh edge.edge_id edges (All-imp edges (λ e k. ground (arith, k.0)) later), unique),
      )

  -- A graph that the check accepts has distinct nodes, each below a root; distinct edges between its
  -- nodes, the prerequisites between concepts; and mappings from topics to concepts.
  pub validate_references-WellFormed :
      (graph : GraphDefinition F) → validate_references graph ≡ ok tt → WellFormed graph
  unfolding validate_references node_ids
  validate_references-WellFormed graph h =
      let unique = unrepeated-Unique (node_ids graph) (ground (arith, h)) in
      let (checked, distinct) = edges_checked graph.nodes [] graph.edges (ground (arith, h)) in
      record {
        unique = unique;
        rooted = (containment-decides graph.nodes unique).0 (ground (arith, h));
        ends = All-imp graph.edges (λ e k. k.1.0) checked;
        joins = All-imp graph.edges (λ e k. k.1.1) checked;
        distinct = distinct;
        maps = mappings_checked graph [] graph.mappings (ground (arith, h));
      }
