-- ===== src/Curriculum/References.antt =====
-- `GraphDefinition.validate_references` of packages/domain/graph.py, one function for each of its loops. The
-- dictionaries by identifier are searches: both are built after their identifiers prove unique.
pub mod Containment
pub mod Forest
pub mod WellFormed
use autonomus_academic_assis.Base.{
  ℕ, zero, suc, Bool, true, false, not, ◌&&◌, ◌||◌, Option, none, some, List, [], ◌∷◌, ◌++◌, map,
  keep, any, all, find?, length, contains, ◌==◌, str_eq, if◌then◌else◌, Result, ok, raise, raise_if,
  value_error, key_error, assertion_error, ◌>>=◌, ◌>>◌,
}
use autonomus_academic_assis.Base.Floats.{Floats}
use autonomus_academic_assis.Planner.Vocabulary.{EdgeType, prerequisite_of, same_edge_type}
use autonomus_academic_assis.Planner.State.{GraphEdge}
use autonomus_academic_assis.Curriculum.Definition.{
  GraphNode, Concept, TopicConceptMapping, GraphDefinition, topic, concept, same_node_type,
  same_source, inferred_fallback, explicit, is_fallback, fallback_source,
}
use autonomus_academic_assis.Curriculum.Kahn.{node_ids}

-- `len(set(xs)) == len(xs)`
abbrev pub unrepeated : List ℕ → Bool
unrepeated [] = true
unrepeated (x ∷ xs) = not (contains x xs) && unrepeated xs

-- `set(xs) == set(ys)`
abbrev pub same_members : List ℕ → List ℕ → Bool
same_members xs ys = all (λ x. contains x ys) xs && all (λ y. contains y xs) ys

abbrev pub same_id : Option ℕ → ℕ → Bool
same_id none b = false
same_id (some a) b = a == b

module _ {F : Floats} where
  -- `nodes.get(id)`
  abbrev pub find_node : List (GraphNode F) → ℕ → Option (GraphNode F)
  find_node nodes v = find? (λ node. v == node.id) nodes

  abbrev pub is_type : Option (GraphNode F) → (GraphNode F → Bool) → Bool
  is_type none test = false
  is_type (some node) test = test node

  abbrev pub is_topic : GraphNode F → Bool
  is_topic node = same_node_type node.node_type topic

  abbrev pub is_concept : GraphNode F → Bool
  is_concept node = same_node_type node.node_type concept

  unfoldable pub validate_concept : List (GraphNode F) → Concept F → Result (Unit {0})
  validate_concept nodes definition = elim (find_node nodes definition.id) [
    | none ↦ raise key_error
    | some node ↦ do
      raise_if
          (not (
            str_eq node.label definition.title
            && same_source node.source definition.source
            && F.eq node.confidence definition.confidence))
          "Concept definition and graph node must agree"
      elim definition.derived_from_topic_id [
        | none ↦ ok tt
        | some topic_id ↦
            raise_if (not (is_type (find_node nodes topic_id) is_topic))
              "Derived concept references an unknown topic"
      ]
  ]

  unfoldable pub validate_concepts : List (GraphNode F) → List (Concept F) → Result (Unit {0})
  validate_concepts nodes [] = ok tt
  validate_concepts nodes (definition ∷ concepts) = do
    validate_concept nodes definition
    validate_concepts nodes concepts

  unfoldable pub validate_parent : List (GraphNode F) → GraphNode F → Result (Unit {0})
  validate_parent nodes node = elim node.parent_id [
    | none ↦ ok tt
    | some parent_id ↦ elim (find_node nodes parent_id) [
      | none ↦ raise (value_error "Graph node references an unknown parent")
      | some parent ↦
          raise_if (is_concept node || is_concept parent)
            "Concepts cannot participate in curriculum containment"
    ]
  ]

  unfoldable pub validate_parents : List (GraphNode F) → List (GraphNode F) → Result (Unit {0})
  validate_parents nodes [] = ok tt
  validate_parents nodes (node ∷ more) = do validate_parent nodes node; validate_parents nodes more

  -- The `while` loop up the parents, by the rounds left: the path, or an exception.
  unfoldable pub climb :
      ℕ → List (GraphNode F) → (visited path : List ℕ) → (cursor : Option ℕ) → Result (List ℕ)
  climb zero nodes visited path cursor = raise assertion_error
  climb (suc rounds) nodes visited path none = ok path
  climb (suc rounds) nodes visited path (some cursor) =
      if contains cursor visited
      then ok path
      else if contains cursor path
      then raise (value_error "Curriculum containment contains a cycle")
      else elim (find_node nodes cursor) [
        | none ↦ raise key_error
        | some node ↦ climb rounds nodes visited (cursor ∷ path) node.parent_id
      ]

  unfoldable pub validate_containment :
      List (GraphNode F) → (visited : List ℕ) → List (GraphNode F) → Result (Unit {0})
  validate_containment nodes visited [] = ok tt
  validate_containment nodes visited (node ∷ more) = do
    path ← climb (suc (length nodes)) nodes visited [] (some node.id)
    validate_containment nodes (path ++ visited) more

  unfoldable pub find_concept : List (Concept F) → ℕ → Option (Concept F)
  find_concept concepts v = find? (λ definition. v == definition.id) concepts

  unfoldable pub validate_mapping :
      GraphDefinition F
      → (seen : List (TopicConceptMapping F)) → TopicConceptMapping F
      → Result (Unit {0})
  validate_mapping graph seen mapping = do
    raise_if (any (λ other. mapping.mapping_id == other.mapping_id) seen)
        "Topic-to-concept mapping identifiers must be unique"
    raise_if
        (any
          (λ other.
            (mapping.topic_id == other.topic_id) && (mapping.concept_id == other.concept_id))
          seen)
        "A topic-to-concept pair may appear only once"
    raise_if (not (is_type (find_node graph.nodes mapping.topic_id) is_topic))
        "Topic-to-concept mappings require a TOPIC source"
    raise_if (not (is_type (find_node graph.nodes mapping.concept_id) is_concept))
        "Topic-to-concept mappings require a CONCEPT target"
    elim (find_concept graph.concepts mapping.concept_id) [
      | none ↦ raise key_error
      | some definition ↦ do
        raise_if
            (is_fallback mapping.mapping_kind
              && (not (same_source definition.source fallback_source)
                  || not (same_id definition.derived_from_topic_id mapping.topic_id)))
            "Inferred mapping must reference its topic-derived concept"
        raise_if
            (not (is_fallback mapping.mapping_kind)
              && same_source definition.source fallback_source)
            "An inferred concept requires an inferred fallback mapping"
    ]

  unfoldable pub validate_mappings :
      GraphDefinition F → (seen mappings : List (TopicConceptMapping F)) → Result (Unit {0})
  validate_mappings graph seen [] = ok tt
  validate_mappings graph seen (mapping ∷ mappings) = do
    validate_mapping graph seen mapping
    validate_mappings graph (mapping ∷ seen) mappings

  unfoldable pub validate_edge :
      List (GraphNode F) → (seen : List (GraphEdge F)) → GraphEdge F → Result (Unit {0})
  validate_edge nodes seen edge = do
    raise_if (any (λ other. edge.edge_id == other.edge_id) seen)
        "Graph edge identifiers must be unique"
    raise_if
        (any
          (λ other.
            same_edge_type edge.edge_type other.edge_type
            && ((edge.source_node_id == other.source_node_id)
                && (edge.target_node_id == other.target_node_id)))
          seen)
        "A graph relationship may appear only once per snapshot"
    raise_if
        (not (
          is_type (find_node nodes edge.source_node_id) (λ node. true)
          && is_type (find_node nodes edge.target_node_id) (λ node. true)))
        "Graph edges must reference known nodes"
    raise_if
        (same_edge_type edge.edge_type prerequisite_of
          && (not (is_type (find_node nodes edge.source_node_id) is_concept)
              || not (is_type (find_node nodes edge.target_node_id) is_concept)))
        "Prerequisite edges must connect concepts"

  unfoldable pub validate_edges :
      List (GraphNode F) → (seen edges : List (GraphEdge F)) → Result (Unit {0})
  validate_edges nodes seen [] = ok tt
  validate_edges nodes seen (edge ∷ edges) = do
    validate_edge nodes seen edge
    validate_edges nodes (edge ∷ seen) edges

  unfoldable pub validate_references : GraphDefinition F → Result (Unit {0})
  validate_references graph = do
    raise_if (not (unrepeated (node_ids graph))) "Graph node identifiers must be unique"
    raise_if (not (unrepeated (map (λ definition. definition.id) graph.concepts)))
        "Concept identifiers must be unique"
    raise_if
        (not (
          same_members (map (λ node. node.id) (keep is_concept graph.nodes))
            (map (λ definition. definition.id) graph.concepts)))
        "Every concept must have exactly one CONCEPT graph node"
    validate_concepts graph.nodes graph.concepts
    validate_parents graph.nodes graph.nodes
    validate_containment graph.nodes [] graph.nodes
    validate_mappings graph [] graph.mappings
    validate_edges graph.nodes [] graph.edges
