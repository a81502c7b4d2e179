-- ===== src/Curriculum/Definition.antt =====
-- The contents of a graph, packages/domain/graph.py. The curriculum element that a node embeds stands as
-- its canonical text. A UUID is a number, so `str` orders it as a number.
use autonomus_academic_assis.Base.{ℕ, Bool, true, false, Option, List, String, ◌==◌}
use autonomus_academic_assis.Base.Floats.{Floats}
use autonomus_academic_assis.Planner.State.{GraphEdge}

pub data GraphNodeType : Type 0 where
  container topic concept : GraphNodeType

abbrev pub node_type_place : GraphNodeType → ℕ
node_type_place container = 0
node_type_place topic = 1
node_type_place concept = 2

abbrev pub same_node_type : GraphNodeType → GraphNodeType → Bool
same_node_type a b = node_type_place a == node_type_place b

pub data GraphSource : Type 0 where
  syllabus_explicit user_defined llm_proposed user_confirmed : GraphSource
  seed_template inferred_fallback : GraphSource

abbrev pub source_place : GraphSource → ℕ
source_place syllabus_explicit = 0
source_place user_defined = 1
source_place llm_proposed = 2
source_place user_confirmed = 3
source_place seed_template = 4
source_place inferred_fallback = 5

abbrev pub same_source : GraphSource → GraphSource → Bool
same_source a b = source_place a == source_place b

-- `GraphSource.INFERRED_FALLBACK`
abbrev pub fallback_source : GraphSource
fallback_source = inferred_fallback

pub data MappingKind : Type 0 where
  explicit inferred_fallback : MappingKind

abbrev pub is_fallback : MappingKind → Bool
is_fallback explicit = false
is_fallback inferred_fallback = true

module _ (F : Floats) where
  open F use {Float}

  pub record GraphNode : Type 0 where
    pub id : ℕ
    pub node_type : GraphNodeType
    pub label : String
    pub parent_id : Option ℕ
    pub curriculum_element_id : Option ℕ
    pub curriculum_element : Option String
    pub source : GraphSource
    pub confidence : Float

  pub record Concept : Type 0 where
    pub id : ℕ
    pub key : String
    pub title : String
    pub description : Option String
    pub source : GraphSource
    pub confidence : Float
    pub verified : Bool
    pub derived_from_topic_id : Option ℕ

  pub record TopicConceptMapping : Type 0 where
    pub mapping_id : ℕ
    pub topic_id : ℕ
    pub concept_id : ℕ
    pub mapping_kind : MappingKind
    pub source : GraphSource
    pub confidence : Float
    pub verified : Bool

  pub record GraphDefinition : Type 0 where
    pub nodes : List GraphNode
    pub concepts : List Concept
    pub mappings : List TopicConceptMapping
    pub edges : List (GraphEdge F)
