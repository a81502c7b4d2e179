-- ===== src/Examples/Graphs.antt =====
-- The theorems on the curriculum graph at three concepts in a chain with a shortcut.
use autonomus_academic_assis.Base.{
  ℕ, ◌≡◌, ◌↔◌, refl, true, Option, none, some, List, [], ◌∷◌, contains, keep, All, Unique, ok,
  raise, String, sort_by, insert_by,
}
use autonomus_academic_assis.Base.Floats.{whole}
use autonomus_academic_assis.Planner.Vocabulary.{prerequisite_of, confirmed, EdgeSource}
use autonomus_academic_assis.Planner.State.{GraphEdge}
use autonomus_academic_assis.Curriculum.Definition.{
  GraphNode, Concept, GraphDefinition, topic, concept, user_defined, explicit,
}
use autonomus_academic_assis.Curriculum.Prerequisites.{
  is_candidate, reject_self_loop, validate_self_loops, prerequisite_edges,
}
use autonomus_academic_assis.Curriculum.Kahn.{
  link, release, drain, drained, order_nodes, node_ids, topological_order,
}
use autonomus_academic_assis.Curriculum.Kahn.Loop.{HasEnds}
use autonomus_academic_assis.Curriculum.Kahn.Order.{IsRanked, IsOrder}
use autonomus_academic_assis.Curriculum.Kahn.Correct.{order_nodes-IsOrder}
use autonomus_academic_assis.Curriculum.Kahn.Decides.{
  Walk, order_nodes-decides, order_nodes-acyclic,
}
use autonomus_academic_assis.Curriculum.Adjacency.{collect_children}
use autonomus_academic_assis.Curriculum.Depth.{depth_nodes}
use autonomus_academic_assis.Curriculum.Depth.Longest.{IsLongest, depth_nodes-IsLongest}
use autonomus_academic_assis.Curriculum.Reach.{descendants_by_node}
use autonomus_academic_assis.Curriculum.Reach.Exact.{descendants_by_node-exact}
use autonomus_academic_assis.Curriculum.Descend.{descend}
use autonomus_academic_assis.Curriculum.Descend.Complete.{descend-exact}
use autonomus_academic_assis.Curriculum.References.{
  climb, validate_containment, validate_concept, validate_concepts, validate_parent,
  validate_parents, find_concept, validate_mapping, validate_mappings, validate_edge,
  validate_edges, validate_references,
}
use autonomus_academic_assis.Curriculum.References.Containment.{Rooted}
use autonomus_academic_assis.Curriculum.References.Forest.{containment-decides}
use autonomus_academic_assis.Curriculum.References.WellFormed.{
  WellFormed, validate_references-WellFormed,
}
use autonomus_academic_assis.Curriculum.Validated.{
  topological_order-decides, topological_order-IsOrder,
}

abbrev prerequisite : ℕ → ℕ → ℕ → GraphEdge whole
prerequisite id a b = record {
  edge_id = id;
  edge_type = prerequisite_of;
  source_node_id = a;
  target_node_id = b;
  source = EdgeSource.user_confirmed;
  confidence = 1;
  status = confirmed;
}

abbrev chain : List (GraphEdge whole)
chain = prerequisite 11 1 2 ∷ prerequisite 12 2 3 ∷ prerequisite 13 1 3 ∷ []

abbrev three : List ℕ
three = 3 ∷ 1 ∷ 2 ∷ []

abbrev sorted_three : List ℕ
sorted_three = 1 ∷ 2 ∷ 3 ∷ []

three-Unique : Unique three
three-Unique = (refl, (refl, (refl, tt)))

order_three : order_nodes three chain ≡ ok sorted_three
unfolding order_nodes link drained drain release sort_by insert_by
order_three = refl

order_nodes-IsOrder_example : IsOrder three chain sorted_three × All (HasEnds three) chain
order_nodes-IsOrder_example = order_nodes-IsOrder three chain sorted_three three-Unique order_three

order_nodes-decides_example :
    ((order : List ℕ) × (order_nodes three chain ≡ ok order))
    ↔ (All (HasEnds three) chain × ((rank : ℕ → ℕ) × IsRanked chain rank))
order_nodes-decides_example = order_nodes-decides three chain three-Unique

order_nodes-acyclic_example : ¬ Walk chain 1 1
order_nodes-acyclic_example =
    order_nodes-acyclic three chain sorted_three three-Unique order_three 1

abbrev depths : ℕ → ℕ
unfolding depth_nodes order_nodes link drained drain release sort_by insert_by collect_children
depths = elim (depth_nodes three chain) [ raise e ↦ λ v. 0 | ok depth ↦ depth ]

depth_three : depth_nodes three chain ≡ ok depths
unfolding depth_nodes order_nodes link drained drain release sort_by insert_by collect_children
depth_three = refl

depth_nodes-IsLongest_example : IsLongest chain (depths 3) 3
depth_nodes-IsLongest_example = depth_nodes-IsLongest three chain depths three-Unique depth_three 3

abbrev below_three : ℕ → List ℕ
unfolding descendants_by_node order_nodes link drained drain release sort_by insert_by
    collect_children
below_three = elim (descendants_by_node three chain) [ raise e ↦ λ v. [] | ok sets ↦ sets ]

below_made : descendants_by_node three chain ≡ ok below_three
unfolding descendants_by_node order_nodes link drained drain release sort_by insert_by
    collect_children
below_made = refl

descendants_by_node-exact_example :
    Unique (below_three 1) × ((x : ℕ) → (contains x (below_three 1) ≡ true) ↔ Walk chain 1 x)
descendants_by_node-exact_example =
    descendants_by_node-exact three chain below_three three-Unique below_made 1

descend-exact_example :
    (found : List ℕ) × (descend three chain 2
      ≡ ok (keep (λ candidate. contains candidate found) sorted_three))
    × ((x : ℕ)
        → (contains x (keep (λ candidate. contains candidate found) sorted_three) ≡ true)
          ↔ Walk chain 2 x)
descend-exact_example = descend-exact three chain sorted_three 2 three-Unique order_three

abbrev node : ℕ → String → GraphNode whole
node id label = record {
  id = id;
  node_type = concept;
  label = label;
  parent_id = none;
  curriculum_element_id = none;
  curriculum_element = none;
  source = user_defined;
  confidence = 1;
}

abbrev unit : ℕ → Option ℕ → GraphNode whole
unit id parent = record {
  id = id;
  node_type = topic;
  label = "topic";
  parent_id = parent;
  curriculum_element_id = none;
  curriculum_element = none;
  source = user_defined;
  confidence = 1;
}

abbrev definition : ℕ → String → Concept whole
definition id title = record {
  id = id;
  key = "key";
  title = title;
  description = none;
  source = user_defined;
  confidence = 1;
  verified = true;
  derived_from_topic_id = none;
}

abbrev course : GraphDefinition whole
course = record {
  nodes =
      node 3 "limits" ∷ node 1 "numbers" ∷ node 2 "functions" ∷ unit 4 none ∷ unit 5 (some 4) ∷ [];
  concepts = definition 1 "numbers" ∷ definition 2 "functions" ∷ definition 3 "limits" ∷ [];
  mappings =
      record {
        mapping_id = 21;
        topic_id = 5;
        concept_id = 3;
        mapping_kind = explicit;
        source = user_defined;
        confidence = 1;
        verified = true;
      }
      ∷ [];
  edges = chain;
}

course_accepted : validate_references course ≡ ok tt
unfolding validate_references validate_concepts validate_concept validate_parents validate_parent
    validate_containment climb validate_mappings validate_mapping find_concept validate_edges
    validate_edge node_ids
course_accepted = refl

no_loops : All (λ e. reject_self_loop e ≡ ok tt) course.edges
unfolding reject_self_loop
no_loops = (refl, (refl, (refl, tt)))

containment-decides_example :
    (validate_containment course.nodes [] course.nodes ≡ ok tt)
    ↔ All (λ node. Rooted course.nodes node.id) course.nodes
containment-decides_example =
    containment-decides course.nodes (refl, (refl, (refl, (refl, (refl, tt)))))

validate_references-WellFormed_example : WellFormed course
validate_references-WellFormed_example = validate_references-WellFormed course course_accepted

topological_order-decides_example :
    ((order : List ℕ) × (topological_order course true ≡ ok order))
    ↔ ((rank : ℕ → ℕ) × IsRanked (keep (is_candidate true) course.edges) rank)
topological_order-decides_example = topological_order-decides course true course_accepted no_loops

course_order : topological_order course true ≡ ok (1 ∷ 2 ∷ 3 ∷ 4 ∷ 5 ∷ [])
unfolding topological_order validate_self_loops prerequisite_edges node_ids order_nodes link drained
    drain release sort_by insert_by
course_order = refl

topological_order-IsOrder_example :
    IsOrder (node_ids course) (keep (is_candidate true) course.edges) (1 ∷ 2 ∷ 3 ∷ 4 ∷ 5 ∷ [])
topological_order-IsOrder_example =
    topological_order-IsOrder course true (1 ∷ 2 ∷ 3 ∷ 4 ∷ 5 ∷ []) course_accepted no_loops
      course_order
