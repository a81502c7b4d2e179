-- ===== src/Examples/Diagnosis.antt =====
-- The theorems on the diagnostic selection at a course of two concepts, with one item and with four.
use autonomus_academic_assis.Base.{
  ℕ, sort_by, insert_by, ◌≤◌, ◌≡◌, refl, true, false, none, some, List, [], ◌∷◌, All, ok, ◌==◌,
  if◌then◌else◌,
}
use autonomus_academic_assis.Base.Floats.{whole}
use autonomus_academic_assis.Planner.State.{DiagnosticState, DiagnosticCandidate}
use autonomus_academic_assis.Curriculum.Definition.{
  GraphDefinition, Concept, GraphNode, concept, user_defined,
}
use autonomus_academic_assis.Curriculum.Prerequisites.{validate_self_loops, prerequisite_edges}
use autonomus_academic_assis.Curriculum.Kahn.{
  link, release, drain, drained, order_nodes, node_ids, topological_order,
}
use autonomus_academic_assis.Curriculum.Adjacency.{collect_children}
use autonomus_academic_assis.Curriculum.Reach.{
  absorb, absorb_all, descendants_by_node, unique_descendant_counts,
}
use autonomus_academic_assis.Diagnostics.Select.{
  DiagnosticConceptState, candidate_of, candidates_of, select_items, select_diagnostic_candidates,
}
use autonomus_academic_assis.Diagnostics.Items.{spent, IsSized}
use autonomus_academic_assis.Diagnostics.Eligible.{Eligible}
use autonomus_academic_assis.Diagnostics.Contract.{select_diagnostic_candidates-Eligible}

abbrev node : ℕ → GraphNode whole
node id = record {
  id = id;
  node_type = concept;
  label = "concept";
  parent_id = none;
  curriculum_element_id = none;
  curriculum_element = none;
  source = user_defined;
  confidence = 1;
}

abbrev definition : ℕ → Concept whole
definition id = record {
  id = id;
  key = "key";
  title = "concept";
  description = none;
  source = user_defined;
  confidence = 1;
  verified = true;
  derived_from_topic_id = none;
}

abbrev pair : GraphDefinition whole
pair = record {
  nodes = node 1 ∷ node 2 ∷ [];
  concepts = definition 1 ∷ definition 2 ∷ [];
  mappings = [];
  edges = [];
}

abbrev unsure : ℕ → DiagnosticConceptState whole
unsure id = record { stable_concept_id = id; confidence = 0; diagnostic_assessed = false }

abbrev questions : ℕ → List ℕ
questions v = if v == 1 then 31 ∷ 32 ∷ 33 ∷ [] else 41 ∷ []

abbrev run : ℕ → DiagnosticState
run items = record {
  diagnostic_run_id = 5;
  learner_id = 6;
  course_id = 7;
  graph_version_id = 8;
  diagnostic_policy_version = "diagnostic_v1";
  item_budget = 12;
  selected_concept_ids = [];
  attempted_question_version_ids = 32 ∷ [];
  diagnostic_assessed_concept_ids = [];
  remaining_item_budget = items;
}

abbrev asked : ℕ → ℕ → List ℕ → DiagnosticCandidate whole
asked id rank question_ids = record {
  stable_concept_id = id;
  score = 1;
  descendant_count = 0;
  confidence = 0;
  topological_rank = rank;
  question_version_ids = question_ids;
}

one_item :
    select_diagnostic_candidates pair (λ v. some (unsure v)) questions (run 1)
    ≡ ok (asked 1 0 (31 ∷ []) ∷ [])
unfolding select_diagnostic_candidates select_items candidates_of candidate_of
    unique_descendant_counts descendants_by_node absorb_all absorb collect_children
    topological_order prerequisite_edges validate_self_loops node_ids order_nodes link drained drain
    release sort_by insert_by
one_item = refl

select_diagnostic_candidates-Eligible_example :
    (spent (asked 1 0 (31 ∷ []) ∷ []) ≤ 1)
    × All
        (λ d. IsSized d × Eligible (λ v. some (unsure v)) questions (run 1) d)
        (asked 1 0 (31 ∷ []) ∷ [])
select_diagnostic_candidates-Eligible_example =
    select_diagnostic_candidates-Eligible pair (λ v. some (unsure v)) questions (run 1)
      (asked 1 0 (31 ∷ []) ∷ []) one_item
