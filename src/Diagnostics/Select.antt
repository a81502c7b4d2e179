-- ===== src/Diagnostics/Select.antt =====
-- `select_diagnostic_candidates` of packages/curriculum/diagnostics.py. A mapping is a function.
use autonomus_academic_assis.Base.{
  ℕ, zero, suc, ◌+◌, ◌-◌, min, Bool, true, not, ◌&&◌, ◌||◌, Option, none, some, List, [], ◌∷◌, map,
  keep, take, length, contains, ◌==◌, ltb, if◌then◌else◌, sort_by, sort_ids, Result, ok, raise_if,
  ◌>>=◌, ◌>>◌,
}
use autonomus_academic_assis.Base.Floats.{Floats}
use autonomus_academic_assis.Planner.State.{DiagnosticState, DiagnosticCandidate}
use autonomus_academic_assis.Curriculum.Definition.{GraphDefinition}
use autonomus_academic_assis.Curriculum.Kahn.{topological_order}
use autonomus_academic_assis.Curriculum.Kahn.Decides.{place}
use autonomus_academic_assis.Curriculum.Reach.{update, unique_descendant_counts}
use autonomus_academic_assis.Curriculum.References.{unrepeated}

-- `descendants.get(concept_id, 0)`
abbrev pub count_of : List (ℕ × ℕ) → ℕ → ℕ
count_of [] v = 0
count_of ((a, n) ∷ counts) v = if v == a then n else count_of counts v

module _ (F : Floats) where
  open F use {Float}

  pub record DiagnosticConceptState : Type 0 where
    pub stable_concept_id : ℕ
    pub confidence : Float
    pub diagnostic_assessed : Bool

  -- The tuple that is sorted. The score stands with its sign.
  pub record Ranked : Type 0 where
    pub score : Float
    pub rank : ℕ
    pub concept_id : ℕ
    pub descendant_count : ℕ
    pub questions : List ℕ
    pub confidence : Float

abbrev pub score : (F : Floats) (descendant_count : ℕ) (confidence : F.Float) → F.Float
score F descendant_count confidence = F.times (descendant_count + 1) (F.sub F.one confidence)

-- `set(selected_concept_ids) | set(diagnostic_assessed_concept_ids)`
abbrev pub is_excluded : DiagnosticState → ℕ → Bool
is_excluded state concept_id =
    contains concept_id state.selected_concept_ids
    || contains concept_id state.diagnostic_assessed_concept_ids

abbrev pub valid_questions : DiagnosticState → List ℕ → List ℕ
valid_questions state question_ids =
    sort_ids (keep (λ q. not (contains q state.attempted_question_version_ids)) question_ids)

module _ {F : Floats} where
  -- The key is `(-score, rank, concept_id)`: a larger score sorts first.
  abbrev pub ranked_before : Ranked F → Ranked F → Bool
  ranked_before a b =
      if F.eq a.score b.score
      then ltb a.rank b.rank || ((a.rank == b.rank) && ltb a.concept_id b.concept_id)
      else F.lt b.score a.score

  -- One round of the first loop: the candidate that it appends.
  unfoldable pub candidate_of :
      (descendants : List (ℕ × ℕ))
      → (order : List ℕ) → (concept_states : ℕ → Option (DiagnosticConceptState F))
      → (question_version_ids : ℕ → List ℕ) → DiagnosticState
      → (concept_id : ℕ) → Option (Ranked F)
  candidate_of descendants order concept_states question_version_ids state concept_id =
      elim (concept_states concept_id) [
        | none ↦ none
        | some concept_state ↦
            if concept_state.diagnostic_assessed
            then none
            else if is_excluded state concept_id
            then none
            else elim (valid_questions state (question_version_ids concept_id)) [
              | [] ↦ none
              | q ∷ questions ↦ some (record {
                score = score F (count_of descendants concept_id) concept_state.confidence;
                rank = place order concept_id;
                concept_id = concept_id;
                descendant_count = count_of descendants concept_id;
                questions = q ∷ questions;
                confidence = concept_state.confidence;
              })
            ]
      ]

  unfoldable pub candidates_of : (ℕ → Option (Ranked F)) → (concept_ids : List ℕ) → List (Ranked F)
  candidates_of candidate [] = []
  candidates_of candidate (concept_id ∷ concept_ids) =
      let rest = candidates_of candidate concept_ids in
      elim (candidate concept_id) [ none ↦ rest | some c ↦ c ∷ rest ]

  -- The last loop, with the items that remain. `DiagnosticCandidate` refuses a repeated question.
  unfoldable pub select_items :
      (remaining : ℕ) → List (Ranked F) → Result (List (DiagnosticCandidate F))
  select_items remaining [] = ok []
  select_items zero (c ∷ candidates) = ok []
  select_items (suc n) (c ∷ candidates) = elim (take (min 2 (suc n)) c.questions) [
    | [] ↦ select_items (suc n) candidates
    | q ∷ questions ↦ do
      raise_if (not (unrepeated (q ∷ questions))) "Diagnostic question versions must be unique"
      rest ← select_items (suc n - length (q ∷ questions)) candidates
      ok (
          record {
            stable_concept_id = c.concept_id;
            score = score F c.descendant_count c.confidence;
            descendant_count = c.descendant_count;
            confidence = c.confidence;
            topological_rank = c.rank;
            question_version_ids = q ∷ questions;
          }
          ∷ rest)
  ]

  unfoldable pub select_diagnostic_candidates :
      GraphDefinition F
      → (concept_states : ℕ → Option (DiagnosticConceptState F))
      → (question_version_ids : ℕ → List ℕ) → DiagnosticState
      → Result (List (DiagnosticCandidate F))
  select_diagnostic_candidates graph concept_states question_version_ids state =
      if state.remaining_item_budget == 0 then ok [] else do
        descendants ← unique_descendant_counts graph true
        order ← topological_order graph true
        select_items state.remaining_item_budget (
            sort_by ranked_before (
              candidates_of
                (candidate_of descendants order concept_states question_version_ids state)
                (sort_ids (update (map (λ concept. concept.id) graph.concepts) []))))
