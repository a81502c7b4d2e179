-- ===== src/Diagnostics/Eligible.antt =====
-- Which concepts `select_diagnostic_candidates` of packages/curriculum/diagnostics.py makes candidates.
use autonomus_academic_assis.Base.{
  ℕ, zero, suc, ◌≤◌, ◌≡◌, ap, ◌∙◌, subst, true, false, not, ◌&&◌, Option, some, some_same,
  some_same, Option-cases, List, [], ◌∷◌, List-cases, keep, take, length, contains, contains-keep,
  contains-sort_by, ltb, arith, All, All-contains, inl, inr,
}
use autonomus_academic_assis.Base.Floats.{Floats}
use autonomus_academic_assis.Planner.State.{DiagnosticState, DiagnosticCandidate}
use autonomus_academic_assis.Curriculum.Kahn.Decides.{place}
use autonomus_academic_assis.Diagnostics.Select.{
  count_of, DiagnosticConceptState, Ranked, score, is_excluded, valid_questions, candidate_of,
}
use autonomus_academic_assis.Diagnostics.Items.{Offers}

module _ {ℓ} (P : ℕ → Type ℓ) where
  All-take : (n : ℕ) (xs : List ℕ) {ys : List ℕ} → take n xs ≡ ys → All P xs → All P ys
  All-take n xs e h = subst (All P) e (keeps n xs h)
    where
      keeps : (n : ℕ) (xs : List ℕ) → All P xs → All P (take n xs)
      keeps zero xs h = tt
      keeps (suc n) [] h = tt
      keeps (suc n) (x ∷ xs) h = (h.0, keeps n xs h.1)

pub contains-valid_questions :
    (state : DiagnosticState) (q : ℕ) (given : List ℕ)
    → contains q (valid_questions state given)
      ≡ not (contains q state.attempted_question_version_ids) && contains q given
contains-valid_questions state q given =
    contains-sort_by ltb q (keep (λ q. not (contains q state.attempted_question_version_ids)) given)
    ∙ contains-keep (λ q. not (contains q state.attempted_question_version_ids)) q given

module _ {F : Floats} where
  module _ (concept_states : ℕ → Option (DiagnosticConceptState F))
      (question_version_ids : ℕ → List ℕ) (state : DiagnosticState) where
    -- Not assessed, not excluded, and asked nothing that was attempted.
    pub record Eligible (d : DiagnosticCandidate F) : Type 0 where
      pub unassessed :
          (s : DiagnosticConceptState F) × (concept_states d.stable_concept_id ≡ some s)
          × (s.diagnostic_assessed ≡ false)
      pub included : is_excluded state d.stable_concept_id ≡ false
      pub fresh :
          All
            (λ q.
              (contains q state.attempted_question_version_ids ≡ false)
              × (contains q (question_version_ids d.stable_concept_id) ≡ true))
            d.question_version_ids

    module _ (descendants : List (ℕ × ℕ)) (order : List ℕ) where
      abbrev pub made : (v : ℕ) → DiagnosticConceptState F → List ℕ → Ranked F
      made v s questions = record {
        score = score F (count_of descendants v) s.confidence;
        rank = place order v;
        concept_id = v;
        descendant_count = count_of descendants v;
        questions = questions;
        confidence = s.confidence;
      }

      abbrev candidate : ℕ → Option (Ranked F)
      candidate = candidate_of descendants order concept_states question_version_ids state

      -- A concept that gives a candidate passed every test.
      pub record Origin (v : ℕ) (c : Ranked F) : Type 0 where
        pub unassessed :
            (s : DiagnosticConceptState F) × (concept_states v ≡ some s)
            × (s.diagnostic_assessed ≡ false)
            × (made v s (valid_questions state (question_version_ids v)) ≡ c)
        pub included : is_excluded state v ≡ false
        pub asks : 1 ≤ length (valid_questions state (question_version_ids v))

      pub candidate-Origin : (v : ℕ) (c : Ranked F) → candidate v ≡ some c → Origin v c
      unfolding candidate_of
      candidate-Origin v c h = elim (Option-cases (concept_states v)) [
        | inl e ↦ absurd (ground (arith, h, e))
        | inr (s, e) ↦ elim (List-cases (valid_questions state (question_version_ids v))) [
          | inl k ↦ absurd (ground (arith, h, e, k))
          | inr (q, rest, k) ↦
              let same : some (made v s (q ∷ rest)) ≡ some c = ground (arith, h, e, k) in
              record {
                unassessed = (s, e, ground (arith, h, e), ap (made v s) k ∙ some_same same);
                included = ground (arith, h, e);
                asks = ground (arith, k);
              }
        ]
      ]

      pub Origin-Offers : (v : ℕ) (c : Ranked F) → Origin v c → Offers Eligible c
      Origin-Offers v c origin =
          let (s, e, off, same) = origin.unassessed in
          subst (Offers Eligible) same (record {
            asks = origin.asks;
            allowed = λ n q questions t. record {
              unassessed = (s, e, off);
              included = origin.included;
              fresh =
                  All-take
                    (λ q.
                      (contains q state.attempted_question_version_ids ≡ false)
                      × (contains q (question_version_ids v) ≡ true))
                    n (valid_questions state (question_version_ids v)) t
                    (All-contains (valid_questions state (question_version_ids v)) λ q m.
                      let valid = contains-valid_questions state q (question_version_ids v) in
                      (ground (arith, valid, m), ground (arith, valid, m)));
            };
          })
