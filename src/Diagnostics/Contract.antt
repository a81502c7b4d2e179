-- ===== src/Diagnostics/Contract.antt =====
-- What `select_diagnostic_candidates` of packages/curriculum/diagnostics.py returns.
use autonomus_academic_assis.Base.{
  ℕ, ◌≤◌, ◌≡◌, refl, subst, true, false, Option, none, some, some_same, ok_same, some_same, List,
  [], ◌∷◌, map, ◌==◌, arith, All, All-sort_by, sort_by, sort_ids, Bool-cases, inl, inr, ok, bind_ok,
  ◌>>=◌,
}
use autonomus_academic_assis.Base.Floats.{Floats}
use autonomus_academic_assis.Planner.State.{DiagnosticState, DiagnosticCandidate}
use autonomus_academic_assis.Curriculum.Definition.{GraphDefinition}
use autonomus_academic_assis.Curriculum.Kahn.{topological_order}
use autonomus_academic_assis.Curriculum.Reach.{update, unique_descendant_counts}
use autonomus_academic_assis.Diagnostics.Select.{
  DiagnosticConceptState, Ranked, ranked_before, candidate_of, candidates_of, select_items,
  select_diagnostic_candidates,
}
use autonomus_academic_assis.Diagnostics.Items.{
  spent, IsSized, Offers, Selects, select_items-Selects,
}
use autonomus_academic_assis.Diagnostics.Eligible.{Eligible, candidate-Origin, Origin-Offers}

module _ {F : Floats} where
  candidates_of-All :
      (P : Ranked F → Type 0) (f : ℕ → Option (Ranked F)) (ids : List ℕ)
      → ((v : ℕ) (c : Ranked F) → f v ≡ some c → P c)
      → All P (candidates_of f ids)
  unfolding candidates_of
  candidates_of-All P f [] h = tt
  candidates_of-All P f (v ∷ ids) h =
      go (f v) (h v) (candidates_of f ids) (candidates_of-All P f ids h)
    where
      go :
          (o : Option (Ranked F))
          → ((c : Ranked F) → o ≡ some c → P c)
          → (rest : List (Ranked F)) → All P rest
          → All P (elim o [ none ↦ rest | some c ↦ c ∷ rest ])
      go none p rest all = all
      go (some c) p rest all = (p c refl, all)

  module _ (graph : GraphDefinition F) (concept_states : ℕ → Option (DiagnosticConceptState F))
      (question_version_ids : ℕ → List ℕ) (state : DiagnosticState) where
    abbrev offered : List (ℕ × ℕ) → List ℕ → List (Ranked F)
    offered descendants order =
        candidates_of (candidate_of descendants order concept_states question_version_ids state)
          (sort_ids (update (map (λ concept. concept.id) graph.concepts) []))

    -- What the last loop got and gave.
    record Ran (ds : List (DiagnosticCandidate F)) : Type 0 where
      pub descendants : List (ℕ × ℕ)
      pub order : List ℕ
      pub selects :
          Selects
            (Eligible concept_states question_version_ids state)
            state.remaining_item_budget
            (sort_by ranked_before (offered descendants order))
            ds

    ran :
        (ds : List (DiagnosticCandidate F))
        → select_diagnostic_candidates graph concept_states question_version_ids state ≡ ok ds
        → (state.remaining_item_budget == 0) ≡ false
        → Ran ds
    unfolding select_diagnostic_candidates
    ran ds h n =
        let (descendants, _, rest) =
          bind_ok (unique_descendant_counts graph true)
            (λ descendants. topological_order graph true >>= λ order.
              select_items state.remaining_item_budget
                (sort_by ranked_before (offered descendants order)))
            (ground (arith, h, n)) in
        let (order, _, done) = bind_ok (topological_order graph true) _ rest in
        let candidates = offered descendants order in
        record {
          descendants = descendants;
          order = order;
          selects =
              (select_items-Selects (Eligible concept_states question_version_ids state)
                  state.remaining_item_budget (sort_by ranked_before candidates)
                  ((All-sort_by (Offers (Eligible concept_states question_version_ids state))
                      ranked_before candidates).1
                    (candidates_of-All (Offers (Eligible concept_states question_version_ids state))
                      _ _
                      λ v c e.
                        Origin-Offers concept_states question_version_ids state descendants order v
                          c
                          (candidate-Origin concept_states question_version_ids state descendants
                            order v c e)))).at
                ds done;
        }

    -- The returned candidates ask at most as many items as remain, each one or two distinct questions
    -- that were not attempted, on a concept that is neither assessed nor excluded.
    pub select_diagnostic_candidates-Eligible :
        (ds : List (DiagnosticCandidate F))
        → select_diagnostic_candidates graph concept_states question_version_ids state ≡ ok ds
        → (spent ds ≤ state.remaining_item_budget)
          × All (λ d. IsSized d × Eligible concept_states question_version_ids state d) ds
    unfolding select_diagnostic_candidates
    select_diagnostic_candidates-Eligible ds h =
        elim (Bool-cases (state.remaining_item_budget == 0)) [
          | inl q ↦
              let none_selected : ok [] ≡ ok ds = ground (arith, h, q) in
              subst
                (λ ds.
                  (spent ds ≤ state.remaining_item_budget)
                  × All (λ d. IsSized d × Eligible concept_states question_version_ids state d) ds)
                (ok_same none_selected) (omega arith, tt)
          | inr n ↦ let r = ran ds h n in (r.selects.within, r.selects.each)
        ]
