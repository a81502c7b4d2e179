-- ===== src/Mastery/Reviews.antt =====
-- How the evidence that packages/mastery/engine.py applies moves the review ladder.
use autonomus_academic_assis.Base.{
  if_holds, put, ℕ, ◌+◌, ◌≡◌, refl, sym, ◌∙◌, subst, Bool, true, false, Bool-cases, ◌==◌, ==_iff,
  contains, map, Option, some, List, [], ◌∷◌, arith, All, ◌⊎◌, inl, inr, ok, OnOk, OnOk-ok,
  OnOk-raise, OnOk-then, OnOk-imp, OnOk-bind,
}
use autonomus_academic_assis.Mastery.State.{
  Arithmetic, direct, inferred, EvidenceInput, MasteryState, validate_state,
}
use autonomus_academic_assis.Mastery.Weights.{calculate_weight_snapshot}
use autonomus_academic_assis.Mastery.Decay.{Tagged, decay_concepts, state_or_initial, tag}
use autonomus_academic_assis.Mastery.Tagging.{
  AllDecayed, AllTagged, decay_concepts-AllDecayed, tag-AllTagged,
}
use autonomus_academic_assis.Mastery.Apply.{
  EvidenceApplication, advance, is_success, is_failure, share, positive_mass, negative_mass,
  uncertainty, total_role, is_audit_only, unchanged, apply_one, apply_all, apply_evidence,
}
use autonomus_academic_assis.Mastery.ReviewTests.{kind_cases, audit_only_lem, not_audit_only}
use autonomus_academic_assis.Mastery.ReviewSteps.{
  IsReviewed, From, decay_state-From, validate_state-eq, ReviewStep, IsReviewed-ReviewStep,
}

module _ {F : Arithmetic} where
  module _ (states : ℕ → Option (MasteryState F)) (evidence : EvidenceInput F)
      (previous_learning_at : ℕ → Option ℕ) where
    -- Evidence that is kept for audit only: inferred and not fully correct.
    abbrev pub IsAuditOnly : Type 0
    IsAuditOnly = (evidence.kind ≡ inferred) × (F.lt evidence.correct (F.decimal 10 1) ≡ true)

    -- The state of `v` before and after: the step of its review, and one more answer if the evidence is
    -- direct.
    abbrev pub Stepped : ℕ → MasteryState F → Type 0
    Stepped v new =
        let old = state_or_initial (states v) in
        ReviewStep evidence previous_learning_at v old new
        × (((evidence.kind ≡ direct) × (new.n_direct ≡ old.n_direct + 1))
            ⊎ ((evidence.kind ≡ inferred) × (new.n_direct ≡ old.n_direct)))

    abbrev concept_ids : List ℕ
    concept_ids = map (λ s. s.stable_concept_id) evidence.concept_roles

    -- A concept of the evidence is stored after its step; every other one, and all of them if the evidence
    -- is for audit only, are as before.
    abbrev pub Moved : ℕ → Option (MasteryState F) → Type 0
    Moved v o =
        ((¬ IsAuditOnly)
          × (contains v concept_ids ≡ true)
          × ((s : MasteryState F) × (o ≡ some s) × Stepped v s))
        ⊎ ((IsAuditOnly ⊎ (contains v concept_ids ≡ false)) × (o ≡ states v))

    -- What the loop has stored for the concepts `ids`, from `before`.
    abbrev Stored : (v : ℕ) → List ℕ → (before after : Option (MasteryState F)) → Type 0
    Stored v ids before after =
        ((contains v ids ≡ true) × ((s : MasteryState F) × (after ≡ some s) × Stepped v s))
        ⊎ ((contains v ids ≡ false) × (after ≡ before))

    Stored-step :
        (v id : ℕ) (ids : List ℕ) (before : ℕ → Option (MasteryState F)) (s : MasteryState F)
        (after : Option (MasteryState F))
        → Stepped id s
        → Stored v ids (put before id (some s) v) after
        → Stored v (id ∷ ids) (before v) after
    Stored-step v id ids before s after stepped (inl (m, stored)) = inl (ground (arith, m), stored)
    Stored-step v id ids before s after stepped (inr (m, same)) = elim (Bool-cases (v == id)) [
      | inl e ↦ inl (
        ground (arith, e),
        (s, same ∙ ground (arith, e), subst (λ x. Stepped x s) (sym ((==_iff v id).0 e)) stepped),
      )
      | inr n ↦ inr (ground (arith, n, m), same ∙ ground (arith, n))
    ]

    answers_lem :
        (old new : MasteryState F) (success failure : Bool)
        → IsReviewed evidence success failure old new
        → ((evidence.kind ≡ direct) × (new.n_direct ≡ old.n_direct + 1))
          ⊎ ((evidence.kind ≡ inferred) × (new.n_direct ≡ old.n_direct))
    answers_lem old new success failure r =
        let answers = r.answers in
        elim (kind_cases evidence.kind) [
          | inl e ↦ inl (e, ground (arith, e, answers))
          | inr e ↦ inr (e, ground (arith, e, answers))
        ]

    module _ (review_event_ids : ℕ → Option ℕ)
        (positive negative denominator role_denominator : F.Float) where
      apply_one-Stepped :
          (t : Tagged F)
          → From states t.concept_id t.state
          → OnOk
              (λ r. Stepped t.concept_id r.0)
              (apply_one evidence previous_learning_at review_event_ids positive negative
                denominator role_denominator t)
      unfolding apply_one
      apply_one-Stepped t h =
          let rung = h.same_rung in
          let successes = h.same_successes in
          let answers = h.same_direct in
          let at = h.same_reviewed_at in
          let success = is_success evidence previous_learning_at t.concept_id in
          let failure = is_failure evidence previous_learning_at t.concept_id in
          let old = state_or_initial (states t.concept_id) in
          let next =
            advance evidence success failure (review_event_ids t.concept_id) (F.mul positive t.role)
              (share negative denominator role_denominator t) t.state in
          let reviewed : IsReviewed evidence success failure old next = record {
            rung = ground (arith, rung);
            successes = ground (arith, successes);
            reviewed_at = ground (arith, at);
            answers = ground (arith, answers);
          } in
          OnOk-bind (λ a. next ≡ a) (validate_state next) _ (validate_state-eq next)
            λ state same. OnOk-ok _ (
              subst (Stepped t.concept_id) same (
                IsReviewed-ReviewStep evidence previous_learning_at t.concept_id old next reviewed,
                answers_lem old next success failure reviewed,
              ))

      apply_all-Stored :
          (tagged : List (Tagged F)) (app : EvidenceApplication F)
          → All (λ t. From states t.concept_id t.state) tagged
          → OnOk
              (λ after.
                (v : ℕ) → Stored v (map (λ t. t.concept_id) tagged) (app.states v) (after.states v))
              (apply_all evidence previous_learning_at review_event_ids positive negative
                denominator role_denominator tagged app)
      unfolding apply_all
      apply_all-Stored [] app all = OnOk-ok app λ v. inr (refl, refl)
      apply_all-Stored (t ∷ tagged) app all =
          OnOk-bind (λ r. Stepped t.concept_id r.0)
            (apply_one evidence previous_learning_at review_event_ids positive negative denominator
              role_denominator t)
            _ (apply_one-Stepped t all.0)
            λ r stepped. OnOk-imp (apply_all-Stored tagged _ all.1) λ after stored v.
              Stored-step v t.concept_id (map (λ t. t.concept_id) tagged) app.states r.0
                (after.states v) stepped (stored v)

    Stored-Moved :
        (v : ℕ) (o : Option (MasteryState F))
        → ¬ IsAuditOnly
        → Stored v concept_ids (states v) o
        → Moved v o
    Stored-Moved v o n (inl (m, stored)) = inl (n, m, stored)
    Stored-Moved v o n (inr (m, same)) = inr (inr m, same)

    -- If evidence is applied, a concept that it does not name keeps its state, and so do all if it is for
    -- audit only: inferred and not fully correct. Otherwise every concept that it names is stored. Its
    -- review succeeds exactly if the evidence is direct, of a review, fully correct and a day or more
    -- after the concept was last learned: it then climbs one rung, up to the fifth, counts one success
    -- and is dated. A direct review that is not fully correct falls to the first rung, and nothing else
    -- moves the rung, the successes or the date. Direct evidence adds one answer, inferred none.
    pub apply_evidence-Moved :
        (review_event_ids : ℕ → Option ℕ) (app : EvidenceApplication F)
        → apply_evidence states evidence previous_learning_at review_event_ids ≡ ok app
        → (v : ℕ) → Moved v (app.states v)
    unfolding apply_evidence
    apply_evidence-Moved review_event_ids app e =
        (OnOk-then {P = λ app. (v : ℕ) → Moved v (app.states v)}
            (calculate_weight_snapshot evidence) _
            λ weight.
              OnOk-bind (AllDecayed (From states) concept_ids)
                (decay_concepts states evidence.occurred_at evidence.concept_roles) _
                (decay_concepts-AllDecayed (From states) states evidence.occurred_at
                  evidence.concept_roles (decay_state-From states evidence.occurred_at))
                λ concepts all.
                  if_holds (OnOk (λ app. (v : ℕ) → Moved v (app.states v))) (is_audit_only evidence)
                    (λ q. OnOk-ok _ λ v. inr (inl (audit_only_lem _ _ q), refl))
                    λ q.
                      OnOk-bind (AllTagged (From states) concept_ids) (tag concepts) _
                        (tag-AllTagged (From states) concept_ids concepts all)
                        λ tagged more.
                          if_holds (OnOk (λ app. (v : ℕ) → Moved v (app.states v)))
                            (F.le (total_role tagged) (F.decimal 0 1)) (λ _. OnOk-raise _)
                            λ _.
                              OnOk-imp
                                (apply_all-Stored review_event_ids (positive_mass evidence weight)
                                  (negative_mass evidence weight) (uncertainty tagged)
                                  (total_role tagged) tagged (unchanged states) more.1)
                                λ after stored v. Stored-Moved v _ (not_audit_only _ _ q) (
                                  subst (λ ids. Stored v ids (states v) (after.states v)) more.0
                                    (stored v))).at
          app e
