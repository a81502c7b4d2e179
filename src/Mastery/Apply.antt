-- ===== src/Mastery/Apply.antt =====
-- `apply_evidence` of packages/mastery/engine.py. A mapping is a function to options.
use autonomus_academic_assis.Base.{
  put, ℕ, ◌+◌, ◌*◌, min, Bool, true, false, not, ◌&&◌, ◌||◌, Option, none, some, List, [], ◌∷◌,
  ◌++◌, map, contains, leb, if◌then◌else◌, sort_ids, Result, ok, raise, value_error, ◌>>=◌,
}
use autonomus_academic_assis.Mastery.State.{
  Arithmetic, is_direct, ConceptRoleSnapshot, EvidenceInput, MasteryState, EvidenceContribution,
  WeightSnapshot, validate_state,
}
use autonomus_academic_assis.Mastery.Weights.{calculate_weight_snapshot}
use autonomus_academic_assis.Mastery.Decay.{Tagged, decay_concepts, tag}

-- `REVIEW_DELAY`, in microseconds
abbrev pub review_delay : ℕ
review_delay = 24 * 3_600_000_000

-- Whether the evidence is a successful review, and whether a failed one.
abbrev pub succeeds : (correct_fully : Bool) → (previous : Option ℕ) → (occurred_at : ℕ) → Bool
succeeds true (some previous) occurred_at = leb (previous + review_delay) occurred_at
succeeds _ _ occurred_at = false

abbrev pub fails : (correct_fully partly : Bool) → (previous : Option ℕ) → Bool
fails true partly (some previous) = false
fails _ partly _ = partly

-- `sum(...)`, from the left
abbrev pub sum : (F : Arithmetic) → F.Float → List F.Float → F.Float
sum F total [] = total
sum F total (x ∷ xs) = sum F (F.add total x) xs

module _ (F : Arithmetic) where
  open F use {Float}

  pub record EvidenceApplication : Type 0 where
    pub states : ℕ → Option (MasteryState F)
    pub contributions : List (EvidenceContribution F)
    pub qualifying_review_concepts : List ℕ

module _ {F : Arithmetic} where
  open F use {Float}

  -- The share of a concept in the negative mass.
  abbrev pub share : (negative_mass denominator role_denominator : Float) → Tagged F → Float
  share negative_mass denominator role_denominator t =
      if F.lt (F.decimal 0 1) negative_mass
      then (if F.le denominator (F.decimal 0 1)
          then F.div (F.mul negative_mass t.role) role_denominator
          else F.div (F.mul (F.mul negative_mass t.role) (F.sub (F.decimal 10 1) t.mastery))
              denominator)
      else F.decimal 0 1

  -- The state after the evidence, before its validation.
  abbrev pub advance :
      EvidenceInput F
      → (success failure : Bool) → (event_id : Option ℕ) → (alpha_delta beta_delta : Float)
      → MasteryState F
      → MasteryState F
  advance evidence success failure event_id alpha_delta beta_delta state = record {
    alpha = F.add state.alpha alpha_delta;
    beta = F.add state.beta beta_delta;
    n_direct = state.n_direct + (if is_direct evidence.kind then 1 else 0);
    distinct_direct_question_ids =
        if is_direct evidence.kind
          && not (contains evidence.question_id state.distinct_direct_question_ids)
        then sort_ids (state.distinct_direct_question_ids ++ evidence.question_id ∷ [])
        else state.distinct_direct_question_ids;
    review_successes = state.review_successes + (if success then 1 else 0);
    review_rung =
        if success then min (state.review_rung + 1) 5 else if failure then 0 else state.review_rung;
    has_qualifying_review = state.has_qualifying_review || success;
    self_report_prior_applied = state.self_report_prior_applied;
    last_occurred_at = some evidence.occurred_at;
    last_successful_review_at =
        if success then some evidence.occurred_at else state.last_successful_review_at;
    last_successful_review_evidence_id =
        if success then some evidence.evidence_id else state.last_successful_review_evidence_id;
    last_successful_review_event_id =
        if success then event_id else state.last_successful_review_event_id;
  }

  module _ (evidence : EvidenceInput F) (previous_learning_at : ℕ → Option ℕ) where
    abbrev pub is_success : (concept_id : ℕ) → Bool
    is_success concept_id =
        is_direct evidence.kind
        && evidence.is_review
        && succeeds (F.eq evidence.correct (F.decimal 10 1)) (previous_learning_at concept_id)
            evidence.occurred_at

    abbrev pub is_failure : (concept_id : ℕ) → Bool
    is_failure concept_id =
        is_direct evidence.kind
        && evidence.is_review
        && fails (F.eq evidence.correct (F.decimal 10 1)) (F.lt evidence.correct (F.decimal 10 1))
            (previous_learning_at concept_id)

  module _ (evidence : EvidenceInput F) (previous_learning_at review_event_ids : ℕ → Option ℕ)
      (positive_mass negative_mass denominator role_denominator : Float) where
    -- One round of the last loop: the state and the contribution.
    unfoldable pub apply_one : Tagged F → Result (MasteryState F × EvidenceContribution F)
    apply_one t =
        let alpha_delta = F.mul positive_mass t.role in
        let beta_delta = share negative_mass denominator role_denominator t in
        do
          state ← validate_state (
              advance evidence (is_success evidence previous_learning_at t.concept_id)
                (is_failure evidence previous_learning_at t.concept_id)
                (review_event_ids t.concept_id) alpha_delta beta_delta t.state)
          ok (
            state,
            record {
              evidence_id = evidence.evidence_id;
              stable_concept_id = t.concept_id;
              alpha_delta = alpha_delta;
              beta_delta = beta_delta;
              applied = true;
              reason = none;
            },
          )

    unfoldable pub apply_all :
        List (Tagged F) → EvidenceApplication F → Result (EvidenceApplication F)
    apply_all [] app = ok app
    apply_all (t ∷ tagged) app = do
      (state, contribution) ← apply_one t
      apply_all tagged (record {
        states = put app.states t.concept_id (some state);
        contributions = app.contributions ++ contribution ∷ [];
        qualifying_review_concepts =
            if is_success evidence previous_learning_at t.concept_id
            then t.concept_id ∷ app.qualifying_review_concepts
            else app.qualifying_review_concepts;
      })

  abbrev pub audit_only : EvidenceInput F → ConceptRoleSnapshot → EvidenceContribution F
  audit_only evidence snapshot = record {
    evidence_id = evidence.evidence_id;
    stable_concept_id = snapshot.stable_concept_id;
    alpha_delta = F.decimal 0 1;
    beta_delta = F.decimal 0 1;
    applied = false;
    reason = some "INFERRED_PARTIAL_OR_INCORRECT_AUDIT_ONLY";
  }

  abbrev pub positive_mass : EvidenceInput F → WeightSnapshot F → Float
  positive_mass evidence weight =
      if is_direct evidence.kind
      then F.mul evidence.correct weight.w_correct
      else F.mul (F.decimal 3 1) weight.w_correct

  abbrev pub negative_mass : EvidenceInput F → WeightSnapshot F → Float
  negative_mass evidence weight =
      if is_direct evidence.kind
      then F.mul (F.sub (F.decimal 10 1) evidence.correct) weight.w_incorrect
      else F.decimal 0 1

  abbrev pub uncertainty : List (Tagged F) → Float
  uncertainty tagged =
      sum F (F.decimal 0 1) (map (λ t. F.mul t.role (F.sub (F.decimal 10 1) t.mastery)) tagged)

  abbrev pub total_role : List (Tagged F) → Float
  total_role tagged = sum F (F.decimal 0 1) (map (λ t. t.role) tagged)

  abbrev pub is_audit_only : EvidenceInput F → Bool
  is_audit_only evidence = not (is_direct evidence.kind) && F.lt evidence.correct (F.decimal 10 1)

  abbrev pub unchanged : (ℕ → Option (MasteryState F)) → EvidenceApplication F
  unchanged states = record { states = states; contributions = []; qualifying_review_concepts = [] }

  unfoldable pub apply_evidence :
      (states : ℕ → Option (MasteryState F))
      → EvidenceInput F
      → (previous_learning_at review_event_ids : ℕ → Option ℕ) → Result (EvidenceApplication F)
  apply_evidence states evidence previous_learning_at review_event_ids = do
    weight ← calculate_weight_snapshot evidence
    concepts ← decay_concepts states evidence.occurred_at evidence.concept_roles
    if is_audit_only evidence
        then ok (record (unchanged states) {
          contributions = map (audit_only evidence) evidence.concept_roles;
        })
        else do
          tagged ← tag concepts
          if F.le (total_role tagged) (F.decimal 0 1)
              then raise (value_error "Evidence must contain a positive concept-role denominator")
              else apply_all evidence previous_learning_at review_event_ids
                  (positive_mass evidence weight) (negative_mass evidence weight)
                  (uncertainty tagged) (total_role tagged) tagged (unchanged states)
