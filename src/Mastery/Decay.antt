-- ===== src/Mastery/Decay.antt =====
-- The decay of a state and the concepts of an evidence item, packages/mastery/engine.py. A dictionary by the
-- concepts of the evidence, which are distinct, is the list of its entries.
use autonomus_academic_assis.Base.{
  ℕ, ◌-◌, false, Option, none, some, List, [], ◌∷◌, ltb, if◌then◌else◌, Result, ok, raise,
  value_error, ◌>>=◌,
}
use autonomus_academic_assis.Mastery.State.{
  Arithmetic, ConceptRole, primary, prerequisite, ConceptRoleSnapshot, MasteryState,
}

abbrev pub role_weight : (F : Arithmetic) → ConceptRole → F.Float
role_weight F primary = F.decimal 10 1
role_weight F prerequisite = F.decimal 5 1

abbrev pub forgetting_half_life : (F : Arithmetic) (review_successes : ℕ) → F.Float
forgetting_half_life F review_successes =
    F.min (F.decimal 1800 1)
      (F.mul (F.decimal 210 1) (F.pow (F.decimal 16 1) (F.of_int review_successes)))

module _ (F : Arithmetic) where
  open F use {Float}

  abbrev pub initial_state : MasteryState F
  initial_state = record {
    alpha = F.decimal 10 1;
    beta = F.decimal 10 1;
    n_direct = 0;
    distinct_direct_question_ids = [];
    review_successes = 0;
    review_rung = 0;
    has_qualifying_review = false;
    self_report_prior_applied = false;
    last_occurred_at = none;
    last_successful_review_at = none;
    last_successful_review_evidence_id = none;
    last_successful_review_event_id = none;
  }

  -- A concept of the evidence with its decayed state.
  pub record Decayed : Type 0 where
    pub concept_id : ℕ
    pub concept_role : ConceptRole
    pub state : MasteryState F

  -- The same with its mastery and role weight.
  pub record Tagged : Type 0 where
    pub concept_id : ℕ
    pub state : MasteryState F
    pub mastery : Float
    pub role : Float

module _ {F : Arithmetic} where
  open F use {Float}

  unfoldable pub mastery_value : MasteryState F → Result Float
  mastery_value state =
      if F.le (F.add state.alpha state.beta) (F.decimal 0 1)
      then raise (value_error "Beta posterior denominator must be positive")
      else ok (F.div state.alpha (F.add state.alpha state.beta))

  -- Towards the prior, by a factor for the days.
  abbrev pub decayed : MasteryState F → (at : ℕ) → (days : Float) → MasteryState F
  decayed state at days =
      let factor =
        F.pow (F.decimal 20 1)
          (F.div (F.neg days) (forgetting_half_life F state.review_successes)) in
      record state {
        alpha = F.add (F.decimal 10 1) (F.mul (F.sub state.alpha (F.decimal 10 1)) factor);
        beta = F.add (F.decimal 10 1) (F.mul (F.sub state.beta (F.decimal 10 1)) factor);
        last_occurred_at = some at;
      }

  -- By the days since the last evidence.
  abbrev pub decay_from : MasteryState F → (at : ℕ) → (last : Option ℕ) → Result (MasteryState F)
  decay_from state at none = ok state
  decay_from state at (some last) =
      if ltb at last
      then raise (value_error "Mastery state cannot be decayed backwards")
      else if F.eq (F.days (at - last)) (F.decimal 0 1)
      then ok state
      else ok (decayed state at (F.days (at - last)))

  unfoldable pub decay_state : MasteryState F → (at : ℕ) → Result (MasteryState F)
  decay_state state at = decay_from state at state.last_occurred_at

  -- `states.get(concept_id, initial_state())`
  abbrev pub state_or_initial : Option (MasteryState F) → MasteryState F
  state_or_initial none = initial_state F
  state_or_initial (some state) = state

  -- `decayed`
  unfoldable pub decay_concepts :
      (ℕ → Option (MasteryState F))
      → (at : ℕ) → List ConceptRoleSnapshot
      → Result (List (Decayed F))
  decay_concepts states at [] = ok []
  decay_concepts states at (snapshot ∷ snapshots) = do
    state ← decay_state (state_or_initial (states snapshot.stable_concept_id)) at
    rest ← decay_concepts states at snapshots
    ok (
        record {
          concept_id = snapshot.stable_concept_id;
          concept_role = snapshot.role;
          state = state;
        }
        ∷ rest)

  -- `mastery_by_concept` and `role_by_concept`
  unfoldable pub tag : List (Decayed F) → Result (List (Tagged F))
  tag [] = ok []
  tag (concept ∷ concepts) = do
    mastery ← mastery_value concept.state
    rest ← tag concepts
    ok (
        record {
          concept_id = concept.concept_id;
          state = concept.state;
          mastery = mastery;
          role = role_weight F concept.concept_role;
        }
        ∷ rest)
