-- ===== src/Mastery/ReviewSteps.antt =====
-- The step of one review in packages/mastery/engine.py, on the ladder of its concept.
use autonomus_academic_assis.Base.{
  if_holds, ℕ, ◌+◌, ◌-◌, ok_same, ◌≡◌, ◌≤◌, refl, min, Bool, true, false, Bool-cases, Option, none,
  some, ltb, if◌then◌else◌, arith, ◌⊎◌, inl, inr, OnOk, OnOk-ok, OnOk-raise,
}
use autonomus_academic_assis.Mastery.State.{
  Arithmetic, direct, is_direct, EvidenceInput, MasteryState, validate_state,
}
use autonomus_academic_assis.Mastery.Decay.{decayed, decay_from, decay_state, state_or_initial}
use autonomus_academic_assis.Mastery.Apply.{is_success, is_failure}
use autonomus_academic_assis.Mastery.ReviewTests.{successful, unsuccessful, failed, unfailed}

module _ {F : Arithmetic} where
  -- The same place on the ladder, the same counts and the same last review.
  pub record SameReviews (a b : MasteryState F) : Type 0 where
    pub same_rung : b.review_rung ≡ a.review_rung
    pub same_successes : b.review_successes ≡ a.review_successes
    pub same_reviewed_at : b.last_successful_review_at ≡ a.last_successful_review_at
    pub same_direct : b.n_direct ≡ a.n_direct

  -- The review fields as a step computes them.
  pub record IsReviewed (evidence : EvidenceInput F) (success failure : Bool)
      (old new : MasteryState F) : Type 0 where
    pub rung :
        new.review_rung
        ≡ (if success then min (old.review_rung + 1) 5 else if failure then 0 else old.review_rung)
    pub successes : new.review_successes ≡ old.review_successes + (if success then 1 else 0)
    pub reviewed_at :
        new.last_successful_review_at
        ≡ (if success then some evidence.occurred_at else old.last_successful_review_at)
    pub answers : new.n_direct ≡ old.n_direct + (if is_direct evidence.kind then 1 else 0)

  decay_from-SameReviews :
      (s : MasteryState F) (at : ℕ) (last : Option ℕ) → OnOk (SameReviews s) (decay_from s at last)
  decay_from-SameReviews s at none = OnOk-ok s (record {
    same_rung = refl;
    same_successes = refl;
    same_reviewed_at = refl;
    same_direct = refl;
  })
  decay_from-SameReviews s at (some last) =
      if_holds (OnOk (SameReviews s)) (ltb at last) (λ _. OnOk-raise _)
        λ _.
          if_holds (OnOk (SameReviews s)) (F.eq (F.days (at - last)) (F.decimal 0 1))
            (λ _. OnOk-ok s (record {
              same_rung = refl;
              same_successes = refl;
              same_reviewed_at = refl;
              same_direct = refl;
            }))
            λ _. OnOk-ok (decayed s at (F.days (at - last))) (record {
              same_rung = refl;
              same_successes = refl;
              same_reviewed_at = refl;
              same_direct = refl;
            })

  module _ (states : ℕ → Option (MasteryState F)) where
    abbrev pub From : ℕ → MasteryState F → Type 0
    From v = SameReviews (state_or_initial (states v))

    pub decay_state-From : (at v : ℕ) → OnOk (From v) (decay_state (state_or_initial (states v)) at)
    unfolding decay_state
    decay_state-From at v = decay_from-SameReviews (state_or_initial (states v)) at _

  pub validate_state-eq : (s : MasteryState F) → OnOk (λ a. s ≡ a) (validate_state s)
  unfolding validate_state
  validate_state-eq s = record { at = λ a e. ok_same (ground (arith, e)) }

  module _ (evidence : EvidenceInput F) (previous_learning_at : ℕ → Option ℕ) (v : ℕ) where
    -- A successful review: direct evidence of a review, fully correct, at least a day after the concept
    -- was last learned.
    abbrev pub IsSuccess : Type 0
    IsSuccess =
        (evidence.kind ≡ direct)
        × (evidence.is_review ≡ true)
        × (F.eq evidence.correct (F.decimal 10 1) ≡ true)
        × ((at : ℕ) × (previous_learning_at v ≡ some at)
            × (at + 86_400_000_000 ≤ evidence.occurred_at))

    -- A failed review: direct evidence of a review that scores below 1.0, and not also 1.0 with something
    -- learned before, which floats cannot.
    abbrev pub IsFailure : Type 0
    IsFailure =
        (evidence.kind ≡ direct)
        × (evidence.is_review ≡ true)
        × (F.lt evidence.correct (F.decimal 10 1) ≡ true)
        × ((F.eq evidence.correct (F.decimal 10 1) ≡ false) ⊎ (previous_learning_at v ≡ none))

    -- A success climbs one rung, up to the fifth, and counts; a failure falls to the first; otherwise
    -- nothing moves.
    abbrev pub ReviewStep : (old new : MasteryState F) → Type 0
    ReviewStep old new =
        (IsSuccess
          × (new.review_rung ≡ min (old.review_rung + 1) 5)
          × (new.review_successes ≡ old.review_successes + 1)
          × (new.last_successful_review_at ≡ some evidence.occurred_at))
        ⊎ (IsFailure
            × (new.review_rung ≡ 0)
            × (new.review_successes ≡ old.review_successes)
            × (new.last_successful_review_at ≡ old.last_successful_review_at))
        ⊎ ((¬ IsSuccess)
            × (¬ IsFailure)
            × (new.review_rung ≡ old.review_rung)
            × (new.review_successes ≡ old.review_successes)
            × (new.last_successful_review_at ≡ old.last_successful_review_at))

    -- A step that goes by the two tests of the code is a review step.
    pub IsReviewed-ReviewStep :
        (old new : MasteryState F)
        → IsReviewed evidence
            (is_success evidence previous_learning_at v)
            (is_failure evidence previous_learning_at v)
            old
            new
        → ReviewStep old new
    IsReviewed-ReviewStep old new r =
        let rung = r.rung in
        let successes = r.successes in
        let at = r.reviewed_at in
        elim (Bool-cases (is_success evidence previous_learning_at v)) [
          | inl e ↦ inl (
            successful _ _ _ _ _ e,
            ground (arith, e, rung),
            ground (arith, e, successes),
            ground (arith, e, at),
          )
          | inr n ↦ inr (elim (Bool-cases (is_failure evidence previous_learning_at v)) [
            | inl e ↦ inl (
              failed _ _ _ _ _ e,
              ground (arith, n, e, rung),
              ground (arith, n, successes),
              ground (arith, n, at),
            )
            | inr m ↦ inr (
              unsuccessful _ _ _ _ _ n,
              unfailed _ _ _ _ _ m,
              ground (arith, n, m, rung),
              ground (arith, n, successes),
              ground (arith, n, at),
            )
          ])
        ]
