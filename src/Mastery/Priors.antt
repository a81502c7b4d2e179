-- ===== src/Mastery/Priors.antt =====
-- `apply_self_report_priors` of packages/mastery/engine.py, on the priors of packages/domain/adaptation.py.
use autonomus_academic_assis.Base.{
  put_same, if_holds, put_holds, put, ℕ, ◌≡◌, refl, ap, sym, ◌∙◌, subst, Bool, true, false, Option,
  some, List, [], ◌∷◌, contains, ltb, if◌then◌else◌, sort_by, All, String, Result, ok, ok_same,
  raise, Exception, value_error,
}
use autonomus_academic_assis.Mastery.State.{Arithmetic, MasteryState}
use autonomus_academic_assis.Mastery.Decay.{state_or_initial}

pub record SelfReportPriorContribution (F : Arithmetic) : Type 0 where
  pub assertion_id : ℕ
  pub learner_id : ℕ
  pub course_id : ℕ
  pub stable_concept_id : ℕ
  pub graph_version_id : Option ℕ
  pub occurred_at : ℕ
  pub alpha_delta : F.Float
  pub beta_delta : F.Float
  pub policy_version : String

returned {ℓ} :
    {A : Type ℓ} (failed : Bool) (e : Exception) (rest : Result A) {a : A}
    → (if failed then raise e else rest) ≡ ok a
    → (failed ≡ false) × (rest ≡ ok a)
returned true e rest h = absurd (cc h)
returned false e rest h = (refl, h)

module _ {F : Arithmetic} where
  abbrev pub with_prior : SelfReportPriorContribution F → MasteryState F → MasteryState F
  with_prior prior state = record state {
    alpha = F.add state.alpha prior.alpha_delta;
    beta = F.add state.beta prior.beta_delta;
    self_report_prior_applied = true;
  }

  -- One round of the loop.
  abbrev pub apply_prior :
      SelfReportPriorContribution F → (ℕ → Option (MasteryState F)) → ℕ → Option (MasteryState F)
  apply_prior prior states =
      let state = state_or_initial (states prior.stable_concept_id) in
      if state.self_report_prior_applied
      then states
      else put states prior.stable_concept_id (some (with_prior prior state))

  unfoldable pub apply_priors :
      (seen_concepts : List ℕ)
      → List (SelfReportPriorContribution F)
      → (ℕ → Option (MasteryState F))
      → Result (ℕ → Option (MasteryState F))
  apply_priors seen_concepts [] states = ok states
  apply_priors seen_concepts (prior ∷ priors) states =
      let rest =
        apply_priors (prior.stable_concept_id ∷ seen_concepts) priors (apply_prior prior states) in
      if contains prior.stable_concept_id seen_concepts
      then raise (value_error "A learner/course/concept may have only one self-report prior")
      else rest

  abbrev pub asserted_before : SelfReportPriorContribution F → SelfReportPriorContribution F → Bool
  asserted_before a b = ltb a.assertion_id b.assertion_id

  unfoldable pub apply_self_report_priors :
      (ℕ → Option (MasteryState F))
      → List (SelfReportPriorContribution F)
      → Result (ℕ → Option (MasteryState F))
  apply_self_report_priors states priors = apply_priors [] (sort_by asserted_before priors) states

  -- The concept has its prior.
  abbrev IsApplied : (ℕ → Option (MasteryState F)) → ℕ → Type 0
  IsApplied states v = (state_or_initial (states v)).self_report_prior_applied ≡ true

  IsApplied-apply_prior :
      (prior : SelfReportPriorContribution F) (states : ℕ → Option (MasteryState F)) (v : ℕ)
      → IsApplied states v
      → IsApplied (apply_prior prior states) v
  IsApplied-apply_prior prior states v h =
      let state = state_or_initial (states prior.stable_concept_id) in
      if_holds (λ s. IsApplied s v) state.self_report_prior_applied (λ _. h)
        λ _.
          put_holds (λ v o. (state_or_initial o).self_report_prior_applied ≡ true) states
            prior.stable_concept_id (some (with_prior prior state)) v refl h

  apply_prior-IsApplied :
      (prior : SelfReportPriorContribution F) (states : ℕ → Option (MasteryState F))
      → IsApplied (apply_prior prior states) prior.stable_concept_id
  apply_prior-IsApplied prior states =
      let v = prior.stable_concept_id in
      let state = state_or_initial (states v) in
      if_holds (λ s. IsApplied s v) state.self_report_prior_applied (λ q. q)
        λ _.
          ap (λ o. (state_or_initial o).self_report_prior_applied)
            (put_same states v (some (with_prior prior state)))

  -- Where the loop returns, it keeps what is applied, and every prior is.
  apply_priors-IsApplied :
      (seen : List ℕ) (priors : List (SelfReportPriorContribution F))
      (states out : ℕ → Option (MasteryState F))
      → apply_priors seen priors states ≡ ok out
      → ((v : ℕ) → IsApplied states v → IsApplied out v)
        × All (λ p. IsApplied out p.stable_concept_id) priors
  unfolding apply_priors
  apply_priors-IsApplied seen [] states out h =
      (λ v k. subst (λ s. IsApplied s v) (ok_same h) k, tt)
  apply_priors-IsApplied seen (prior ∷ priors) states out h =
      let (kept, all) =
        apply_priors-IsApplied (prior.stable_concept_id ∷ seen) priors (apply_prior prior states)
          out (returned (contains prior.stable_concept_id seen) _ _ h).1 in
      (
        λ v k. kept v (IsApplied-apply_prior prior states v k),
        (kept prior.stable_concept_id (apply_prior-IsApplied prior states), all),
      )

  apply_priors-again :
      (seen : List ℕ) (priors : List (SelfReportPriorContribution F))
      (states out final : ℕ → Option (MasteryState F))
      → apply_priors seen priors states ≡ ok out
      → All (λ p. IsApplied final p.stable_concept_id) priors
      → apply_priors seen priors final ≡ ok final
  unfolding apply_priors
  apply_priors-again seen [] states out final h all = refl
  apply_priors-again seen (prior ∷ priors) states out final h all =
      let (new, rest) = returned (contains prior.stable_concept_id seen) _ _ h in
      let again =
        apply_priors-again (prior.stable_concept_id ∷ seen) priors (apply_prior prior states) out
          final rest all.1 in
      let same : apply_prior prior final ≡ final =
        if_holds (λ s. s ≡ final)
          (state_or_initial (final prior.stable_concept_id)).self_report_prior_applied (λ _. refl)
          λ n. absurd (cc (sym n ∙ all.0)) in
      if_holds (λ r. r ≡ ok final) (contains prior.stable_concept_id seen)
        (λ q. absurd (cc (sym q ∙ new)))
        λ _. ap (apply_priors (prior.stable_concept_id ∷ seen) priors) same ∙ again

  -- If the priors are applied, applying them once more changes nothing.
  pub apply_self_report_priors_once :
      (priors : List (SelfReportPriorContribution F)) (states out : ℕ → Option (MasteryState F))
      → apply_self_report_priors states priors ≡ ok out
      → apply_self_report_priors out priors ≡ ok out
  unfolding apply_self_report_priors
  apply_self_report_priors_once priors states out h =
      let sorted = sort_by asserted_before priors in
      apply_priors-again [] sorted states out out h
        (apply_priors-IsApplied [] sorted states out h).1
