-- ===== src/Mastery/Consistent.antt =====
-- What every mastery state keeps under the evidence that packages/mastery/engine.py applies.
use autonomus_academic_assis.Base.{
  if_holds, put_holds, put, ℕ, suc, ◌-◌, ok_same, ◌≤◌, ◌≡◌, refl, ap, subst, Bool, false, not, ◌&&◌,
  Option, none, some, some_same, List, [], ◌∷◌, ◌++◌, map, length, contains, ltb, ◌==◌, arith,
  length-sort_by, Unique, Unique-sort_by, All, ok, OnOk, OnOk-ok, OnOk-raise, OnOk-then, OnOk-bind,
}
use autonomus_academic_assis.Mastery.State.{
  Arithmetic, is_direct, EvidenceInput, MasteryState, validate_state,
}
use autonomus_academic_assis.Mastery.Weights.{calculate_weight_snapshot}
use autonomus_academic_assis.Mastery.Decay.{
  Tagged, decayed, decay_from, decay_state, state_or_initial, tag, decay_concepts,
}
use autonomus_academic_assis.Mastery.Tagging.{
  AllDecayed, AllTagged, decay_concepts-AllDecayed, tag-AllTagged,
}
use autonomus_academic_assis.Mastery.Apply.{
  EvidenceApplication, advance, positive_mass, negative_mass, uncertainty, total_role,
  is_audit_only, unchanged, apply_one, apply_all, apply_evidence,
}

Unique-append : (xs : List ℕ) (a : ℕ) → contains a xs ≡ false → Unique xs → Unique (xs ++ a ∷ [])
Unique-append [] a n u = (refl, tt)
Unique-append (x ∷ xs) a n u =
    (apart x xs u.0 (ground (arith, n)), Unique-append xs a (ground (arith, n)) u.1)
  where
    apart :
        (x : ℕ) (xs : List ℕ)
        → contains x xs ≡ false
        → (a == x) ≡ false
        → contains x (xs ++ a ∷ []) ≡ false
    apart x [] p q = ground (arith, q)
    apart x (y ∷ ys) p q = let again = apart x ys in ground (arith, again, p, q)

length-append : (xs : List ℕ) (a : ℕ) → length (xs ++ a ∷ []) ≡ suc (length xs)
length-append [] a = refl
length-append (x ∷ xs) a = ap suc (length-append xs a)

module _ {F : Arithmetic} where
  -- The rung is on the ladder, the questions are distinct and at most as many as the direct answers, and
  -- the flag of a qualifying review agrees with the count of successful reviews.
  pub record IsConsistent (state : MasteryState F) : Type 0 where
    pub rung : state.review_rung ≤ 5
    pub distinct : Unique state.distinct_direct_question_ids
    pub counted : length state.distinct_direct_question_ids ≤ state.n_direct
    pub agrees : state.has_qualifying_review ≡ ltb 0 state.review_successes

  abbrev pub AreConsistent : (ℕ → Option (MasteryState F)) → Type 0
  AreConsistent states = (v : ℕ) (s : MasteryState F) → states v ≡ some s → IsConsistent s

  advance-IsConsistent :
      (evidence : EvidenceInput F) (success failure : Bool) (event_id : Option ℕ)
      (alpha_delta beta_delta : F.Float) (s : MasteryState F)
      → IsConsistent s
      → IsConsistent (advance evidence success failure event_id alpha_delta beta_delta s)
  advance-IsConsistent evidence success failure event_id alpha_delta beta_delta s h =
      let rung = h.rung in
      let agrees = h.agrees in
      let ids = s.distinct_direct_question_ids in
      let more = ids ++ evidence.question_id ∷ [] in
      record {
        rung = ground (arith, rung);
        distinct =
            if_holds Unique (is_direct evidence.kind && not (contains evidence.question_id ids))
              (λ q.
                Unique-sort_by ltb more
                  (Unique-append ids evidence.question_id (ground (arith, q)) h.distinct))
              (λ _. h.distinct);
        counted =
            let counted = h.counted in
            let sorted = length-sort_by ltb more in
            let longer = length-append ids evidence.question_id in
            ground (arith, counted, sorted, longer);
        agrees = ground (arith, agrees);
      }

  decay_from-IsConsistent :
      (s : MasteryState F) (at : ℕ) (last : Option ℕ)
      → IsConsistent s
      → OnOk IsConsistent (decay_from s at last)
  decay_from-IsConsistent s at none h = OnOk-ok s h
  decay_from-IsConsistent s at (some last) h =
      if_holds (OnOk IsConsistent) (ltb at last) (λ _. OnOk-raise _)
        λ _.
          if_holds (OnOk IsConsistent) (F.eq (F.days (at - last)) (F.decimal 0 1))
            (λ _. OnOk-ok s h)
            λ _. OnOk-ok (decayed s at (F.days (at - last))) (record {
              rung = h.rung;
              distinct = h.distinct;
              counted = h.counted;
              agrees = h.agrees;
            })

  state_or_initial-IsConsistent :
      (states : ℕ → Option (MasteryState F)) (v : ℕ)
      → AreConsistent states
      → IsConsistent (state_or_initial (states v))
  state_or_initial-IsConsistent states v h = go (states v) (h v)
    where
      go :
          (o : Option (MasteryState F))
          → ((s : MasteryState F) → o ≡ some s → IsConsistent s)
          → IsConsistent (state_or_initial o)
      go none p = record { rung = omega arith; distinct = tt; counted = omega arith; agrees = refl }
      go (some s) p = p s refl

  decay_state-IsConsistent :
      (states : ℕ → Option (MasteryState F)) (at v : ℕ)
      → AreConsistent states
      → OnOk IsConsistent (decay_state (state_or_initial (states v)) at)
  unfolding decay_state
  decay_state-IsConsistent states at v h =
      decay_from-IsConsistent (state_or_initial (states v)) at _
        (state_or_initial-IsConsistent states v h)

  validate_state-IsConsistent :
      (s : MasteryState F) → IsConsistent s → OnOk IsConsistent (validate_state s)
  unfolding validate_state
  validate_state-IsConsistent s h = record {
    at = λ a e. subst IsConsistent (ok_same (ground (arith, e))) h;
  }

  module _ (evidence : EvidenceInput F) (previous_learning_at review_event_ids : ℕ → Option ℕ)
      (positive_mass negative_mass denominator role_denominator : F.Float) where
    apply_one-IsConsistent :
        (t : Tagged F)
        → IsConsistent t.state
        → OnOk
            (λ r. IsConsistent r.0)
            (apply_one evidence previous_learning_at review_event_ids positive_mass negative_mass
              denominator role_denominator t)
    unfolding apply_one
    apply_one-IsConsistent t h =
        OnOk-bind IsConsistent (validate_state _) _
          (validate_state-IsConsistent _ (advance-IsConsistent evidence _ _ _ _ _ t.state h))
          λ state consistent. OnOk-ok _ consistent

    AreConsistent-put :
        (states : ℕ → Option (MasteryState F)) (v : ℕ) (s : MasteryState F)
        → AreConsistent states
        → IsConsistent s
        → AreConsistent (put states v (some s))
    AreConsistent-put states v s h k u =
        put_holds (λ u o. (r : MasteryState F) → o ≡ some r → IsConsistent r) states v (some s) u
          (λ r e. subst IsConsistent (some_same e) k) (h u)

    apply_all-AreConsistent :
        (tagged : List (Tagged F)) (app : EvidenceApplication F)
        → All (λ t. IsConsistent t.state) tagged
        → AreConsistent app.states
        → OnOk
            (λ app. AreConsistent app.states)
            (apply_all evidence previous_learning_at review_event_ids positive_mass negative_mass
              denominator role_denominator tagged app)
    unfolding apply_all
    apply_all-AreConsistent [] app all h = OnOk-ok app h
    apply_all-AreConsistent (t ∷ tagged) app all h =
        OnOk-bind (λ r. IsConsistent r.0)
          (apply_one evidence previous_learning_at review_event_ids positive_mass negative_mass
            denominator role_denominator t)
          _ (apply_one-IsConsistent t all.0)
          λ r consistent.
            apply_all-AreConsistent tagged _ all.1
              (AreConsistent-put app.states t.concept_id r.0 h consistent)

  -- If every state is consistent, every state is after the evidence: its rung is on the ladder, its
  -- questions are distinct and at most as many as its direct answers, and its flag of a qualifying
  -- review agrees with its count of successful reviews.
  pub apply_evidence-AreConsistent :
      (states : ℕ → Option (MasteryState F)) (evidence : EvidenceInput F)
      (previous_learning_at review_event_ids : ℕ → Option ℕ) (app : EvidenceApplication F)
      → AreConsistent states
      → apply_evidence states evidence previous_learning_at review_event_ids ≡ ok app
      → AreConsistent app.states
  unfolding apply_evidence
  apply_evidence-AreConsistent states evidence previous_learning_at review_event_ids app h e =
      let ids = map (λ s. s.stable_concept_id) evidence.concept_roles in
      (OnOk-then {P = λ app. AreConsistent app.states} (calculate_weight_snapshot evidence) _
          λ weight.
            OnOk-bind (AllDecayed (λ v. IsConsistent) ids)
              (decay_concepts states evidence.occurred_at evidence.concept_roles) _
              (decay_concepts-AllDecayed (λ v. IsConsistent) states evidence.occurred_at
                evidence.concept_roles
                λ v. decay_state-IsConsistent states evidence.occurred_at v h)
              λ concepts all.
                if_holds (OnOk (λ app. AreConsistent app.states)) (is_audit_only evidence)
                  (λ _. OnOk-ok _ h)
                  λ _.
                    OnOk-bind (AllTagged (λ v. IsConsistent) ids) (tag concepts) _
                      (tag-AllTagged (λ v. IsConsistent) ids concepts all)
                      λ tagged more.
                        if_holds (OnOk (λ app. AreConsistent app.states))
                          (F.le (total_role tagged) (F.decimal 0 1)) (λ _. OnOk-raise _)
                          λ _.
                            apply_all-AreConsistent evidence previous_learning_at review_event_ids
                              (positive_mass evidence weight) (negative_mass evidence weight)
                              (uncertainty tagged) (total_role tagged) tagged (unchanged states)
                              more.1 h).at
        app e
