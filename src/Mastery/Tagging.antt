-- ===== src/Mastery/Tagging.antt =====
-- The two loops of packages/mastery/engine.py that prepare the concepts of an evidence item.
use autonomus_academic_assis.Base.{
  ℕ, ◌≡◌, ap, ◌∙◌, Option, List, [], ◌∷◌, map, refl, All, OnOk, OnOk-ok, OnOk-then, OnOk-bind,
  OnOk-imp,
}
use autonomus_academic_assis.Mastery.State.{Arithmetic, ConceptRoleSnapshot, MasteryState}
use autonomus_academic_assis.Mastery.Decay.{
  Decayed, Tagged, mastery_value, decay_state, decay_concepts, state_or_initial, tag,
}

-- A property of the decayed states is one of all the concepts, which are those of the evidence.
module _ {F : Arithmetic} (P : ℕ → MasteryState F → Type 0) where
  abbrev pub AllDecayed : (ids : List ℕ) → List (Decayed F) → Type 0
  AllDecayed ids concepts =
      (map (λ d. d.concept_id) concepts ≡ ids) × All (λ d. P d.concept_id d.state) concepts

  abbrev pub AllTagged : (ids : List ℕ) → List (Tagged F) → Type 0
  AllTagged ids tagged =
      (map (λ t. t.concept_id) tagged ≡ ids) × All (λ t. P t.concept_id t.state) tagged

  pub decay_concepts-AllDecayed :
      (states : ℕ → Option (MasteryState F)) (at : ℕ) (snapshots : List ConceptRoleSnapshot)
      → ((v : ℕ) → OnOk (P v) (decay_state (state_or_initial (states v)) at))
      → OnOk
          (AllDecayed (map (λ s. s.stable_concept_id) snapshots))
          (decay_concepts states at snapshots)
  unfolding decay_concepts
  decay_concepts-AllDecayed states at [] h = OnOk-ok [] (refl, tt)
  decay_concepts-AllDecayed states at (snapshot ∷ snapshots) h =
      OnOk-bind (P snapshot.stable_concept_id)
        (decay_state (state_or_initial (states snapshot.stable_concept_id)) at) _
        (h snapshot.stable_concept_id)
        λ state p.
          OnOk-bind (AllDecayed (map (λ s. s.stable_concept_id) snapshots))
            (decay_concepts states at snapshots) _ (decay_concepts-AllDecayed states at snapshots h)
            λ rest all. OnOk-ok _ (ap (λ ids. snapshot.stable_concept_id ∷ ids) all.0, (p, all.1))

  tag_same :
      (concepts : List (Decayed F))
      → All (λ d. P d.concept_id d.state) concepts
      → OnOk (AllTagged (map (λ d. d.concept_id) concepts)) (tag concepts)
  unfolding tag
  tag_same [] all = OnOk-ok [] (refl, tt)
  tag_same (concept ∷ concepts) all = OnOk-then (mastery_value concept.state) _ λ mastery.
      OnOk-bind (AllTagged (map (λ d. d.concept_id) concepts)) (tag concepts) _
        (tag_same concepts all.1)
        λ rest more. OnOk-ok _ (ap (λ ids. concept.concept_id ∷ ids) more.0, (all.0, more.1))

  pub tag-AllTagged :
      (ids : List ℕ) (concepts : List (Decayed F))
      → AllDecayed ids concepts
      → OnOk (AllTagged ids) (tag concepts)
  tag-AllTagged ids concepts all =
      OnOk-imp (tag_same concepts all.1) λ tagged more. (more.0 ∙ all.0, more.1)
