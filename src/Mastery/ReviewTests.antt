-- ===== src/Mastery/ReviewTests.antt =====
-- The tests on the evidence in packages/mastery/engine.py, as conditions on its fields.
use autonomus_academic_assis.Base.{
  ℕ, ◌+◌, ◌≡◌, ◌≤◌, refl, Bool, true, false, not, ◌&&◌, Option, none, some, arith, ◌⊎◌, inl, inr,
}
use autonomus_academic_assis.Mastery.State.{EvidenceKind, direct, inferred, is_direct}
use autonomus_academic_assis.Mastery.Apply.{succeeds, fails}

pub successful :
    (kind : EvidenceKind) (review correct : Bool) (previous : Option ℕ) (occurred_at : ℕ)
    → is_direct kind && review && succeeds correct previous occurred_at ≡ true
    → (kind ≡ direct)
      × (review ≡ true)
      × (correct ≡ true)
      × ((at : ℕ) × (previous ≡ some at) × (at + 86_400_000_000 ≤ occurred_at))
successful inferred review correct previous occurred_at h = absurd (cc h)
successful direct false correct previous occurred_at h = absurd (cc h)
successful direct true false previous occurred_at h = absurd (cc h)
successful direct true true none occurred_at h = absurd (cc h)
successful direct true true (some at) occurred_at h =
    (refl, refl, refl, (at, refl, ground (arith, h)))

pub unsuccessful :
    (kind : EvidenceKind) (review correct : Bool) (previous : Option ℕ) (occurred_at : ℕ)
    → is_direct kind && review && succeeds correct previous occurred_at ≡ false
    → ¬ (
        (kind ≡ direct)
        × (review ≡ true)
        × (correct ≡ true)
        × ((at : ℕ) × (previous ≡ some at) × (at + 86_400_000_000 ≤ occurred_at)))
unsuccessful inferred review correct previous occurred_at h = λ s. absurd (cc (s.0))
unsuccessful direct false correct previous occurred_at h = λ s. absurd (cc (s.1))
unsuccessful direct true false previous occurred_at h = λ s. absurd (cc (s.2))
unsuccessful direct true true none occurred_at h = λ s. absurd (cc (s.3.1))
unsuccessful direct true true (some last) occurred_at h = λ s. ground (arith, h, s)

pub failed :
    (kind : EvidenceKind) (review correct partly : Bool) (previous : Option ℕ)
    → is_direct kind && review && fails correct partly previous ≡ true
    → (kind ≡ direct) × (review ≡ true) × (partly ≡ true) × ((correct ≡ false) ⊎ (previous ≡ none))
failed inferred review correct partly previous h = absurd (cc h)
failed direct false correct partly previous h = absurd (cc h)
failed direct true true partly (some at) h = absurd (cc h)
failed direct true true partly none h = (refl, refl, ground (arith, h), inr refl)
failed direct true false partly previous h = (refl, refl, ground (arith, h), inl refl)

pub unfailed :
    (kind : EvidenceKind) (review correct partly : Bool) (previous : Option ℕ)
    → is_direct kind && review && fails correct partly previous ≡ false
    → ¬ (
        (kind ≡ direct)
        × (review ≡ true)
        × (partly ≡ true)
        × ((correct ≡ false) ⊎ (previous ≡ none)))
unfailed inferred review correct partly previous h = λ s. absurd (cc (s.0))
unfailed direct false correct partly previous h = λ s. absurd (cc (s.1))
unfailed direct true true partly (some at) h = λ s. ground (arith, s)
unfailed direct true true partly none h = λ s. ground (arith, h, s)
unfailed direct true false partly previous h = λ s. ground (arith, h, s)

pub kind_cases : (kind : EvidenceKind) → (kind ≡ direct) ⊎ (kind ≡ inferred)
kind_cases direct = inl refl
kind_cases inferred = inr refl

pub audit_only_lem :
    (kind : EvidenceKind) (partly : Bool)
    → not (is_direct kind) && partly ≡ true
    → (kind ≡ inferred) × (partly ≡ true)
audit_only_lem direct partly h = absurd (cc h)
audit_only_lem inferred partly h = (refl, ground (arith, h))

pub not_audit_only :
    (kind : EvidenceKind) (partly : Bool)
    → not (is_direct kind) && partly ≡ false
    → ¬ ((kind ≡ inferred) × (partly ≡ true))
not_audit_only direct partly h = λ a. absurd (cc (a.0))
not_audit_only inferred partly h = λ a. absurd (ground (arith, h, a))
