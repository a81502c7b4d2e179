-- ===== src/Runtime/DueRows.antt =====
-- The row of a deferred trigger that packages/persistence/runtime.py may recover.
use autonomus_academic_assis.Base.{
  ℕ, ◌≡◌, ◌≢◌, ◌≤◌, ◌==◌, ◌&&◌, sym, subst, refl, Bool, true, false, Option, none, some, String,
  if◌then◌else◌, arith, ◌⊎◌, inl, inr, ok, raise, ok_same, runtime_validation,
}
use autonomus_academic_assis.Triggers.Facts.{
  TriggerStatus, evidence_only, rejected, blocked, deferred, admitted,
}
use autonomus_academic_assis.Runtime.Recovery.{
  TriggerRow, is_deferred, deferred_row, check_eligible,
}

is_deferred-eq : (s : TriggerStatus) → is_deferred s ≡ true → s ≡ deferred
is_deferred-eq deferred h = refl
is_deferred-eq evidence_only h = absurd (cc h)
is_deferred-eq rejected h = absurd (cc h)
is_deferred-eq blocked h = absurd (cc h)
is_deferred-eq admitted h = absurd (cc h)

-- The row that may be recovered at `as_of`: one of the learner that is deferred, and eligible by then.
abbrev pub IsDue : (o : Option TriggerRow) (learner_id as_of : ℕ) → Type 0
IsDue o learner_id as_of =
    (row : TriggerRow) × (o ≡ some row)
    × (row.learner_id ≡ learner_id)
    × (row.status ≡ deferred)
    × ((row.eligible_after ≡ none) ⊎ ((at : ℕ) × (row.eligible_after ≡ some at) × (at ≤ as_of)))

found_row :
    (row given : TriggerRow) (learner_id : ℕ)
    → deferred_row (some row) learner_id ≡ ok given
    → (row ≡ given) × (row.learner_id ≡ learner_id) × (row.status ≡ deferred)
unfolding deferred_row
found_row row given learner_id h =
    let test = passed ((row.learner_id == learner_id) && is_deferred row.status) _ h in
    (test.0, ground (arith, test.1), is_deferred-eq row.status (ground (arith, test.1)))
  where
    passed :
        (b : Bool) (message : String)
        → (if b then ok row else raise (runtime_validation message)) ≡ ok given
        → (row ≡ given) × (b ≡ true)
    passed true message h = (ok_same h, refl)
    passed false message h = absurd (cc h)

unfound : (learner_id : ℕ) (row : TriggerRow) → deferred_row none learner_id ≢ ok row
unfolding deferred_row
unfound learner_id row = λ h. absurd (cc h)

eligible :
    (until : Option ℕ) (as_of : ℕ)
    → check_eligible until as_of ≡ ok tt
    → (until ≡ none) ⊎ ((at : ℕ) × (until ≡ some at) × (at ≤ as_of))
unfolding check_eligible
eligible none as_of h = inl refl
eligible (some at) as_of h = inr (at, refl, ground (arith, h))

eligible_passes :
    (until : Option ℕ) (as_of : ℕ)
    → (until ≡ none) ⊎ ((at : ℕ) × (until ≡ some at) × (at ≤ as_of))
    → check_eligible until as_of ≡ ok tt
unfolding check_eligible
eligible_passes until as_of (inl e) = subst (λ u. check_eligible u as_of ≡ ok tt) (sym e) refl
eligible_passes until as_of (inr (at, e, h)) =
    subst (λ u. check_eligible u as_of ≡ ok tt) (sym e) (ground (arith, h))

pub deferred_row-IsDue :
    (o : Option TriggerRow) (learner_id as_of : ℕ) (row : TriggerRow)
    → deferred_row o learner_id ≡ ok row
    → check_eligible row.eligible_after as_of ≡ ok tt
    → IsDue o learner_id as_of
deferred_row-IsDue none learner_id as_of row h k = absurd (unfound learner_id row h)
deferred_row-IsDue (some r) learner_id as_of row h k =
    let (same, owned, waits) = found_row r row learner_id h in
    (
      r,
      refl,
      owned,
      waits,
      eligible r.eligible_after as_of
          (subst (λ x. check_eligible x.eligible_after as_of ≡ ok tt) (sym same) k),
    )

pub IsDue-deferred_row :
    (o : Option TriggerRow) (learner_id as_of : ℕ)
    → IsDue o learner_id as_of
    → (row : TriggerRow) × (deferred_row o learner_id ≡ ok row)
      × (check_eligible row.eligible_after as_of ≡ ok tt)
unfolding deferred_row
IsDue-deferred_row o learner_id as_of (row, found, owned, waits, until) = (
  row,
  subst (λ x. deferred_row x learner_id ≡ ok row) (sym found) (rw waits (ground (arith, owned))),
  eligible_passes row.eligible_after as_of until,
)
