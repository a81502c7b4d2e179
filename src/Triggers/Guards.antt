-- ===== src/Triggers/Guards.antt =====
-- The guards of packages/domain/triggers.py as a set: sorting loses none and adds none.
use autonomus_academic_assis.Base.{
  ℕ, ap, sym, ◌∙◌, ◌≡◌, ◌≢◌, refl, Bool, true, false, ◌||◌, List, [], ◌∷◌, ◌++◌, arith,
  if◌then◌else◌, ◌==◌, ltb,
}
use autonomus_academic_assis.Triggers.Facts.{GuardCode, same_guard, guard_place, has}
use autonomus_academic_assis.Triggers.Evaluate.{insert_guard, sorted_guards, rejects}

either :
    (b later other : Bool)
    → (if b then true else later || other) ≡ (if b then true else later) || other
either true later other = refl
either false later other = refl

pub has-++ :
    (code : GuardCode) (xs ys : List GuardCode) → has code (xs ++ ys) ≡ has code xs || has code ys
has-++ code [] ys = refl
has-++ code (x ∷ xs) ys =
    ap (λ later. if same_guard code x then true else later) (has-++ code xs ys)
    ∙ either (same_guard code x) (has code xs) (has code ys)

place_cong : (p q r : ℕ) → (p == q) ≡ true → (r == p) ≡ (r == q)
place_cong p q r h = ground arith

same_guard_cong :
    (a b code : GuardCode) → same_guard a b ≡ true → same_guard code a ≡ same_guard code b
unfolding same_guard
same_guard_cong a b code h = place_cong (guard_place a) (guard_place b) (guard_place code) h

swapped :
    (at_a at_b later rest : Bool)
    → rest ≡ at_a || later
    → (if at_b then true else rest) ≡ at_a || (if at_b then true else later)
swapped at_a at_b later rest h = ground arith

doubled :
    (at_a at_b later : Bool)
    → at_a ≡ at_b
    → (if at_b then true else later) ≡ at_a || (if at_b then true else later)
doubled at_a at_b later h = ground arith

as_or : (b later : Bool) → (if b then true else later) ≡ b || later
as_or true later = refl
as_or false later = refl

has-inserted :
    (code a b : GuardCode) (xs rest : List GuardCode) (same before : Bool)
    → (same ≡ true → same_guard code a ≡ same_guard code b)
    → has code rest ≡ same_guard code a || has code xs
    → has code (if same then b ∷ xs else if before then a ∷ b ∷ xs else b ∷ rest)
      ≡ same_guard code a || has code (b ∷ xs)
has-inserted code a b xs rest true before c h =
    doubled (same_guard code a) (same_guard code b) (has code xs) (c refl)
has-inserted code a b xs rest false true c h = as_or (same_guard code a) (has code (b ∷ xs))
has-inserted code a b xs rest false false c h =
    swapped (same_guard code a) (same_guard code b) (has code xs) (has code rest) h

has-insert_guard :
    (code a : GuardCode) (xs : List GuardCode)
    → has code (insert_guard a xs) ≡ same_guard code a || has code xs
unfolding insert_guard
has-insert_guard code a [] = as_or (same_guard code a) false
has-insert_guard code a (b ∷ xs) =
    has-inserted code a b xs (insert_guard a xs) (same_guard a b)
      (ltb (guard_place a) (guard_place b)) (same_guard_cong a b code) (has-insert_guard code a xs)

pub has-sorted_guards :
    (code : GuardCode) (xs : List GuardCode) → has code (sorted_guards xs) ≡ has code xs
unfolding sorted_guards
has-sorted_guards code [] = refl
has-sorted_guards code (a ∷ xs) =
    has-insert_guard code a (sorted_guards xs)
    ∙ ap (λ later. same_guard code a || later) (has-sorted_guards code xs)
    ∙ sym (as_or (same_guard code a) (has code xs))

insert_guard-≢-[] : (a : GuardCode) (xs : List GuardCode) → insert_guard a xs ≢ []
unfolding insert_guard
insert_guard-≢-[] a [] = λ h. absurd (cc h)
insert_guard-≢-[] a (b ∷ xs) = ground arith

pub sorted_guards-eq-[] : (xs : List GuardCode) → sorted_guards xs ≡ [] → xs ≡ []
unfolding sorted_guards
sorted_guards-eq-[] [] h = refl
sorted_guards-eq-[] (a ∷ xs) h = absurd (insert_guard-≢-[] a (sorted_guards xs) h)

pub rejects-sorted_guards : (xs : List GuardCode) → rejects (sorted_guards xs) ≡ rejects xs
rejects-sorted_guards xs = simp (has-sorted_guards)
