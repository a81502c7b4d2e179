-- ===== src/Base/Sorting.antt =====
-- Python's `sorted` by a strict order on keys, which is stable, and what sorting keeps: counts, membership
-- and uniqueness.
use Prim.Native.Nat.{ℕ, suc}
use mathlib.Core.Path.{◌≡◌, refl, ap, ◌∙◌}
use mathlib.Core.Bool.{Bool, true, false, ◌&&◌, ◌||◌}
use mathlib.Core.Logic.{◌↔◌}
use mathlib.Core.List.{List, [], ◌∷◌}
use native.Mathlib.Omega.{arith}
use autonomus_academic_assis.Base.Tests.{ltb, ◌==◌, ==_iff, if◌then◌else◌}
use autonomus_academic_assis.Base.Lists.{length, keep, contains, All}

module _ {ℓ} {A : Type ℓ} where
  -- Puts `a` before the first element that is not smaller.
  unfoldable pub insert_by : (A → A → Bool) → A → List A → List A
  insert_by less a [] = a ∷ []
  insert_by less a (b ∷ xs) =
      let rest = insert_by less a xs in if less b a then b ∷ rest else a ∷ b ∷ xs

  unfoldable pub sort_by : (A → A → Bool) → List A → List A
  unfolding insert_by
  sort_by less [] = []
  sort_by less (a ∷ xs) = insert_by less a (sort_by less xs)

  -- How many elements pass the test.
  abbrev pub count_if : (A → Bool) → List A → ℕ
  count_if p [] = 0
  count_if p (x ∷ xs) = let rest = count_if p xs in if p x then suc rest else rest

  count_if-insert_by :
      (p : A → Bool) (less : A → A → Bool) (a : A) (xs : List A)
      → count_if p (insert_by less a xs) ≡ count_if p (a ∷ xs)
  unfolding insert_by
  count_if-insert_by p less a [] = refl
  count_if-insert_by p less a (b ∷ xs) =
      let again = count_if-insert_by p less a xs in ground (arith, again)

  pub count_if-sort_by :
      (p : A → Bool) (less : A → A → Bool) (xs : List A)
      → count_if p (sort_by less xs) ≡ count_if p xs
  unfolding sort_by
  count_if-sort_by p less [] = refl
  count_if-sort_by p less (a ∷ xs) =
      let again = count_if-sort_by p less xs in
      let put = count_if-insert_by p less a (sort_by less xs) in ground (arith, again, put)

  length-insert_by :
      (less : A → A → Bool) (a : A) (xs : List A) → length (insert_by less a xs) ≡ suc (length xs)
  unfolding insert_by
  length-insert_by less a [] = refl
  length-insert_by less a (b ∷ xs) = let again = length-insert_by less a xs in ground (arith, again)

  pub length-sort_by : (less : A → A → Bool) (xs : List A) → length (sort_by less xs) ≡ length xs
  unfolding sort_by
  length-sort_by less [] = refl
  length-sort_by less (a ∷ xs) =
      length-insert_by less a (sort_by less xs) ∙ ap suc (length-sort_by less xs)

module _ {ℓ κ} {A : Type ℓ} (P : A → Type κ) where
  All-insert_by :
      (less : A → A → Bool) (a : A) (xs : List A) → All P (insert_by less a xs) ↔ (P a × All P xs)
  unfolding insert_by
  All-insert_by less a [] = (λ h. h, λ h. h)
  All-insert_by less a (b ∷ xs) = split (less b a) (insert_by less a xs) (All-insert_by less a xs)
    where
      split :
          (t : Bool) (rest : List A)
          → All P rest ↔ (P a × All P xs)
          → All P (if t then b ∷ rest else a ∷ b ∷ xs) ↔ (P a × (P b × All P xs))
      split true rest again =
          (λ (p, q). ((again.0 q).0, (p, (again.0 q).1)), λ (p, (q, r)). (q, again.1 (p, r)))
      split false rest again = (λ h. h, λ h. h)

  pub All-sort_by : (less : A → A → Bool) (xs : List A) → All P (sort_by less xs) ↔ All P xs
  unfolding sort_by
  All-sort_by less [] = (λ h. h, λ h. h)
  All-sort_by less (a ∷ xs) =
      let put = All-insert_by less a (sort_by less xs) in
      let again = All-sort_by less xs in
      (λ h. ((put.0 h).0, again.0 (put.0 h).1), λ (p, q). put.1 (p, again.1 q))

  pub All-keep : (p : A → Bool) (xs : List A) → All P xs → All P (keep p xs)
  All-keep p [] h = tt
  All-keep p (x ∷ xs) h = let again = All-keep p xs h.1 in pick (p x) (keep p xs) again
    where
      pick : (t : Bool) (rest : List A) → All P rest → All P (if t then x ∷ rest else rest)
      pick true rest again = (h.0, again)
      pick false rest again = again

-- Identifiers in ascending order.
abbrev pub sort_ids : List ℕ → List ℕ
sort_ids = sort_by ltb

pub contains-insert_by :
    (less : ℕ → ℕ → Bool) (v a : ℕ) (xs : List ℕ)
    → contains v (insert_by less a xs) ≡ (v == a) || contains v xs
unfolding insert_by
contains-insert_by less v a [] = refl
contains-insert_by less v a (b ∷ xs) =
    let again = contains-insert_by less v a xs in ground (arith, again)

pub contains-sort_by :
    (less : ℕ → ℕ → Bool) (v : ℕ) (xs : List ℕ) → contains v (sort_by less xs) ≡ contains v xs
unfolding sort_by
contains-sort_by less v [] = refl
contains-sort_by less v (a ∷ xs) =
    contains-insert_by less v a (sort_by less xs)
    ∙ ap (λ b. (v == a) || b) (contains-sort_by less v xs)

-- No element occurs twice.
abbrev pub Unique : List ℕ → Type 0
Unique [] = Unit
Unique (x ∷ xs) = (contains x xs ≡ false) × Unique xs

pub Unique-insert_by :
    (less : ℕ → ℕ → Bool) (a : ℕ) (xs : List ℕ)
    → contains a xs ≡ false
    → Unique xs
    → Unique (insert_by less a xs)
unfolding insert_by
Unique-insert_by less a [] h u = (refl, tt)
Unique-insert_by less a (b ∷ xs) h u =
    let again = Unique-insert_by less a xs in
    let put = contains-insert_by less b a xs in ground (arith, put, again)

pub Unique-sort_by : (less : ℕ → ℕ → Bool) (xs : List ℕ) → Unique xs → Unique (sort_by less xs)
unfolding sort_by
Unique-sort_by less [] u = tt
Unique-sort_by less (a ∷ xs) u =
    Unique-insert_by less a (sort_by less xs) (contains-sort_by less a xs ∙ u.0)
      (Unique-sort_by less xs u.1)

test_cong : (p : ℕ → Bool) (v x : ℕ) → (v == x) ≡ true → p v ≡ p x
test_cong p v x h = ap p ((==_iff v x).0 h)

pub contains-keep :
    (p : ℕ → Bool) (v : ℕ) (xs : List ℕ) → contains v (keep p xs) ≡ p v && contains v xs
contains-keep p v [] = ground arith
contains-keep p v (x ∷ xs) =
    let again = contains-keep p v xs in let same = test_cong p v x in ground (arith, again, same)

pub Unique-keep : (p : ℕ → Bool) (xs : List ℕ) → Unique xs → Unique (keep p xs)
Unique-keep p [] u = tt
Unique-keep p (x ∷ xs) u =
    let again = Unique-keep p xs u.1 in
    let kept = contains-keep p x xs in ground (arith, again, kept)
