-- ===== src/Base/Maps.antt =====
-- Dictionaries as functions of their keys.
use Prim.Native.Nat.{ℕ}
use mathlib.Core.Path.{◌≡◌, refl, subst, sym}
use mathlib.Core.Logic.{inl, inr}
use mathlib.Core.Bool.{Bool, true, false}
use native.Mathlib.Omega.{arith}
use autonomus_academic_assis.Base.Tests.{◌==◌, ==_iff, if◌then◌else◌, Bool-cases}

-- `f[k] = a`
abbrev pub put {ℓ} : {A : Type ℓ} → (ℕ → A) → ℕ → A → ℕ → A
put f k a x = if x == k then a else f x

-- A property of every entry is kept by an assignment that has it.
module _ {ℓ κ} {A : Type ℓ} (P : ℕ → A → Type κ) where
  pub put_holds : (f : ℕ → A) (k : ℕ) (a : A) (v : ℕ) → P k a → P v (f v) → P v (put f k a v)
  put_holds f k a v p q = elim (Bool-cases (v == k)) [
    | inl e ↦ subst (P v) (ground (arith, e)) (subst (λ x. P x a) (sym ((==_iff v k).0 e)) p)
    | inr n ↦ subst (P v) (ground (arith, n)) q
  ]

pub put_same {ℓ} : {A : Type ℓ} (f : ℕ → A) (k : ℕ) (a : A) → put f k a k ≡ a
put_same f k a = ground arith

pub if_holds {ℓ κ} :
    {A : Type ℓ} (P : A → Type κ) (c : Bool) {x y : A}
    → (c ≡ true → P x)
    → (c ≡ false → P y)
    → P (if c then x else y)
if_holds P true p q = p refl
if_holds P false p q = q refl
