-- ===== src/Base/Floats.antt =====
-- Python's `float` is a parameter: the operations that the program applies to it, and the laws of
-- IEEE 754 arithmetic on values that are no NaN, as named hypotheses.
use Prim.Native.Nat.{ℕ, ◌*◌, ◌-◌}
use mathlib.Core.Path.{◌≡◌}
use mathlib.Core.Bool.{Bool, true, not, ◌&&◌, ◌||◌}
use native.Mathlib.Omega.{arith}
use autonomus_academic_assis.Base.Tests.{leb, ltb, ◌==◌}

pub record Floats : Type 1 where
  pub Float : Type 0
  pub zero : Float
  pub one : Float
  -- `a <= b`, `a < b` and `a == b`
  pub le : Float → Float → Bool
  pub lt : Float → Float → Bool
  pub eq : Float → Float → Bool
  -- `a - b` and `a * 2`
  pub sub : Float → Float → Float
  pub double : Float → Float
  -- `n * a`, for an integer `n`
  pub times : ℕ → Float → Float
  -- `timedelta(seconds=a)`, in microseconds
  pub seconds : Float → ℕ

pub record FloatLaws (F : Floats) : Type 0 where
  pub le_refl : (a : F.Float) → F.le a a ≡ true
  pub le_trans : (a b c : F.Float) → F.le a b ≡ true → F.le b c ≡ true → F.le a c ≡ true
  pub lt_lem : (a b : F.Float) → F.lt a b ≡ not (F.le b a)
  pub eq_lem : (a b : F.Float) → F.eq a b ≡ F.le a b && F.le b a
  pub le_total : (a b : F.Float) → F.le a b || F.le b a ≡ true
  pub double_grows : (a : F.Float) → F.lt F.zero a ≡ true → F.le a (F.double a) ≡ true
  pub double_mono : (a b : F.Float) → F.le a b ≡ true → F.le (F.double a) (F.double b) ≡ true

-- Whole seconds satisfy the laws.
abbrev pub whole : Floats
whole = record {
  Float = ℕ;
  zero = 0;
  one = 1;
  le = leb;
  lt = ltb;
  eq = ◌==◌;
  sub = ◌-◌;
  double = λ a. a * 2;
  times = ◌*◌;
  seconds = λ a. a * 1_000_000;
}

pub whole-FloatLaws : FloatLaws whole
whole-FloatLaws = record {
  le_refl = λ a. ground arith;
  le_trans = λ a b c p q. ground arith;
  lt_lem = λ a b. ground arith;
  eq_lem = λ a b. ground arith;
  le_total = λ a b. ground arith;
  double_grows = λ a p. ground arith;
  double_mono = λ a b p. ground arith;
}
