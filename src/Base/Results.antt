-- ===== src/Base/Results.antt =====
-- A function that may raise: its value, or the exception. A message that the source formats with
-- values stands without them.
use Prim.Native.Nat.{ℕ}
use Prim.Native.String.{String}
use mathlib.Core.List.{List}
use mathlib.Core.Path.{◌≡◌, refl, subst}
use mathlib.Core.Bool.{Bool, true, false}
use autonomus_academic_assis.Base.Tests.{if◌then◌else◌}

pub data Exception : Type 0 where
  value_error : String → Exception
  integrity_error : String → Exception
  assertion_error : Exception
  index_error : Exception
  key_error : Exception
  graph_self_loop : (edge_id : ℕ) → Exception
  graph_cycle : (node_ids : List ℕ) → Exception
  runtime_conflict : String → Exception
  runtime_stale : String → Exception
  runtime_validation : String → Exception

-- What a call gives back.
pub data Result {ℓ} (A : Type ℓ) : Type ℓ where
  raise : Exception → Result A
  ok : A → Result A

-- `if failed: raise ValueError(message)`
abbrev pub raise_if : (failed : Bool) → (message : String) → Result (Unit {0})
raise_if false message = ok tt
raise_if true message = raise (value_error message)

-- `if failed: raise error`
abbrev pub fail_if : (failed : Bool) → (error : Exception) → Result (Unit {0})
fail_if false error = ok tt
fail_if true error = raise error

-- The next statement runs on the value; an exception skips it.
module _ {ℓ κ} {A : Type ℓ} {B : Type κ} where
  infixl 5 ◌>>=◌
  abbrev pub ◌>>=◌ : (first : Result A) → (next : A → Result B) → Result B
  raise e >>= next = raise e
  ok a >>= next = next a

module _ {ℓ} {B : Type ℓ} where
  infixl 5 ◌>>◌
  abbrev pub ◌>>◌ : (check : Result (Unit {0})) → (next : Result B) → Result B
  check >> next = check >>= λ _. next

pub ok_same {ℓ} : {A : Type ℓ} {a b : A} → ok a ≡ ok b → a ≡ b
ok_same e = cc e

-- Where the whole returns, its first call returned.
module _ {A B : Type 0} where
  pub bind_ok :
      (first : Result A) (next : A → Result B) {value : B}
      → (first >>= next) ≡ ok value
      → (given : A) × (first ≡ ok given) × (next given ≡ ok value)
  bind_ok (raise e) next whole = absurd (cc whole)
  bind_ok (ok given) next whole = (given, refl, whole)

pub then_ok :
    {A : Type 0} (check : Result (Unit {0})) (next : Result A) {value : A}
    → (check >> next) ≡ ok value
    → (check ≡ ok tt) × (next ≡ ok value)
then_ok check next whole = let (_, passed, rest) = bind_ok check (λ _. next) whole in (passed, rest)

-- `P` holds of the value, if one is returned.
pub record OnOk {ℓ κ} {A : Type ℓ} (P : A → Type κ) (m : Result A) : Type (ℓ ⊔ κ) where
  pub at : (a : A) → m ≡ ok a → P a

module _ {ℓ κ} {A : Type ℓ} {P : A → Type κ} where
  pub OnOk-ok : (a : A) → P a → OnOk P (ok a)
  OnOk-ok a p = record { at = λ b e. subst P (ok_same e) p }

  pub OnOk-raise : (e : Exception) → OnOk P (raise e)
  OnOk-raise e = record { at = λ a h. absurd (cc h) }

  pub OnOk-if :
      (b : Bool) (m n : Result A)
      → (b ≡ true → OnOk P m)
      → (b ≡ false → OnOk P n)
      → OnOk P (if b then m else n)
  OnOk-if true m n hm hn = hm refl
  OnOk-if false m n hm hn = hn refl

module _ {ℓ κ ν} {A : Type ℓ} {B : Type κ} {P : B → Type ν} where
  -- The rest may use how the value came about.
  pub OnOk-with :
      (m : Result A) (f : A → Result B) → ((a : A) → m ≡ ok a → OnOk P (f a)) → OnOk P (m >>= f)
  OnOk-with (ok a) f next = next a refl
  OnOk-with (raise e) f next = OnOk-raise e

  pub OnOk-then : (m : Result A) (f : A → Result B) → ((a : A) → OnOk P (f a)) → OnOk P (m >>= f)
  OnOk-then m f next = OnOk-with m f λ a _. next a

module _ {ℓ κ μ ν} {A : Type ℓ} {B : Type κ} (Q : A → Type μ) {P : B → Type ν} where
  pub OnOk-bind :
      (m : Result A) (f : A → Result B)
      → OnOk Q m
      → ((a : A) → Q a → OnOk P (f a))
      → OnOk P (m >>= f)
  OnOk-bind m f q next = OnOk-with m f λ a e. next a (q.at a e)

module _ {ℓ κ μ} {A : Type ℓ} {P : A → Type κ} {Q : A → Type μ} where
  pub OnOk-imp : {m : Result A} → OnOk Q m → ((a : A) → Q a → P a) → OnOk P m
  OnOk-imp q f = record { at = λ a e. f a (q.at a e) }
