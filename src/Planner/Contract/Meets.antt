-- ===== src/Planner/Contract/Meets.antt =====
-- A contract of one stage: `P` of the decision that it makes, `Q` where it makes none, and no raise.
use autonomus_academic_assis.Base.{
  ◌≡◌, refl, Bool, true, false, Option, none, some, List, [], ◌∷◌, String, ok, raise, Exception,
  ◌≢◌, if◌then◌else◌, subst,
}
use autonomus_academic_assis.Base.Floats.{Floats}
use autonomus_academic_assis.Planner.Decision.{PlannerDecision}
use autonomus_academic_assis.Planner.Policy.Rule.{
  Stage, decided, undecided, unless_issue, if_present, required, if_any, otherwise,
}

pub record Meets {F : Floats} (P : PlannerDecision F → Type 0) (Q : Type 0) (m : Stage F)
    : Type 0 where
  pub decides : (d : PlannerDecision F) → m ≡ ok (some d) → P d
  pub leaves : m ≡ ok none → Q
  pub returns : (e : Exception) → m ≢ raise e

module _ {F : Floats} {P : PlannerDecision F → Type 0} {Q : Type 0} where
  pub Meets-decided : (d : PlannerDecision F) → P d → Meets P Q (decided d)
  Meets-decided d p = record {
    decides = λ d' e. subst P (same e) p;
    leaves = λ e. absurd (cc e);
    returns = λ x e. cc;
  }
    where
      same : {d' : PlannerDecision F} → decided d ≡ ok (some d') → d ≡ d'
      same e = cc

  pub Meets-undecided : Q → Meets P Q undecided
  Meets-undecided q = record {
    decides = λ d e. absurd (cc e);
    leaves = λ e. q;
    returns = λ x e. cc;
  }

  pub Meets-if :
      (b : Bool) (m n : Stage F)
      → (b ≡ true → Meets P Q m)
      → (b ≡ false → Meets P Q n)
      → Meets P Q (if b then m else n)
  Meets-if true m n hm hn = hm refl
  Meets-if false m n hm hn = hn refl

  pub Meets-unless :
      (issue : Option String) (block : String → PlannerDecision F) (rest : Stage F)
      → ((i : String) → P (block i))
      → (issue ≡ none → Meets P Q rest)
      → Meets P Q (unless_issue issue block rest)
  Meets-unless none block rest hb hr = hr refl
  Meets-unless (some i) block rest hb hr = Meets-decided (block i) (hb i)

  pub Meets-present {ℓ} :
      {A : Type ℓ} (o : Option A) (rule : A → Stage F)
      → (o ≡ none → Q)
      → ((a : A) → o ≡ some a → Meets P Q (rule a))
      → Meets P Q (if_present o rule)
  Meets-present none rule q h = Meets-undecided (q refl)
  Meets-present (some a) rule q h = h a refl

  pub Meets-required {ℓ} :
      {A : Type ℓ} (o : Option A) (block : PlannerDecision F) (rule : A → Stage F)
      → P block
      → ((a : A) → o ≡ some a → Meets P Q (rule a))
      → Meets P Q (required o block rule)
  Meets-required none block rule p h = Meets-decided block p
  Meets-required (some a) block rule p h = h a refl

  pub Meets-any {ℓ} :
      {A : Type ℓ} (items : List A) (other : Stage F) (rule : A → List A → Stage F)
      → Meets P Q other
      → ((a : A) (rest : List A) → items ≡ a ∷ rest → Meets P Q (rule a rest))
      → Meets P Q (if_any items other rule)
  Meets-any [] other rule ho h = ho
  Meets-any (a ∷ items) other rule ho h = h a items refl

module _ {F : Floats} {P : PlannerDecision F → Type 0} (R : Type 0) {Q : Type 0} where
  pub Meets-otherwise :
      (m n : Stage F) → Meets P R m → (R → Meets P Q n) → Meets P Q (otherwise m n)
  unfolding otherwise
  Meets-otherwise (ok none) n hm hn = hn (hm.leaves refl)
  Meets-otherwise (ok (some d)) n hm hn = Meets-decided d (hm.decides d refl)
  Meets-otherwise (raise e) n hm hn = absurd (hm.returns e refl)

module _ {F : Floats} {P : PlannerDecision F → Type 0} {Q R : Type 0} where
  pub Meets-imp : (m : Stage F) → Meets P R m → (R → Q) → Meets P Q m
  Meets-imp m h f = record {
    decides = h.decides;
    leaves = λ e. f (h.leaves e);
    returns = h.returns;
  }

module _ {F : Floats} {P R : PlannerDecision F → Type 0} {Q : Type 0} where
  pub Meets-const : (m : Stage F) → Meets R Q m → ((d : PlannerDecision F) → P d) → Meets P Q m
  Meets-const m h f = record { decides = λ d e. f d; leaves = h.leaves; returns = h.returns }
