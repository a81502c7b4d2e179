-- ===== src/Diagnostics/Items.antt =====
-- The last loop of `select_diagnostic_candidates`, packages/curriculum/diagnostics.py: what it spends, and on
-- what.
use autonomus_academic_assis.Base.{
  ℕ, zero, suc, ◌+◌, ◌-◌, ◌≤◌, ◌<◌, ◌≡◌, refl, ap, min, Bool, true, not, List, [], ◌∷◌, take,
  length, any, ◌==◌, arith, All, ok, raise_if, OnOk, OnOk-ok, OnOk-with, OnOk-bind, All-imp, ◌>>=◌,
  ◌>>◌,
}
use autonomus_academic_assis.Base.Floats.{Floats}
use autonomus_academic_assis.Planner.State.{DiagnosticCandidate}
use autonomus_academic_assis.Curriculum.References.{unrepeated}
use autonomus_academic_assis.Diagnostics.Select.{Ranked, select_items, score}

length-take : (n : ℕ) (xs : List ℕ) → length (take n xs) ≤ n
length-take zero xs = omega arith
length-take (suc n) [] = omega arith
length-take (suc n) (x ∷ xs) = omega (arith, length-take n xs)

take_some : (n : ℕ) (xs : List ℕ) → 1 ≤ n → 1 ≤ length xs → 1 ≤ length (take n xs)
take_some zero xs h k = absurd (omega arith)
take_some (suc n) [] h k = absurd (omega arith)
take_some (suc n) (x ∷ xs) h k = omega arith

module _ {F : Floats} where
  -- The items of all candidates.
  abbrev pub spent : List (DiagnosticCandidate F) → ℕ
  spent [] = 0
  spent (d ∷ ds) = length d.question_version_ids + spent ds

  -- One or two distinct questions.
  pub record IsSized (d : DiagnosticCandidate F) : Type 0 where
    pub some_question : 1 ≤ length d.question_version_ids
    pub at_most_two : length d.question_version_ids ≤ 2
    pub distinct : unrepeated d.question_version_ids ≡ true

  abbrev pub is_selected : List (DiagnosticCandidate F) → ℕ → Bool
  is_selected ds concept_id = any (λ d. concept_id == d.stable_concept_id) ds

  abbrev pub chosen : Ranked F → ℕ → List ℕ → DiagnosticCandidate F
  chosen c q questions = record {
    stable_concept_id = c.concept_id;
    score = score F c.descendant_count c.confidence;
    descendant_count = c.descendant_count;
    confidence = c.confidence;
    topological_rank = c.rank;
    question_version_ids = q ∷ questions;
  }

  -- The selection out of `candidates` with `remaining` items: within the budget, of allowed candidates, and
  -- nobody left out as long as items are left.
  pub record Selects (Allowed : DiagnosticCandidate F → Type 0) (remaining : ℕ)
      (candidates : List (Ranked F)) (ds : List (DiagnosticCandidate F)) : Type 0 where
    pub within : spent ds ≤ remaining
    pub each : All (λ d. IsSized d × Allowed d) ds
    pub full : spent ds < remaining → All (λ c. is_selected ds c.concept_id ≡ true) candidates

  -- A candidate with questions, whose first ones are allowed.
  pub record Offers (Allowed : DiagnosticCandidate F → Type 0) (c : Ranked F) : Type 0 where
    pub asks : 1 ≤ length c.questions
    pub allowed :
        (n q : ℕ) (questions : List ℕ)
        → take n c.questions ≡ q ∷ questions
        → Allowed (chosen c q questions)

  module _ (Allowed : DiagnosticCandidate F → Type 0) where
    Selects-cons :
        (n : ℕ) (c : Ranked F) (candidates : List (Ranked F)) (q : ℕ) (questions : List ℕ)
        (rest : List (DiagnosticCandidate F))
        → take (min 2 (suc n)) c.questions ≡ q ∷ questions
        → unrepeated (q ∷ questions) ≡ true
        → Offers Allowed c
        → Selects Allowed (suc n - length (q ∷ questions)) candidates rest
        → Selects Allowed (suc n) (c ∷ candidates) (chosen c q questions ∷ rest)
    Selects-cons n c candidates q questions rest e unique offers s =
        let short = length-take (min 2 (suc n)) c.questions in
        let size = ap length e in
        let within = s.within in
        record {
          within = omega (arith, short, size, within);
          each = (
            (
              record {
                some_question = omega arith;
                at_most_two = omega (arith, short, size);
                distinct = unique;
              },
              offers.allowed (min 2 (suc n)) q questions e,
            ),
            s.each,
          );
          full = λ less. (
            ground arith,
            All-imp candidates (λ x m. ground (arith, m))
                (s.full (omega (arith, less, short, size))),
          );
        }

    pub select_items-Selects :
        (remaining : ℕ) (candidates : List (Ranked F))
        → All (Offers Allowed) candidates
        → OnOk (Selects Allowed remaining candidates) (select_items remaining candidates)
    unfolding select_items
    select_items-Selects remaining [] h =
        OnOk-ok [] (record { within = omega arith; each = tt; full = λ less. tt })
    select_items-Selects zero (c ∷ candidates) h =
        OnOk-ok [] (record { within = omega arith; each = tt; full = λ less. absurd (omega arith) })
    select_items-Selects (suc n) (c ∷ candidates) h =
        go (take (min 2 (suc n)) c.questions) refl
          (λ remaining. select_items-Selects remaining candidates h.1)
      where
        go :
            (t : List ℕ)
            → take (min 2 (suc n)) c.questions ≡ t
            → ((remaining : ℕ)
                → OnOk (Selects Allowed remaining candidates) (select_items remaining candidates))
            → OnOk (Selects Allowed (suc n) (c ∷ candidates)) (elim t [
              | [] ↦ select_items (suc n) candidates
              | q ∷ questions ↦ do
                raise_if
                    (not (unrepeated (q ∷ questions)))
                    "Diagnostic question versions must be unique"
                rest ← select_items (suc n - length (q ∷ questions)) candidates
                ok (chosen c q questions ∷ rest)
            ])
        go [] e again =
            let asks = h.0.asks in
            let some_of = take_some (min 2 (suc n)) c.questions (omega arith) asks in
            absurd (omega (arith, some_of, ap length e))
        go (q ∷ questions) e again =
            OnOk-with
              (raise_if (not (unrepeated (q ∷ questions)))
                "Diagnostic question versions must be unique")
              _
              λ _ passed.
                OnOk-bind (Selects Allowed (suc n - length (q ∷ questions)) candidates)
                  (select_items (suc n - length (q ∷ questions)) candidates) _
                  (again (suc n - length (q ∷ questions)))
                  λ rest s.
                    OnOk-ok (chosen c q questions ∷ rest) (
                      Selects-cons n c candidates q questions rest e (ground (arith, passed)) h.0 s)
