-- ===== src/Mastery/State.antt =====
-- The contracts of packages/domain/mastery.py, with the arithmetic on floats that the engine uses.
use autonomus_academic_assis.Base.{
  ℕ, Bool, true, false, not, Option, List, String, Result, ok, raise_if, ◌>>◌,
}
use autonomus_academic_assis.Curriculum.References.{unrepeated}

-- Python's `float` with the operations of the engine. `decimal n k` is the literal `n / 10 ** k`.
pub record Arithmetic : Type 1 where
  pub Float : Type 0
  pub decimal : (digits : ℕ) → (places : ℕ) → Float
  -- `float(n)`
  pub of_int : ℕ → Float
  pub add : Float → Float → Float
  pub sub : Float → Float → Float
  pub mul : Float → Float → Float
  pub div : Float → Float → Float
  pub neg : Float → Float
  -- `math.pow(a, b)`
  pub pow : Float → Float → Float
  pub lt : Float → Float → Bool
  pub le : Float → Float → Bool
  pub eq : Float → Float → Bool
  pub min : Float → Float → Float
  pub max : Float → Float → Float
  -- `timedelta.total_seconds() / 86400.0`, from microseconds
  pub days : ℕ → Float

pub data EvidenceKind : Type 0 where
  direct inferred : EvidenceKind

abbrev pub is_direct : EvidenceKind → Bool
is_direct direct = true
is_direct inferred = false

pub data GraderLevel : Type 0 where
  l0_rule l1_tests l2_llm_rubric l3_escalated : GraderLevel

pub data QuestionType : Type 0 where
  mcq true_false numeric short_text code : QuestionType

pub data ConceptRole : Type 0 where
  primary prerequisite : ConceptRole

pub record ConceptRoleSnapshot : Type 0 where
  pub stable_concept_id : ℕ
  pub role : ConceptRole

module _ (F : Arithmetic) where
  open F use {Float}

  -- Without `diagnostic_provenance`, which the engine does not read.
  pub record EvidenceInput : Type 0 where
    pub evidence_id : ℕ
    pub learner_id : ℕ
    pub actor_id : Option ℕ
    pub course_id : ℕ
    pub question_id : ℕ
    pub question_version_id : ℕ
    pub attempt_id : ℕ
    pub correct : Float
    pub difficulty : ℕ
    pub question_type : QuestionType
    pub n_options : Option ℕ
    pub hints_used : ℕ
    pub grader_level : GraderLevel
    pub grader_confidence : Float
    pub kind : EvidenceKind
    pub occurred_at : ℕ
    pub graph_version_id : ℕ
    pub concept_roles : List ConceptRoleSnapshot
    pub tag_confidence : Float
    pub is_review : Bool
    pub idempotency_key : String

  pub record WeightSnapshot : Type 0 where
    pub correct_difficulty_weight : Float
    pub incorrect_difficulty_weight : Float
    pub type_weight : Float
    pub correct_hint_factor : Float
    pub tag_confidence : Float
    pub w_correct : Float
    pub w_incorrect : Float

  pub record MasteryState : Type 0 where
    pub alpha : Float
    pub beta : Float
    pub n_direct : ℕ
    pub distinct_direct_question_ids : List ℕ
    pub review_successes : ℕ
    pub review_rung : ℕ
    pub has_qualifying_review : Bool
    pub self_report_prior_applied : Bool
    pub last_occurred_at : Option ℕ
    pub last_successful_review_at : Option ℕ
    pub last_successful_review_evidence_id : Option ℕ
    pub last_successful_review_event_id : Option ℕ

  pub record EvidenceContribution : Type 0 where
    pub evidence_id : ℕ
    pub stable_concept_id : ℕ
    pub alpha_delta : Float
    pub beta_delta : Float
    pub applied : Bool
    pub reason : Option String

module _ {F : Arithmetic} where
  -- `MasteryState.normalize_timestamp`, which a constructor runs
  unfoldable pub validate_state : MasteryState F → Result (MasteryState F)
  validate_state state = do
    raise_if (F.le (F.add state.alpha state.beta) (F.decimal 0 1))
        "Beta posterior must have a positive denominator"
    raise_if (not (unrepeated state.distinct_direct_question_ids))
        "Distinct direct question IDs must be unique"
    ok state
