-- ===== src/Triggers/Facts.antt =====
-- The facts and results of packages/domain/triggers.py, `RuntimePolicy` of
-- packages/domain/runtime_policy.py and the identities of packages/domain/runtime.py. A UUID is a
-- number.
use autonomus_academic_assis.Base.{
  ℕ, Bool, true, false, Option, List, [], ◌∷◌, String, ◌==◌, if◌then◌else◌,
}
use autonomus_academic_assis.Base.Floats.{Floats}

pub data SourceKind : Type 0 where
  outcome event directive session : SourceKind

pub record SourceIdentity : Type 0 where
  pub kind : SourceKind
  pub source_id : ℕ

pub data TriggerKind : Type 0 where
  single_wrong_answer repeated_failure batch_completed strong_performance curriculum_edited
        nightly_decay explicit_directive deadline_changed :
      TriggerKind

-- A place in the declaration, by which two kinds compare.
abbrev pub kind_place : TriggerKind → ℕ
kind_place single_wrong_answer = 0
kind_place repeated_failure = 1
kind_place batch_completed = 2
kind_place strong_performance = 3
kind_place curriculum_edited = 4
kind_place nightly_decay = 5
kind_place explicit_directive = 6
kind_place deadline_changed = 7

abbrev pub same_kind : TriggerKind → TriggerKind → Bool
same_kind a b = kind_place a == kind_place b

pub record TriggerIdentity : Type 0 where
  pub learner_id : ℕ
  pub source : SourceIdentity
  pub trigger_kind : TriggerKind
  pub window_id : Option ℕ

pub data GuardCode : Type 0 where
  stale_session stale_graph missing_projection missing_revision stale_evidence_set
        missing_graph_context unavailable_required_state active_remediation invalid_directive
        expired_directive duplicate_trigger cooldown terminal_session non_material :
      GuardCode

-- The place of a code in the order of its value, by which `sorted` compares.
unfoldable pub guard_place : GuardCode → ℕ
guard_place stale_session = 11
guard_place stale_graph = 10
guard_place missing_projection = 6
guard_place missing_revision = 7
guard_place stale_evidence_set = 9
guard_place missing_graph_context = 5
guard_place unavailable_required_state = 13
guard_place active_remediation = 0
guard_place invalid_directive = 4
guard_place expired_directive = 3
guard_place duplicate_trigger = 2
guard_place cooldown = 1
guard_place terminal_session = 12
guard_place non_material = 8

unfoldable pub same_guard : GuardCode → GuardCode → Bool
same_guard a b = guard_place a == guard_place b

-- `code in codes`
abbrev pub has : GuardCode → List GuardCode → Bool
has code [] = false
has code (c ∷ codes) = let later = has code codes in if same_guard code c then true else later

pub data TriggerStatus : Type 0 where
  evidence_only rejected blocked deferred admitted : TriggerStatus

-- A `datetime`: microseconds, and whether it has a UTC offset.
pub record Instant : Type 0 where
  pub micros : ℕ
  pub aware : Bool

pub record TriggerSubmission : Type 0 where
  pub learner_id : ℕ
  pub session_id : ℕ
  pub source : SourceIdentity
  pub source_event_id : ℕ
  pub kind : TriggerKind
  pub expected_session_version : ℕ
  pub window_id : Option ℕ
  pub evidence_id : Option ℕ
  pub batch_id : Option ℕ
  pub directive_id : Option ℕ

abbrev pub identity : TriggerSubmission → TriggerIdentity
identity request = record {
  learner_id = request.learner_id;
  source = request.source;
  trigger_kind = request.kind;
  window_id = request.window_id;
}

module _ (F : Floats) where
  open F use {Float}

  pub record RuntimePolicy : Type 0 where
    pub policy_version : String
    pub cooldown_seconds : ℕ
    pub repeated_failure_items : ℕ
    pub failure_min_weight : Float
    pub weak_entry_confidence : Float
    pub strong_quiz_score : Float
    pub strong_quiz_items : ℕ
    pub gate_min_mastery : Float
    pub gate_min_direct : ℕ
    pub gate_min_quiz : Float

  pub record GradeObservation : Type 0 where
    pub evidence_id : ℕ
    pub attempt_id : ℕ
    pub event_id : ℕ
    pub window_id : ℕ
    pub concept_id : ℕ
    pub correct : Float
    pub weight : Float
    pub direct : Bool
    pub qualified_impact : Bool
    pub entered_weak : Bool
    pub confidence : Float

  pub record TriggerFacts : Type 0 where
    pub submission : TriggerSubmission
    pub session_version : ℕ
    pub guards : List GuardCode
    pub duplicate : Bool
    pub active_remediation : Bool
    pub observations : List GradeObservation
    pub batch_completed : Bool
    pub batch_is_quiz : Bool
    pub batch_score : Option Float
    pub batch_item_count : ℕ
    pub gate_satisfied : Option Bool
    pub review_available : Bool
    pub directive_valid : Bool
    pub directive_expired : Bool
    pub last_plan_trigger_at : Option ℕ

pub record TriggerEvaluation : Type 0 where
  pub trigger_id : ℕ
  pub kind : TriggerKind
  pub status : TriggerStatus
  pub material : Bool
  pub guards : List GuardCode
  pub evaluated_at : ℕ
  pub eligible_after : Option ℕ
  pub allow_advance : Bool
  pub invalidate_segment : Bool
  pub rebuild_graph_diff : Bool
  pub recompute_pacing : Bool
