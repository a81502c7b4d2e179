-- ===== src/Examples/Trigger.antt =====
-- The theorems on triggers at an edited curriculum, with and without a recent plan trigger.
use autonomus_academic_assis.Base.{
  put, false, if◌then◌else◌, ◌==◌, ℕ, ◌≡◌, ◌↔◌, refl, true, false, Option, none, some, [], ◌∷◌, ok,
}
use autonomus_academic_assis.Base.Floats.{whole}
use autonomus_academic_assis.Triggers.Facts.{
  session, curriculum_edited, cooldown, TriggerStatus, rejected, deferred, admitted, Instant,
  TriggerIdentity, TriggerFacts, RuntimePolicy, TriggerEvaluation,
}
use autonomus_academic_assis.Session.{LearningSessionSnapshot, teaching}
use autonomus_academic_assis.Runtime.Tables.{Tables}
use autonomus_academic_assis.Runtime.Recovery.{TriggerRow}
use autonomus_academic_assis.Triggers.Evaluate.{evaluate_trigger}
use autonomus_academic_assis.Triggers.Admission.{Admits, evaluate_trigger-Admits}
use autonomus_academic_assis.Triggers.Rejection.{is_rejected, evaluate_trigger-rejects}

abbrev policy : RuntimePolicy whole
policy = record {
  policy_version = "runtime_v1";
  cooldown_seconds = 60;
  repeated_failure_items = 2;
  failure_min_weight = 5;
  weak_entry_confidence = 3;
  strong_quiz_score = 9;
  strong_quiz_items = 3;
  gate_min_mastery = 7;
  gate_min_direct = 3;
  gate_min_quiz = 6;
}

abbrev edited : Option ℕ → TriggerFacts whole
edited last = record {
  submission = record {
    learner_id = 1;
    session_id = 2;
    source = record { kind = session; source_id = 2 };
    source_event_id = 3;
    kind = curriculum_edited;
    expected_session_version = 4;
    window_id = none;
    evidence_id = none;
    batch_id = none;
    directive_id = none;
  };
  session_version = 4;
  guards = [];
  duplicate = false;
  active_remediation = false;
  observations = [];
  batch_completed = false;
  batch_is_quiz = false;
  batch_score = none;
  batch_item_count = 0;
  gate_satisfied = none;
  review_available = false;
  directive_valid = false;
  directive_expired = false;
  last_plan_trigger_at = last;
}

abbrev noon : Instant
noon = record { micros = 100_000_000; aware = true }

abbrev trigger_id : TriggerIdentity → ℕ
trigger_id identity = identity.learner_id

abbrev evaluated : TriggerStatus → Option ℕ → TriggerEvaluation
evaluated status until = record {
  trigger_id = 1;
  kind = curriculum_edited;
  status = status;
  material = true;
  guards = elim until [ none ↦ [] | some d ↦ cooldown ∷ [] ];
  evaluated_at = 100_000_000;
  eligible_after = until;
  allow_advance = false;
  invalidate_segment = false;
  rebuild_graph_diff = true;
  recompute_pacing = false;
}

admits_edit : evaluate_trigger trigger_id (edited none) noon policy ≡ ok (evaluated admitted none)
unfolding evaluate_trigger
admits_edit = refl

defers_edit :
    evaluate_trigger trigger_id (edited (some 50_000_000)) noon policy
    ≡ ok (evaluated deferred (some 110_000_000))
unfolding evaluate_trigger
defers_edit = refl

evaluate_trigger-Admits_example : Admits policy (edited none) 100_000_000
evaluate_trigger-Admits_example =
    evaluate_trigger-Admits trigger_id (edited none) noon policy (evaluated admitted none)
      admits_edit refl

evaluate_trigger-rejects_example :
    ((evaluated admitted none).status ≡ rejected) ↔ (is_rejected (edited none) ≡ true)
evaluate_trigger-rejects_example =
    evaluate_trigger-rejects trigger_id (edited none) noon policy (evaluated admitted none)
      admits_edit

abbrev owner : LearningSessionSnapshot
owner = record {
  session_id = 2;
  learner_id = 1;
  course_id = 3;
  state = teaching;
  version = 4;
  graph_version_id = none;
  current_topic_id = none;
  current_plan_version_id = none;
  active_frame_id = none;
  last_event_id = 9;
  created_at = 0;
  updated_at = 0;
  completed_at = none;
}

abbrev tables : Tables whole
tables = record {
  learners = λ id. id == 1;
  events = λ _. none;
  graphs = λ _. none;
  topics = λ _ _. false;
  attempts = λ _. none;
  affects = λ _ _ _. false;
  plan_versions = λ _. none;
  receipts = λ _. none;
  sessions = λ id. if id == 2 then some owner else none;
  transitions = [];
  frames = λ _. none;
  frame_attempts = [];
  runs = λ _. none;
  reservations = [];
  operations = [];
}

abbrev waiting_row : TriggerRow
waiting_row = record {
  learner_id = 1;
  status = deferred;
  eligible_after = some 110_000_000;
  admitted_at = none;
}

abbrev waiting : ℕ → Option TriggerRow
waiting id = if id == 1 then some waiting_row else none

abbrev recovery : TriggerEvaluation × (ℕ → Option TriggerRow)
recovery = (
  record (evaluated admitted none) { evaluated_at = 120_000_000 },
  put waiting 1 (some (record waiting_row { status = admitted; admitted_at = some 120_000_000 })),
)

-- Another trigger, which is recorded in between.
abbrev later_rows : ℕ → Option TriggerRow
later_rows = put recovery.1 5 (some waiting_row)
