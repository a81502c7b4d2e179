-- ===== src/Runtime/Journal.antt =====
-- The journal of packages/persistence/runtime.py, and the checks that its operations share. An operation
-- is a function from the tables to its result and the tables that it leaves; an exception rolls the
-- caller's transaction back, so it leaves none. The caller has opened a transaction, and the
-- locks that the operations take make transactions on one learner follow one another.
use autonomus_academic_assis.Base.{
  ℕ, Bool, false, not, ◌&&◌, ◌||◌, Option, none, some, List, [], ◌∷◌, String, ◌==◌, str_eq,
  if◌then◌else◌, is_some, Result, ok, raise, runtime_conflict, runtime_stale, runtime_validation,
  integrity_error, fail_if, ◌>>=◌, ◌>>◌, ◌≡◌,
}
use autonomus_academic_assis.Base.Floats.{Floats}
use autonomus_academic_assis.Session.{LearningSessionSnapshot}
use autonomus_academic_assis.Runtime.Tables.{Tables, RuntimeOperation}

-- A value's `canonical_bytes` or `model_dump_json`, and its class's `model_validate_json`.
pub record Codec (A : Type 0) : Type 0 where
  pub dump : A → String
  pub load : String → Result A

-- What pydantic reads, its validators accept.
pub record Validated {A : Type 0} (codec : Codec A) (validator : A → Result (Unit {0}))
    : Type 0 where
  pub accepts : (bytes : String) (value : A) → codec.load bytes ≡ ok value → validator value ≡ ok tt

-- The logical identity of an operation, its learner and its canonical request.
pub record Identity : Type 0 where
  pub kind : String
  pub scope_id : ℕ
  pub source_id : ℕ
  pub learner_id : ℕ
  pub request : String

-- `session.get(RuntimeOperationRecord, (kind, scope_id, source_id))`
unfoldable pub operation_at :
    (kind : String) (scope_id source_id : ℕ) → List RuntimeOperation → Option RuntimeOperation
operation_at kind scope_id source_id [] = none
operation_at kind scope_id source_id (row ∷ rows) =
    if str_eq row.kind kind && (row.scope_id == scope_id) && (row.source_id == source_id)
    then some row
    else operation_at kind scope_id source_id rows

abbrev pub operation_of : Identity → List RuntimeOperation → Option RuntimeOperation
operation_of id rows = operation_at id.kind id.scope_id id.source_id rows

abbrev pub recorded_row : Identity → (result : String) → RuntimeOperation
recorded_row id result = record {
  kind = id.kind;
  scope_id = id.scope_id;
  source_id = id.source_id;
  learner_id = id.learner_id;
  request_bytes = id.request;
  result_bytes = result;
}

-- `_version`
unfoldable pub check_version : (observed expected : ℕ) → Result (Unit {0})
check_version observed expected =
    fail_if (not (observed == expected)) (runtime_stale "Expected version")

-- `value not in (None, expected)`
abbrev pub is_foreign : Option ℕ → (expected : ℕ) → Bool
is_foreign none expected = false
is_foreign (some value) expected = not (value == expected)

abbrev pub owned_session :
    Option LearningSessionSnapshot → (learner_id : ℕ) → Result LearningSessionSnapshot
owned_session none learner_id =
    raise (runtime_validation "Session is missing or belongs to another learner")
owned_session (some row) learner_id =
    if row.learner_id == learner_id
    then ok row
    else raise (runtime_validation "Session is missing or belongs to another learner")

module _ {F : Floats} where
  unfoldable pub lock_runtime_learner : Tables F → (learner_id : ℕ) → Result (Unit {0})
  lock_runtime_learner t learner_id =
      fail_if (not (t.learners learner_id)) (runtime_validation "Learner identity does not exist")

  unfoldable pub locked_session :
      Tables F → (learner_id session_id : ℕ) → Result LearningSessionSnapshot
  unfolding lock_runtime_learner
  locked_session t learner_id session_id = do
    lock_runtime_learner t learner_id
    owned_session (t.sessions session_id) learner_id

  unfoldable pub validate_runtime_event :
      Tables F → (event_id : ℕ) → (owner : LearningSessionSnapshot) → Result (Unit {0})
  validate_runtime_event t event_id owner = elim (t.events event_id) [
    | none ↦ raise (runtime_validation "Runtime event scope is missing or conflicting")
    | some row ↦
        fail_if
          (is_foreign row.learner_identity_id owner.learner_id
            || is_foreign row.course_id owner.course_id)
          (runtime_validation "Runtime event scope is missing or conflicting")
  ]

  -- Whether the topic, if there is one, is no topic of the graph.
  abbrev pub is_absent : Tables F → (graph_id : ℕ) → (topic_id : Option ℕ) → Bool
  is_absent t graph_id none = false
  is_absent t graph_id (some topic_id) = not (t.topics graph_id topic_id)

  -- `_graph_position`
  unfoldable pub graph_position :
      Tables F
      → (owner : LearningSessionSnapshot) → (graph_id topic_id : Option ℕ) → Result (Unit {0})
  graph_position t owner none topic_id =
      fail_if (is_some topic_id) (runtime_validation "Topic position requires a graph")
  graph_position t owner (some graph_id) topic_id = elim (t.graphs graph_id) [
    | none ↦ raise (runtime_validation "Position requires a published graph for this course")
    | some graph ↦ do
      fail_if (not (graph.course_id == owner.course_id) || not graph.is_published)
          (runtime_validation "Position requires a published graph for this course")
      fail_if (is_absent t graph_id topic_id)
          (runtime_validation "Position topic is absent from the graph")
  ]

  -- `_prior_result`
  unfoldable pub prior_result : Tables F → Identity → Result (Option String)
  prior_result t id = elim (operation_of id t.operations) [
    | none ↦ ok none
    | some row ↦ do
      fail_if (not (row.learner_id == id.learner_id) || not (str_eq row.request_bytes id.request))
          (runtime_conflict "Conflicting retry")
      ok (some row.result_bytes)
  ]

  -- `_record_result`: the flush refuses a second row with the identity.
  unfoldable pub record_result : Tables F → Identity → (result : String) → Result (Tables F)
  record_result t id result = do
    fail_if (is_some (operation_of id t.operations)) (integrity_error "runtime_operation_receipts")
    ok (record t { operations = recorded_row id result ∷ t.operations })

  -- What every operation does around its own work: it takes its locks, gives back the journaled
  -- result of an equal request, and else works and journals its result.
  module _ {A : Type 0} (codec : Codec A) where
    unfoldable pub work_once :
        Identity
        → Option String
        → (Tables F → Result (A × Tables F))
        → Tables F
        → Result (A × Tables F)
    work_once id (some bytes) work t = do value ← codec.load bytes; ok (value, t)
    work_once id none work t = do
      (value, t1) ← work t
      t2 ← record_result t1 id (codec.dump value)
      ok (value, t2)

    unfoldable pub journaled :
        {L : Type 0} (lock : Tables F → Result L) (id : Identity)
        (work : L → Tables F → Result (A × Tables F))
        → Tables F
        → Result (A × Tables F)
    unfolding work_once
    journaled lock id work t = do
      owner ← lock t
      prior ← prior_result t id
      work_once id prior (work owner) t
