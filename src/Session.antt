-- ===== src/Session.antt =====
-- The learning session of packages/domain/runtime.py: its states, the transition table and the
-- validator of a transition. A UUID is a number, and so is a time.
pub mod Path
use autonomus_academic_assis.Base.{
  ℕ, ◌+◌, Bool, true, false, not, ◌&&◌, ◌||◌, Option, List, [], ◌∷◌, ◌==◌, if◌then◌else◌, none,
  some, leb, is_some, ltb, Result, raise_if, ◌>>=◌, ◌>>◌,
}

pub data SessionState : Type 0 where
  created planning retrieving teaching checkpoint assessing : SessionState
  diagnosing replanning advance paused needs_state complete : SessionState

-- A place in the declaration, by which two states compare.
abbrev pub state_place : SessionState → ℕ
state_place created = 0
state_place planning = 1
state_place retrieving = 2
state_place teaching = 3
state_place checkpoint = 4
state_place assessing = 5
state_place diagnosing = 6
state_place replanning = 7
state_place advance = 8
state_place paused = 9
state_place needs_state = 10
state_place complete = 11

abbrev pub same_state : SessionState → SessionState → Bool
same_state a b = state_place a == state_place b

abbrev pub contains_state : SessionState → List SessionState → Bool
contains_state s [] = false
contains_state s (t ∷ ts) = same_state s t || contains_state s ts

-- `_PROGRESSION`
unfoldable pub progression : SessionState → List SessionState
progression created = planning ∷ []
progression planning = retrieving ∷ teaching ∷ diagnosing ∷ complete ∷ []
progression retrieving = teaching ∷ replanning ∷ []
progression teaching = checkpoint ∷ replanning ∷ []
progression checkpoint = assessing ∷ replanning ∷ []
progression assessing = diagnosing ∷ replanning ∷ []
progression diagnosing = replanning ∷ []
progression replanning = retrieving ∷ teaching ∷ diagnosing ∷ advance ∷ complete ∷ []
progression advance = planning ∷ []
progression paused = planning ∷ []
progression needs_state = planning ∷ []
progression complete = []

-- `SESSION_TRANSITIONS`: a session that is not complete may also stay, pause or ask for state.
unfoldable pub session_transitions : SessionState → List SessionState
unfolding progression
session_transitions state =
    if same_state state complete
    then progression state
    else state ∷ paused ∷ needs_state ∷ progression state

pub record SessionTransition : Type 0 where
  pub session_id : ℕ
  pub event_id : ℕ
  pub from_state : SessionState
  pub to_state : SessionState
  pub from_version : ℕ
  pub to_version : ℕ
  pub occurred_at : ℕ
  pub plan_version_id : Option ℕ
  pub execution_id : Option ℕ

-- The validator `legal_transition`.
unfoldable pub legal_transition : SessionTransition → Result (Unit {0})
unfolding session_transitions
legal_transition t = do
  raise_if (not (contains_state t.to_state (session_transitions t.from_state)))
      "Illegal session transition"
  raise_if (not (t.to_version == t.from_version + 1))
      "Session transition must increment the version exactly once"
  raise_if (is_some t.execution_id && not (is_some t.plan_version_id))
      "An execution-linked transition requires its plan version"

pub record LearningSessionSnapshot : Type 0 where
  pub session_id : ℕ
  pub learner_id : ℕ
  pub course_id : ℕ
  pub state : SessionState
  pub version : ℕ
  pub graph_version_id : Option ℕ
  pub current_topic_id : Option ℕ
  pub current_plan_version_id : Option ℕ
  pub active_frame_id : Option ℕ
  pub last_event_id : ℕ
  pub created_at : ℕ
  pub updated_at : ℕ
  pub completed_at : Option ℕ

-- `completed_at is not None and not created_at <= completed_at <= updated_at`
abbrev pub is_outside : Option ℕ → (created_at updated_at : ℕ) → Bool
is_outside none created_at updated_at = false
is_outside (some at) created_at updated_at = not (leb created_at at && leb at updated_at)

-- The validator `lifecycle`.
unfoldable pub lifecycle : LearningSessionSnapshot → Result (Unit {0})
lifecycle snapshot = do
  raise_if
      (if same_state snapshot.state complete
        then not (is_some snapshot.completed_at)
        else is_some snapshot.completed_at)
      "Only a complete session has a completion timestamp"
  raise_if (is_some snapshot.current_topic_id && not (is_some snapshot.graph_version_id))
      "Learning position requires a graph version"
  raise_if (ltb snapshot.updated_at snapshot.created_at) "Session update cannot precede creation"
  raise_if (is_outside snapshot.completed_at snapshot.created_at snapshot.updated_at)
      "Session completion must be within its lifecycle"
