-- ===== src/Session/Path.antt =====
-- Sequences of legal transitions of a session: packages/domain/runtime.py.
use autonomus_academic_assis.Base.{
  ℕ, suc, ◌+◌, ◌≤◌, ◌≡◌, ap, ◌≢◌, refl, true, false, none, arith, ok,
}
use autonomus_academic_assis.Session.{
  SessionState, created, planning, retrieving, teaching, checkpoint, assessing, diagnosing,
  replanning, advance, paused, needs_state, complete, contains_state, session_transitions,
  SessionTransition, legal_transition,
}

-- `Transitions t w s v n`: `n` legal transitions in a row lead from the state `s` at version `v` to the state
-- `t` at version `w`.
pub data Transitions (t : SessionState) (w : ℕ) : SessionState → ℕ → ℕ → Type 0 where
  arrived : Transitions t w t w 0
  moved :
      {n : ℕ} (step : SessionTransition)
      → legal_transition step ≡ ok tt
      → Transitions t w step.to_state step.to_version n
      → Transitions t w step.from_state step.from_version (suc n)

legal_parts :
    (step : SessionTransition)
    → legal_transition step ≡ ok tt
    → (contains_state step.to_state (session_transitions step.from_state) ≡ true)
      × (step.to_version ≡ step.from_version + 1)
unfolding legal_transition
legal_parts step h = ground arith

none_from_complete : (s : SessionState) → contains_state s (session_transitions complete) ≡ false
unfolding session_transitions
none_from_complete s = refl

stuck :
    (step : SessionTransition)
    → step.from_state ≡ complete
    → contains_state step.to_state (session_transitions step.from_state) ≢ true
stuck step e h = absurd (
    cc (
      h,
      ap (λ s. contains_state step.to_state (session_transitions s)) e,
      none_from_complete step.to_state,
    ))

-- A session that is complete stays so: no legal transition leaves it, so a sequence of legal
-- transitions that starts there is empty. Along any sequence the version grows by one for each
-- transition.
pub Transitions-versions :
    {t : SessionState} {w : ℕ} {s : SessionState} {v n : ℕ}
    → Transitions t w s v n
    → (w ≡ v + n) × (s ≡ complete → n ≡ 0)
Transitions-versions arrived = (ground arith, λ e. refl)
Transitions-versions (moved step legal rest) =
    let (allowed, next) = legal_parts step legal in
    let (grown, _) = Transitions-versions rest in
    (ground (arith, grown, next), λ e. absurd (stuck step e allowed))

-- A transition without a plan.
abbrev pub step_to : SessionState → SessionState → ℕ → SessionTransition
step_to s t v = record {
  session_id = 0;
  event_id = 0;
  from_state = s;
  to_state = t;
  from_version = v;
  to_version = v + 1;
  occurred_at = 0;
  plan_version_id = none;
  execution_id = none;
}

step_to-legal :
    (s t : SessionState) (v : ℕ)
    → contains_state t (session_transitions s) ≡ true
    → legal_transition (step_to s t v) ≡ ok tt
unfolding legal_transition
step_to-legal s t v h = ground arith

abbrev Completes : SessionState → ℕ → Type 0
Completes s v = (w : ℕ) × (n : ℕ) × (n ≤ 2) × Transitions complete w s v n

one_step :
    (s : SessionState) (v : ℕ)
    → contains_state complete (session_transitions s) ≡ true
    → Completes s v
one_step s v h =
    (v + 1, 1, ground arith, moved (step_to s complete v) (step_to-legal s complete v h) arrived)

two_steps :
    (s m : SessionState) (v : ℕ)
    → contains_state m (session_transitions s) ≡ true
    → contains_state complete (session_transitions m) ≡ true
    → Completes s v
two_steps s m v h k = (
  v + 1 + 1,
  2,
  ground arith,
  moved (step_to s m v) (step_to-legal s m v h)
      (moved (step_to m complete (v + 1)) (step_to-legal m complete (v + 1) k) arrived),
)

-- From every state, at any version, at most two legal transitions complete the session.
pub session-completes :
    (s : SessionState) (v : ℕ) → (w : ℕ) × (n : ℕ) × (n ≤ 2) × Transitions complete w s v n
unfolding session_transitions
session-completes created v = two_steps created planning v refl refl
session-completes planning v = one_step planning v refl
session-completes retrieving v = two_steps retrieving replanning v refl refl
session-completes teaching v = two_steps teaching replanning v refl refl
session-completes checkpoint v = two_steps checkpoint replanning v refl refl
session-completes assessing v = two_steps assessing replanning v refl refl
session-completes diagnosing v = two_steps diagnosing replanning v refl refl
session-completes replanning v = one_step replanning v refl
session-completes advance v = two_steps advance planning v refl refl
session-completes paused v = two_steps paused planning v refl refl
session-completes needs_state v = two_steps needs_state planning v refl refl
session-completes complete v = (v, 0, ground arith, arrived)
