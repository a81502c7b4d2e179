-- ===== src/Remediation/Guard.antt =====
-- The per-rung guard of packages/domain/remediation.py: what one attempt does to a live frame, and how
-- many attempts a frame takes.
use autonomus_academic_assis.Base.{
  ℕ, zero, suc, ltb, subst, ◌+◌, ◌-◌, ◌*◌, ◌≤◌, ◌<◌, ◌≡◌, ◌≢◌, refl, Bool, true, false, is_some,
  Option-cases, ◌⊎◌, inl, inr, Option, none, some, arith, ok,
}
use autonomus_academic_assis.Base.Floats.{Floats}
use autonomus_academic_assis.Remediation.Frame.{
  FrameState, active, complete, returned, blocked_needs_human, RemediationFrameSnapshot,
  FrameAttempt, RemediationProgressEvaluation, return, continue, blocked,
}
use autonomus_academic_assis.Remediation.Ladder.{
  evaluation, ladder, index, escalate, evaluate_remediation_progress, updated,
}

-- The rungs above the one at an index.
abbrev pub above : Option ℕ → ℕ
above none = 0
above (some i) = 4 - i

state-cases : (s : FrameState) → (s ≡ active) ⊎ (s ≢ active)
state-cases active = inl refl
state-cases complete = inr (λ e. absurd (cc e))
state-cases returned = inr (λ e. absurd (cc e))
state-cases blocked_needs_human = inr (λ e. absurd (cc e))

module _ {F : Floats} where
  -- A frame that takes an attempt: it is active, below its attempt budget, and on the ladder.
  pub record IsLive (frame : RemediationFrameSnapshot F) : Type 0 where
    pub is_active : frame.state ≡ active
    pub below_max : frame.attempt_count < frame.max_attempts
    pub on_ladder : is_some (index frame.strategy ladder) ≡ true

  abbrev pub Belongs : RemediationFrameSnapshot F → FrameAttempt F → Type 0
  Belongs frame attempt = (attempt.frame_id ≡ frame.frame_id) × (attempt.rung ≡ frame.rung)

  -- The attempts that the frame can still take.
  abbrev pub budget : RemediationFrameSnapshot F → ℕ
  budget frame =
      above (index frame.strategy ladder) * frame.max_attempts
      + (frame.max_attempts - frame.attempt_count)

  -- What an attempt makes of a live frame.
  pub record Guarded (frame next : RemediationFrameSnapshot F) : Type 0 where
    pub never_over : next.attempt_count ≤ frame.max_attempts
    pub same_max : next.max_attempts ≡ frame.max_attempts
    pub same_frame : next.frame_id ≡ frame.frame_id
    pub live_on : next.state ≡ active → IsLive next
    pub shrinks : next.state ≡ active → budget next < budget frame

  escalate-Guarded :
      (frame : RemediationFrameSnapshot F) (attempt : FrameAttempt F) (allow : Bool) (i : ℕ)
      (last_event_id : ℕ)
      → IsLive frame
      → index frame.strategy ladder ≡ some i
      → (e : RemediationProgressEvaluation F) × (escalate frame attempt allow i ≡ ok e)
        × Guarded frame (updated frame attempt e last_event_id)
  unfolding escalate updated
  escalate-Guarded frame attempt allow zero event live h = (_, refl, ground (arith, live.below_max))
  escalate-Guarded frame attempt allow (suc zero) event live h =
      (_, refl, ground (arith, live.below_max))
  escalate-Guarded frame attempt true (suc (suc zero)) event live h =
      (_, refl, ground (arith, live.below_max))
  escalate-Guarded frame attempt false (suc (suc zero)) event live h =
      (_, refl, ground (arith, live.below_max))
  escalate-Guarded frame attempt allow (suc (suc (suc zero))) event live h =
      (_, refl, ground (arith, live.below_max))
  escalate-Guarded frame attempt allow (suc (suc (suc (suc i)))) event live h = (
    evaluation frame attempt (frame.attempt_count + 1) blocked blocked_needs_human frame.rung
        frame.strategy frame.baseline_mastery false,
    ground arith,
    ground (arith, live.below_max),
  )

  step :
      (frame : RemediationFrameSnapshot F) (attempt : FrameAttempt F) (allow : Bool)
      (last_event_id : ℕ)
      → IsLive frame
      → Belongs frame attempt
      → (reached enough : Bool)
      → F.le frame.min_progress_delta (F.sub attempt.observed_mastery frame.baseline_mastery)
        ≡ reached
      → ltb (frame.attempt_count + 1) frame.max_attempts ≡ enough
      → (e : RemediationProgressEvaluation F) × (evaluate_remediation_progress frame attempt allow
          ≡ ok e)
        × Guarded frame (updated frame attempt e last_event_id)
  unfolding evaluate_remediation_progress updated
  step frame attempt allow event live own true enough r b = (
    evaluation frame attempt (frame.attempt_count + 1) return complete frame.rung frame.strategy
        frame.baseline_mastery false,
    ground (arith, own),
    ground (arith, live.below_max),
  )
  step frame attempt allow event live own false true r b = (
    evaluation frame attempt (frame.attempt_count + 1) continue active frame.rung frame.strategy
        frame.baseline_mastery false,
    ground (arith, own),
    ground (arith, live.below_max, live.on_ladder),
  )
  step frame attempt allow event live own false false r b =
      elim (Option-cases (index frame.strategy ladder)) [
        | inl off ↦ absurd (cc (off, live.on_ladder))
        | inr (i, at) ↦
            let (e, made, guarded) = escalate-Guarded frame attempt allow i event live at in
            (e, ground (arith, own, made, at), guarded)
      ]

  -- An attempt that belongs to a live frame (active, below its attempt limit, with a strategy of the
  -- ladder) is always evaluated, and the frame that is stored keeps its id and its limit, has at most
  -- the limit's attempts and, if it stays active, is live again with a strictly smaller budget:
  -- the attempts that are left on its rung, and the limit for each rung above.
  pub evaluate_remediation_progress-Guarded :
      (frame : RemediationFrameSnapshot F) (attempt : FrameAttempt F)
      (allow_model_escalation : Bool) (last_event_id : ℕ)
      → IsLive frame
      → Belongs frame attempt
      → (e : RemediationProgressEvaluation F) × (evaluate_remediation_progress frame attempt
            allow_model_escalation
          ≡ ok e)
        × Guarded frame (updated frame attempt e last_event_id)
  evaluate_remediation_progress-Guarded frame attempt allow event live own =
      step frame attempt allow event live own _ _ refl refl

  -- `Climbs frame n last`: `n` attempts in a row, each of them on a frame that is still active, take the frame
  -- `frame` to `last`.
  pub data Climbs : RemediationFrameSnapshot F → ℕ → RemediationFrameSnapshot F → Type 0 where
    stay : {frame : RemediationFrameSnapshot F} → Climbs frame 0 frame
    attempted :
        {frame last : RemediationFrameSnapshot F} {n : ℕ} (attempt : FrameAttempt F) (allow : Bool)
        (last_event_id : ℕ) (e : RemediationProgressEvaluation F)
        → frame.state ≡ active
        → Belongs frame attempt
        → evaluate_remediation_progress frame attempt allow ≡ ok e
        → Climbs (updated frame attempt e last_event_id) n last
        → Climbs frame (suc n) last

  guarded_next :
      (frame : RemediationFrameSnapshot F) (attempt : FrameAttempt F) (allow : Bool) (event : ℕ)
      (e : RemediationProgressEvaluation F)
      → IsLive frame
      → Belongs frame attempt
      → evaluate_remediation_progress frame attempt allow ≡ ok e
      → Guarded frame (updated frame attempt e event)
  guarded_next frame attempt allow event e live own made =
      let (e', made', guarded) =
        evaluate_remediation_progress-Guarded frame attempt allow event live own in
      subst (λ r. Guarded frame (updated frame attempt r event)) (cc (made, made')) guarded

  still_active :
      (frame : RemediationFrameSnapshot F) (attempt : FrameAttempt F)
      (e : RemediationProgressEvaluation F) (event : ℕ)
      → e.next_state ≡ active
      → (updated frame attempt e event).state ≡ active
  unfolding updated
  still_active frame attempt e event h = h

  not_active :
      (frame : RemediationFrameSnapshot F) (attempt : FrameAttempt F)
      (e : RemediationProgressEvaluation F) (event : ℕ)
      → e.next_state ≢ active
      → (updated frame attempt e event).state ≢ active
  unfolding updated
  not_active frame attempt e event h = h

  settled_climb :
      {frame last : RemediationFrameSnapshot F} {n : ℕ}
      → frame.state ≢ active
      → Climbs frame n last
      → n ≡ 0
  settled_climb h stay = refl
  settled_climb h (attempted _ _ _ _ on _ _ _) = absurd (h on)

  -- A live frame takes at most its budget of attempts in a row, whatever the learner's results are and
  -- whether or not escalation to a model is allowed.
  pub Climbs-budget :
      {frame last : RemediationFrameSnapshot F} {n : ℕ}
      → IsLive frame
      → Climbs frame n last
      → n ≤ budget frame
  Climbs-budget live stay = ground arith
  Climbs-budget live (attempted attempt allow event e on own made rest) =
      let guarded = guarded_next _ attempt allow event e live own made in
      elim (state-cases e.next_state) [
        | inl still ↦
            let left =
              Climbs-budget (guarded.live_on (still_active _ attempt e event still)) rest in
            ground (arith, left, guarded.shrinks (still_active _ attempt e event still))
        | inr over ↦
            let none_left = settled_climb (not_active _ attempt e event over) rest in
            ground (arith, none_left, live.below_max)
      ]
