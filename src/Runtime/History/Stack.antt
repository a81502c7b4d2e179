-- ===== src/Runtime/History/Stack.antt =====
-- Pushes and returns of frames, in packages/persistence/remediation.py, extend the tables.
use autonomus_academic_assis.Base.{
  ℕ, Bool, true, Option, none, some, ◌≡◌, refl, sym, subst, ◌∙◌, arith, Result, ok, bind_ok,
  fail_if, ◌>>=◌, ◌>>◌, put, inl, inr, Option-cases, Bool-cases, ◌==◌,
}
use autonomus_academic_assis.Base.Floats.{Floats}
use autonomus_academic_assis.Session.{SessionTransition, LearningSessionSnapshot, legal_transition}
use autonomus_academic_assis.Session.Path.{arrived}
use autonomus_academic_assis.Remediation.Frame.{RemediationFrameSnapshot, frame_bounds, is_id}
use autonomus_academic_assis.Runtime.Tables.{Tables, RemediationFrameRow}
use autonomus_academic_assis.Runtime.Journal.{Validated, locked_session}
use autonomus_academic_assis.Runtime.Requests.{Host, flush}
use autonomus_academic_assis.Runtime.Sessions.{transition_learning_session}
use autonomus_academic_assis.Runtime.Frames.{create_remediation_frame, update_remediation_frame}
use autonomus_academic_assis.Runtime.Stack.{
  headed, is_newer, with_head, same_frame, remediation_frame, closed, push_frame, push_identity,
  push_remediation_frame, restore_session, close_frame, return_frame, return_identity,
  return_remediation_frame,
}
use autonomus_academic_assis.Runtime.History.{
  Evolves, Evolves-refl, Kept, Extends, Extends-refl, Extends-trans,
}
use autonomus_academic_assis.Runtime.History.Sessions.{transition_learning_session-Journaled}
use autonomus_academic_assis.Runtime.History.Frames.{
  create_remediation_frame-Journaled, update_remediation_frame-Journaled,
}
use autonomus_academic_assis.Runtime.History.Once.{Journaled, journaled-Journaled}

closed-bounds :
    {F : Floats} (current : RemediationFrameSnapshot F) (version event execution at : ℕ)
    → frame_bounds current ≡ ok tt
    → frame_bounds (closed current version event execution at) ≡ ok tt
unfolding frame_bounds
closed-bounds current version event execution at valid = ground (arith, valid)

Kept-headed :
    (f : ℕ → Option LearningSessionSnapshot) (id : ℕ) (head : Option ℕ)
    → Kept Evolves f (put f id (headed head (f id)))
Kept-headed f id head = record {
  row = λ k a found. elim (Bool-cases (k == id)) [
    | inl at ↦
        let key : k ≡ id = ground (arith, at) in
        let here : f id ≡ some a = subst (λ x. f x ≡ some a) key found in
        (
          record a { active_frame_id = head },
          ground (arith, at, here),
          record {
            same_learner = refl;
            same_course = refl;
            same_creation = refl;
            path = (0, arrived);
          },
        )
    | inr off ↦ (a, ground (arith, off, found), Evolves-refl a)
  ];
}

module _ {F : Floats} where
  with_head-Extends :
      (t : Tables F) (session : ℕ) (head : Option ℕ) → Extends t (with_head t session head)
  with_head-Extends t session head =
      let e = Extends-refl t in
      record {
        learners = e.learners;
        sessions = Kept-headed t.sessions session head;
        frames = e.frames;
        bookings = e.bookings;
        operations = e.operations;
      }

module _ {F : Floats} (host : Host F) where
  pub push_frame-parts :
      (learner : ℕ) (value v : RemediationFrameSnapshot F) (version at : ℕ)
      (owner : LearningSessionSnapshot) (t t1 : Tables F)
      → push_frame host learner value version at owner t ≡ ok (v, t1)
      → (t2 : Tables F) × (create_remediation_frame host learner value version at t ≡ ok (v, t2))
        × (t1 ≡ with_head t2 value.session_id (some value.frame_id))
  unfolding push_frame flush
  push_frame-parts learner value v version at owner t t1 h =
      let ((result, t2), made, rest) =
        bind_ok (create_remediation_frame host learner value version at t)
          (λ (r : RemediationFrameSnapshot F × Tables F).
            fail_if (is_newer owner.active_frame_id value.parent_frame_id value.frame_id) _
            >> (flush host true (with_head r.1 value.session_id (some value.frame_id)) >>= λ t2.
                ok (r.0, t2)))
          h in
      let same : result ≡ v = ground (arith, rest) in
      (
        t2,
        subst (λ r. create_remediation_frame host learner value version at t ≡ ok (r, t2)) same
            made,
        ground (arith, rest),
      )

  pub push_remediation_frame-Journaled :
      (learner : ℕ) (value v : RemediationFrameSnapshot F) (version at : ℕ) (t t1 : Tables F)
      → frame_bounds value ≡ ok tt
      → push_remediation_frame host learner value version at t ≡ ok (v, t1)
      → (owner : LearningSessionSnapshot) × (locked_session t learner value.session_id ≡ ok owner)
        × Journaled host.frames frame_bounds (push_identity host learner value version at) v t t1
  unfolding push_remediation_frame
  push_remediation_frame-Journaled learner value v version at t t1 valid h =
      journaled-Journaled host.frames frame_bounds (λ t. locked_session t learner value.session_id)
        (push_identity host learner value version at) (push_frame host learner value version at) v t
        t1
        (λ owner _ v t1 h.
          let (t2, made, writes) = push_frame-parts learner value v version at owner t t1 h in
          let (_, _, made_once) =
            create_remediation_frame-Journaled host learner value v version at t t2 valid made in
          (
            made_once.valid,
            subst (Extends t) (sym writes)
                (Extends-trans made_once.extends (with_head-Extends t2 value.session_id _)),
          ))
        h

  flush_ok : (checks : Bool) (t t1 : Tables F) → flush host checks t ≡ ok t1 → t1 ≡ t
  unfolding flush
  flush_ok checks t t1 h = ground (arith, h)

  -- The transition moves the session whose head is taken off; then the head below is restored.
  pub restore_session-parts :
      (learner session : ℕ) (result v : RemediationFrameSnapshot F) (transition : SessionTransition)
      (t t1 : Tables F)
      → restore_session host learner session result transition t ≡ ok (v, t1)
      → (row : LearningSessionSnapshot) × (t3 : Tables F) × (transition_learning_session host
            learner transition
            (some result.graph_version_id)
            (some result.return_to_topic_id)
            true
            (with_head t session none)
          ≡ ok (row, t3))
        × (v ≡ result)
        × (t1 ≡ with_head t3 session result.parent_frame_id)
  unfolding restore_session
  restore_session-parts learner session result v transition t t1 h =
      let moves : Tables F → Result (LearningSessionSnapshot × Tables F) =
        transition_learning_session host learner transition (some result.graph_version_id)
          (some result.return_to_topic_id) true in
      let back : Tables F → Result (RemediationFrameSnapshot F × Tables F) = λ t3.
        flush host true (with_head t3 session result.parent_frame_id) >>= λ t4. ok (result, t4) in
      let (t2, first, rest) =
        bind_ok (flush host true (with_head t session none)) (λ t2. moves t2 >>= λ r. back r.1) h in
      let ((row, t3), moved, last) = bind_ok (moves t2) (λ r. back r.1) rest in
      let (t4, second, end) =
        bind_ok (flush host true (with_head t3 session result.parent_frame_id))
          (λ t4. ok (result, t4)) last in
      (
        row,
        t3,
        subst (λ x. moves x ≡ ok (row, t3)) (flush_ok true _ t2 first) moved,
        ground (arith, end),
        ground (arith, end) ∙ flush_ok true _ t4 second,
      )

  restore_session-Extends :
      (learner session : ℕ) (result v : RemediationFrameSnapshot F) (transition : SessionTransition)
      (t t1 : Tables F)
      → legal_transition transition ≡ ok tt
      → restore_session host learner session result transition t ≡ ok (v, t1)
      → Extends t t1
  restore_session-Extends learner session result v transition t t1 legal h =
      let (row, t3, moved, _, writes) =
        restore_session-parts learner session result v transition t t1 h in
      let (_, _, moved_once) =
        transition_learning_session-Journaled host learner transition _ _ true row _ t3 legal
          moved in
      subst (Extends t) (sym writes) (
        Extends-trans (with_head-Extends t session none)
          (Extends-trans moved_once.extends (with_head-Extends t3 session result.parent_frame_id)))

  pub close_frame-parts :
      (learner : ℕ) (current v : RemediationFrameSnapshot F) (version expected execution : ℕ)
      (transition : SessionTransition) (t t1 : Tables F)
      → close_frame host learner current version expected execution transition t ≡ ok (v, t1)
      → (result : RemediationFrameSnapshot F) × (t2 : Tables F) × (update_remediation_frame host
            learner
            (closed current version transition.event_id execution transition.occurred_at)
            version
            expected
            transition.occurred_at
            t
          ≡ ok (result, t2))
        × (restore_session host learner current.session_id result transition t2 ≡ ok (v, t1))
  unfolding close_frame
  close_frame-parts learner current v version expected execution transition t t1 h =
      let ((result, t2), updated, rest) =
        bind_ok
          (update_remediation_frame host learner
            (closed current version transition.event_id execution transition.occurred_at) version
            expected transition.occurred_at t)
          (λ (r : RemediationFrameSnapshot F × Tables F).
            restore_session host learner current.session_id r.0 transition r.1)
          h in
      (result, t2, updated, rest)

  close_frame-Extends :
      (learner : ℕ) (current v : RemediationFrameSnapshot F) (version expected execution : ℕ)
      (transition : SessionTransition) (t t1 : Tables F)
      → legal_transition transition ≡ ok tt
      → frame_bounds current ≡ ok tt
      → close_frame host learner current version expected execution transition t ≡ ok (v, t1)
      → (Validated host.frames frame_bounds → frame_bounds v ≡ ok tt) × Extends t t1
  close_frame-Extends learner current v version expected execution transition t t1 legal valid h =
      let (result, t2, updated, rest) =
        close_frame-parts learner current v version expected execution transition t t1 h in
      let (_, _, made_once) =
        update_remediation_frame-Journaled host learner
          (closed current version transition.event_id execution transition.occurred_at) result
          version expected transition.occurred_at t t2 (closed-bounds current version _ _ _ valid)
          updated in
      let (_, _, _, same, _) =
        restore_session-parts learner current.session_id result v transition t2 t1 rest in
      (
        λ law. subst (λ r. frame_bounds r ≡ ok tt) (sym same) (made_once.valid law),
        Extends-trans made_once.extends (
            restore_session-Extends learner current.session_id result v transition t2 t1 legal
              rest),
      )

  pub return_frame-parts :
      (learner : ℕ) (value v : RemediationFrameSnapshot F) (expected : ℕ)
      (transition : SessionTransition) (owner : LearningSessionSnapshot) (t t1 : Tables F)
      → return_frame host learner value expected transition owner t ≡ ok (v, t1)
      → (current : RemediationFrameSnapshot F) × (execution : ℕ) × (remediation_frame
            (t.frames value.frame_id)
            value.session_id
          ≡ ok current)
        × (is_id owner.active_frame_id value.frame_id ≡ true)
        × (same_frame current value ≡ true)
        × (close_frame host learner current value.version expected execution transition t
            ≡ ok (v, t1))
  unfolding return_frame
  return_frame-parts learner value v expected transition owner t t1 h =
      let close : RemediationFrameSnapshot F → ℕ → Result (RemediationFrameSnapshot F × Tables F) =
        λ current execution.
          close_frame host learner current value.version expected execution transition t in
      let (current, found, rest) =
        bind_ok (remediation_frame (t.frames value.frame_id) value.session_id) _ h in
      elim (Option-cases transition.execution_id) [
        | inl absent ↦ absurd (ground (arith, rest, absent))
        | inr (execution, named) ↦ (
          current,
          execution,
          found,
          ground (arith, rest, named),
          ground (arith, rest, named),
          ground (arith, rest, named),
        )
      ]

  remediation_frame-bounds :
      (o : Option (RemediationFrameRow F)) (session : ℕ) (current : RemediationFrameSnapshot F)
      → remediation_frame o session ≡ ok current
      → frame_bounds current ≡ ok tt
  unfolding remediation_frame
  remediation_frame-bounds none session current h = absurd (cc h)
  remediation_frame-bounds (some row) session current h =
      let valid : frame_bounds row.snapshot ≡ ok tt = ground (arith, h) in
      let same : row.snapshot ≡ current = ground (arith, h) in
      subst (λ r. frame_bounds r ≡ ok tt) same valid

  pub return_remediation_frame-Journaled :
      (learner : ℕ) (value v : RemediationFrameSnapshot F) (expected : ℕ)
      (transition : SessionTransition) (t t1 : Tables F)
      → legal_transition transition ≡ ok tt
      → return_remediation_frame host learner value expected transition t ≡ ok (v, t1)
      → (owner : LearningSessionSnapshot) × (locked_session t learner value.session_id ≡ ok owner)
        × Journaled host.frames frame_bounds
            (return_identity host learner value expected transition)
            v
            t
            t1
  unfolding return_remediation_frame
  return_remediation_frame-Journaled learner value v expected transition t t1 legal h =
      journaled-Journaled host.frames frame_bounds (λ t. locked_session t learner value.session_id)
        (return_identity host learner value expected transition)
        (return_frame host learner value expected transition) v t t1
        (λ owner _ v t1 h.
          let (current, execution, found, _, _, rest) =
            return_frame-parts learner value v expected transition owner t t1 h in
          close_frame-Extends learner current v value.version expected execution transition t t1
            legal (remediation_frame-bounds _ _ current found) rest)
        h
