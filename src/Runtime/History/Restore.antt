-- ===== src/Runtime/History/Restore.antt =====
-- A return restores the head that the push covered: packages/persistence/remediation.py.
use autonomus_academic_assis.Base.{
  ℕ, true, Option, none, some, ◌≡◌, refl, sym, subst, ◌∙◌, ap, arith, ok, some_same,
  same_option_iff, put_same,
}
use autonomus_academic_assis.Base.Floats.{Floats}
use autonomus_academic_assis.Session.{SessionTransition, LearningSessionSnapshot, legal_transition}
use autonomus_academic_assis.Remediation.Frame.{RemediationFrameSnapshot}
use autonomus_academic_assis.Triggers.Facts.{SourceIdentity}
use autonomus_academic_assis.Runtime.Tables.{Tables, RemediationFrameRow}
use autonomus_academic_assis.Runtime.Journal.{operation_at, operation_of, locked_session}
use autonomus_academic_assis.Runtime.Requests.{Host}
use autonomus_academic_assis.Runtime.Frames.{
  frame_row, new_frame, frame_creation, create_remediation_frame, change_frame, frame_update,
  update_remediation_frame,
}
use autonomus_academic_assis.Runtime.Stack.{
  headed, with_head, same_frame, remediation_frame, closed, push_frame, push_identity,
  push_remediation_frame, close_frame, return_frame, return_identity, return_remediation_frame,
}
use autonomus_academic_assis.Runtime.Calls.{History}
use autonomus_academic_assis.Runtime.Effects.{new_frame-writes, change_frame-writes}
use autonomus_academic_assis.Runtime.History.Locks.{locked_session-parts}
use autonomus_academic_assis.Runtime.History.Once.{journaled-fresh}
use autonomus_academic_assis.Runtime.History.Sessions.{transition_learning_session-Journaled}
use autonomus_academic_assis.Runtime.History.Stack.{
  push_frame-parts, restore_session-parts, close_frame-parts, return_frame-parts,
}
use autonomus_academic_assis.Runtime.History.Replay.{History-Extends}

module _ {F : Floats} where
  -- The head of the session.
  pub record HasHead (t : Tables F) (session_id : ℕ) (head : Option ℕ) : Type 0 where
    pub row : LearningSessionSnapshot
    pub found : t.sessions session_id ≡ some row
    pub at_head : row.active_frame_id ≡ head

  same_frame-id :
      (frame value : RemediationFrameSnapshot F)
      → same_frame frame value ≡ true
      → frame.frame_id ≡ value.frame_id
  unfolding same_frame
  same_frame-id frame value h = ground (arith, h)

  remediation_frame-found :
      (o : Option (RemediationFrameRow F)) (session : ℕ) (current : RemediationFrameSnapshot F)
      → remediation_frame o session ≡ ok current
      → (row : RemediationFrameRow F) × (o ≡ some row)
        × (row.snapshot ≡ current)
        × (current.session_id ≡ session)
  unfolding remediation_frame
  remediation_frame-found none session current h = absurd (cc h)
  remediation_frame-found (some row) session current h =
      let same : row.snapshot ≡ current = ground (arith, h) in
      let owned : row.snapshot.session_id ≡ session = ground (arith, h) in
      (row, refl, same, ap RemediationFrameSnapshot.session_id (sym same) ∙ owned)

  with_head-HasHead :
      (t : Tables F) (session : ℕ) (head : Option ℕ) (row : LearningSessionSnapshot)
      → t.sessions session ≡ some row
      → HasHead (with_head t session head) session head
  with_head-HasHead t session head row found = record {
    row = record row { active_frame_id = head };
    found = put_same t.sessions session (headed head (t.sessions session)) ∙ ap (headed head) found;
    at_head = refl;
  }

module _ {F : Floats} (host : Host F) (source_id : SourceIdentity → ℕ) where
  -- A push that is not journaled, nor the creation of its frame, stores the head as the parent.
  push-stores :
      (learner : ℕ) (value v : RemediationFrameSnapshot F) (version at : ℕ) (t t1 : Tables F)
      → operation_of (push_identity host learner value version at) t.operations ≡ none
      → operation_of (frame_creation host learner value version at) t.operations ≡ none
      → push_remediation_frame host learner value version at t ≡ ok (v, t1)
      → (owner : LearningSessionSnapshot) × (t.sessions value.session_id ≡ some owner)
        × (value.parent_frame_id ≡ owner.active_frame_id)
        × (t1.frames value.frame_id ≡ some (frame_row value at at))
  unfolding push_remediation_frame create_remediation_frame
  push-stores learner value v version at t t1 absent absent' h =
      let (owner, t', locked, worked, recorded) =
        journaled-fresh host.frames (λ t. locked_session t learner value.session_id)
          (push_identity host learner value version at) (push_frame host learner value version at) v
          t t1 absent h in
      let (t2, made, writes) = push_frame-parts host learner value v version at owner t t' worked in
      let (owner', t3, locked', made', recorded') =
        journaled-fresh host.frames (λ t. locked_session t learner value.session_id)
          (frame_creation host learner value version at) (new_frame host value version at) v t t2
          absent' made in
      let (_, writes', _, heads) = new_frame-writes host value v version at owner' t t3 made' in
      let (_, found, _) = locked_session-parts t learner value.session_id owner' locked' in
      (
        owner',
        found,
        same_option_iff value.parent_frame_id owner'.active_frame_id heads,
        ap (λ (x : Tables F). x.frames value.frame_id) recorded
            ∙ ap (λ (x : Tables F). x.frames value.frame_id) writes
            ∙ ap (λ (x : Tables F). x.frames value.frame_id) recorded'
            ∙ ap (λ (x : Tables F). x.frames value.frame_id) writes'
            ∙ put_same t.frames value.frame_id (some (frame_row value at at)),
      )

  -- A close whose update is not journaled leaves the parent of the frame at the head.
  close-restores :
      (learner : ℕ) (current v : RemediationFrameSnapshot F) (version expected execution : ℕ)
      (transition : SessionTransition) (t t1 : Tables F)
      → legal_transition transition ≡ ok tt
      → operation_at "frame-update" current.frame_id transition.event_id t.operations ≡ none
      → transition.session_id ≡ current.session_id
      → close_frame host learner current version expected execution transition t ≡ ok (v, t1)
      → HasHead t1 current.session_id current.parent_frame_id
  unfolding update_remediation_frame
  close-restores learner current v version expected execution transition t t1 legal absent session
        h =
      let (result, t2, updated, rest) =
        close_frame-parts host learner current v version expected execution transition t t1 h in
      let new = closed current version transition.event_id execution transition.occurred_at in
      let (owner, t', _, worked, recorded) =
        journaled-fresh host.frames (λ t. locked_session t learner current.session_id)
          (frame_update host learner new version expected transition.occurred_at)
          (change_frame host new version expected transition.occurred_at) result t t2 absent
          updated in
      let (_, same, _, _, _) =
        change_frame-writes host new result version expected transition.occurred_at owner t t'
          worked in
      let (row, t3, moved, _, writes) =
        restore_session-parts host learner current.session_id result v transition t2 t1 rest in
      let (owner', locked, once) =
        transition_learning_session-Journaled host learner transition _ _ true row _ t3 legal
          moved in
      let (_, found, _) = locked_session-parts _ learner transition.session_id owner' locked in
      let sessions_kept = once.extends in
      let (row', still, _) = sessions_kept.sessions.row transition.session_id owner' found in
      let here : t3.sessions current.session_id ≡ some row' =
        subst (λ s. t3.sessions s ≡ some row') session still in
      subst (λ (p : RemediationFrameSnapshot F). HasHead t1 current.session_id p.parent_frame_id)
        same
        (subst (λ x. HasHead x current.session_id result.parent_frame_id) (sym writes)
          (with_head-HasHead t3 current.session_id result.parent_frame_id row' here))

  -- The stack of frames is a stack: a return restores the head that the push of its frame covered. After
  -- a push that was not journaled, nor the creation of its frame, and any history, a return of
  -- the frame by a transition of its session leaves the session with the head that it had before
  -- the push, if neither the return nor its update of the frame was journaled.
  pub return_restores_head :
      (learner : ℕ) (value v closing closed : RemediationFrameSnapshot F) (version at expected : ℕ)
      (transition : SessionTransition) (t t1 t2 t3 : Tables F)
      → operation_of (push_identity host learner value version at) t.operations ≡ none
      → operation_of (frame_creation host learner value version at) t.operations ≡ none
      → push_remediation_frame host learner value version at t ≡ ok (v, t1)
      → History host source_id t1 t2
      → closing.frame_id ≡ value.frame_id
      → closing.session_id ≡ value.session_id
      → transition.session_id ≡ value.session_id
      → legal_transition transition ≡ ok tt
      → operation_of (return_identity host learner closing expected transition) t2.operations ≡ none
      → operation_at "frame-update" value.frame_id transition.event_id t2.operations ≡ none
      → return_remediation_frame host learner closing expected transition t2 ≡ ok (closed, t3)
      → (owner : LearningSessionSnapshot) × (t.sessions value.session_id ≡ some owner)
        × HasHead t3 value.session_id owner.active_frame_id
  unfolding return_remediation_frame
  return_restores_head learner value v closing closed version at expected transition t t1 t2 t3
        absent absent' pushed history same_id same_session moves legal absent_return absent_update
        returned =
      let (owner, before, parent, stored) =
        push-stores learner value v version at t t1 absent absent' pushed in
      let (_, t', _, worked, recorded) =
        journaled-fresh host.frames (λ t. locked_session t learner closing.session_id)
          (return_identity host learner closing expected transition)
          (return_frame host learner closing expected transition) closed t2 t3 absent_return
          returned in
      let (current, execution, found, _, equal, closes) =
        return_frame-parts host learner closing closed expected transition _ t2 t' worked in
      let (row, at_key, is_current, in_session) = remediation_frame-found _ _ current found in
      let kept = History-Extends host source_id history in
      let (row', still, unchanged) =
        kept.frames.row value.frame_id (frame_row value at at) stored in
      let rows : row' ≡ row = some_same (sym still ∙ ap t2.frames (sym same_id) ∙ at_key) in
      let its_parent : current.parent_frame_id ≡ owner.active_frame_id =
        ap RemediationFrameSnapshot.parent_frame_id (sym is_current)
        ∙ ap (λ (r : RemediationFrameRow F). r.snapshot.parent_frame_id) (sym rows)
        ∙ unchanged.parent
        ∙ parent in
      let its_id : current.frame_id ≡ value.frame_id =
        same_frame-id current closing equal ∙ same_id in
      let its_session : current.session_id ≡ value.session_id = in_session ∙ same_session in
      let head =
        close-restores learner current closed closing.version expected execution transition t2 t'
          legal
          (ap (λ f. operation_at "frame-update" f transition.event_id t2.operations) its_id
            ∙ absent_update)
          (moves ∙ sym its_session) closes in
      let restored =
        subst (λ s. HasHead t' s owner.active_frame_id) its_session
          (subst (λ h. HasHead t' current.session_id h) its_parent head) in
      (
        owner,
        before,
        subst (λ x. HasHead x value.session_id owner.active_frame_id) (sym recorded)
            (record { row = restored.row; found = restored.found; at_head = restored.at_head }),
      )
