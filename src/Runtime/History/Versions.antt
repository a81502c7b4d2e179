-- ===== src/Runtime/History/Versions.antt =====
-- Versions of sessions along histories: packages/persistence/runtime.py.
use autonomus_academic_assis.Base.{
  ℕ, ◌+◌, ◌≤◌, Bool, Option, none, some, ◌≡◌, refl, sym, subst, ◌∙◌, ap, arith, ok, raise,
  some_same, runtime_stale, put_same,
}
use autonomus_academic_assis.Base.Floats.{Floats}
use autonomus_academic_assis.Session.{
  SessionState, SessionTransition, LearningSessionSnapshot, complete, legal_transition,
}
use autonomus_academic_assis.Session.Path.{Transitions, arrived, moved, Transitions-versions}
use autonomus_academic_assis.Triggers.Facts.{SourceIdentity}
use autonomus_academic_assis.Runtime.Tables.{Tables}
use autonomus_academic_assis.Runtime.Journal.{operation_of, check_version, locked_session}
use autonomus_academic_assis.Runtime.Requests.{Host}
use autonomus_academic_assis.Runtime.Sessions.{
  make_transition, transition_identity, transition_learning_session,
}
use autonomus_academic_assis.Runtime.Calls.{History}
use autonomus_academic_assis.Runtime.Effects.{make_transition-writes}
use autonomus_academic_assis.Runtime.History.{Evolves, Extends-trans}
use autonomus_academic_assis.Runtime.History.Once.{journaled-fresh, journaled-raises}
use autonomus_academic_assis.Runtime.History.Locks.{locked_session-parts, locked_session-Extends}
use autonomus_academic_assis.Runtime.History.Sessions.{transition_learning_session-Journaled}
use autonomus_academic_assis.Runtime.History.Replay.{History-Extends}

no_transition :
    {t : SessionState} {w : ℕ} {s : SessionState} {v n : ℕ} → Transitions t w s v n → n ≡ 0 → t ≡ s
no_transition arrived e = refl
no_transition (moved step legal rest) e = absurd (ground (arith, e))

legal-version :
    (step : SessionTransition)
    → legal_transition step ≡ ok tt
    → step.to_version ≡ step.from_version + 1
unfolding legal_transition
legal-version step h = ground (arith, h)

-- What a history leaves of a session: its identity, a path of legal transitions to what it is, a
-- version that did not fall, and a completion that stays.
pub record SessionSince (before after : LearningSessionSnapshot) : Type 0 where
  pub evolves : Evolves before after
  pub grows : before.version ≤ after.version
  pub completed :
      before.state ≡ complete → (after.state ≡ complete) × (after.version ≡ before.version)

Evolves-SessionSince : {a b : LearningSessionSnapshot} → Evolves a b → SessionSince a b
Evolves-SessionSince e =
    let (n, path) = e.path in
    let (counted, stays) = Transitions-versions path in
    record {
      evolves = e;
      grows = ground (arith, counted);
      completed = λ done.
          let none_left = stays done in
          (no_transition path none_left ∙ done, ground (arith, counted, none_left));
    }

module _ {F : Floats} (host : Host F) (source_id : SourceIdentity → ℕ) where
  -- After any history a session that was there still is, of the same learner, course and creation. Legal
  -- transitions lead from its state and version then to those now, its version has not fallen,
  -- and a completed session is completed at the same version.
  pub History-SessionSince :
      (t t1 : Tables F) (session_id : ℕ) (row : LearningSessionSnapshot)
      → History host source_id t t1
      → t.sessions session_id ≡ some row
      → (row' : LearningSessionSnapshot) × (t1.sessions session_id ≡ some row')
        × SessionSince row row'
  History-SessionSince t t1 session_id row history found =
      let extends = History-Extends host source_id history in
      let (row', still, evolves) = extends.sessions.row session_id row found in
      (row', still, Evolves-SessionSince evolves)

  -- The version of the session after a transition that was not journaled before.
  fresh-version :
      (learner : ℕ) (transition : SessionTransition) (graph topic : Option ℕ) (changes : Bool)
      (v : LearningSessionSnapshot) (t t1 : Tables F)
      → legal_transition transition ≡ ok tt
      → operation_of (transition_identity host learner transition graph topic changes) t.operations
        ≡ none
      → transition_learning_session host learner transition graph topic changes t ≡ ok (v, t1)
      → (t1.sessions transition.session_id ≡ some v) × (v.version ≡ transition.from_version + 1)
  unfolding transition_learning_session
  fresh-version learner transition graph topic changes v t t1 legal absent h =
      let (owner, t', _, worked, recorded) =
        journaled-fresh host.sessions (λ t. locked_session t learner transition.session_id)
          (transition_identity host learner transition graph topic changes)
          (make_transition host transition graph topic changes) v t t1 absent h in
      let (_, _, same, _, writes) =
        make_transition-writes host transition graph topic changes owner v t t' worked in
      (
        ap (λ (x : Tables F). x.sessions transition.session_id) recorded
            ∙ ap (λ (x : Tables F). x.sessions transition.session_id) writes
            ∙ put_same t.sessions transition.session_id (some v),
        ap LearningSessionSnapshot.version same ∙ legal-version transition legal,
      )

  stale-raises :
      (transition : SessionTransition) (graph topic : Option ℕ) (changes : Bool)
      (owner : LearningSessionSnapshot) (t : Tables F)
      → transition.from_version + 1 ≤ owner.version
      → make_transition host transition graph topic changes owner t
        ≡ raise (runtime_stale "Expected version")
  unfolding make_transition check_version
  stale-raises transition graph topic changes owner t later = ground (arith, later)

  -- No update is lost: of two transitions of a session from the same version, both by its learner, the
  -- first of which committed and was not journaled before, the second, if it is not journaled, is
  -- refused as stale after any history.
  pub transition_is_fenced :
      (learner : ℕ) (first second : SessionTransition) (graph topic graph' topic' : Option ℕ)
      (changes changes' : Bool) (v : LearningSessionSnapshot) (t t1 t2 : Tables F)
      → legal_transition first ≡ ok tt
      → operation_of (transition_identity host learner first graph topic changes) t.operations
        ≡ none
      → transition_learning_session host learner first graph topic changes t ≡ ok (v, t1)
      → History host source_id t1 t2
      → second.session_id ≡ first.session_id
      → second.from_version ≡ first.from_version
      → operation_of (transition_identity host learner second graph' topic' changes') t2.operations
        ≡ none
      → transition_learning_session host learner second graph' topic' changes' t2
        ≡ raise (runtime_stale "Expected version")
  unfolding transition_learning_session
  transition_is_fenced learner first second graph topic graph' topic' changes changes' v t t1 t2
        legal absent done history session version absent' =
      let (owner, locked, once) =
        transition_learning_session-Journaled host learner first graph topic changes v t t1 legal
          done in
      let (found, fresh) =
        fresh-version learner first graph topic changes v t t1 legal absent done in
      let extends = History-Extends host source_id history in
      let (owner', locked') =
        locked_session-Extends t t2 learner first.session_id owner
          (Extends-trans once.extends extends) locked in
      let (_, now, _) = locked_session-parts t2 learner first.session_id owner' locked' in
      let (row, still, since) = History-SessionSince t1 t2 first.session_id v history found in
      let same : row ≡ owner' = some_same (sym still ∙ now) in
      let later : v.version ≤ owner'.version =
        subst (λ (r : LearningSessionSnapshot). v.version ≤ r.version) same since.grows in
      journaled-raises host.sessions (λ t. locked_session t learner second.session_id)
        (transition_identity host learner second graph' topic' changes')
        (make_transition host second graph' topic' changes') t2 owner'
        (runtime_stale "Expected version")
        (subst (λ s. locked_session t2 learner s ≡ ok owner') (sym session) locked') absent'
        (stale-raises second graph' topic' changes' owner' t2
          (ground (arith, later, fresh, version)))
