-- ===== src/Runtime/History/Operate.antt =====
-- Every operation of packages/persistence/runtime.py and packages/persistence/remediation.py repeats its
-- value.
use autonomus_academic_assis.Base.{ℕ, ◌≡◌, ◌∙◌, ap, ok, then_ok, ◌>>◌}
use autonomus_academic_assis.Base.Floats.{Floats}
use autonomus_academic_assis.Session.{legal_transition, lifecycle}
use autonomus_academic_assis.Remediation.Frame.{frame_bounds}
use autonomus_academic_assis.Runtime.Values.{run_validators, reservation_bounds}
use autonomus_academic_assis.Triggers.Facts.{SourceIdentity}
use autonomus_academic_assis.Runtime.Tables.{Tables}
use autonomus_academic_assis.Runtime.Requests.{Host, unvalidated}
use autonomus_academic_assis.Runtime.Sessions.{create_learning_session, transition_learning_session}
use autonomus_academic_assis.Runtime.Frames.{
  create_remediation_frame, update_remediation_frame, record_frame_attempt,
}
use autonomus_academic_assis.Runtime.Stack.{push_remediation_frame, return_remediation_frame}
use autonomus_academic_assis.Runtime.Diagnostics.{
  create_diagnostic_run, reserve_diagnostic_question,
}
use autonomus_academic_assis.Runtime.Answers.{
  mark_diagnostic_reservation_attempted, acknowledge_diagnostic_reservation,
  complete_diagnostic_run,
}
use autonomus_academic_assis.Runtime.Calls.{
  Call, Value, creates_session, transitions_session, creates_frame, updates_frame, records_attempt,
  pushes_frame, returns_frame, creates_run, reserves_question, marks_attempted, acknowledges,
  completes_run, identity_of, validate_call, validate_value, GivesBack, session_value, frame_value,
  attempt_value, run_value, reservation_value, operate, perform,
}
use autonomus_academic_assis.Runtime.History.Sessions.{
  create_learning_session-Journaled, transition_learning_session-Journaled,
}
use autonomus_academic_assis.Runtime.History.Frames.{
  create_remediation_frame-Journaled, update_remediation_frame-Journaled,
  record_frame_attempt-Journaled,
}
use autonomus_academic_assis.Runtime.History.Stack.{
  push_remediation_frame-Journaled, return_remediation_frame-Journaled,
}
use autonomus_academic_assis.Runtime.History.Runs.{
  create_diagnostic_run-Journaled, reserve_diagnostic_question-Journaled,
  mark_diagnostic_reservation_attempted-Journaled, acknowledge_diagnostic_reservation-Journaled,
  complete_diagnostic_run-Journaled,
}
use autonomus_academic_assis.Runtime.History.Repeats.{
  ValueRepeats, learner_call-Repeats, session_call-Repeats,
}

module _ {F : Floats} (host : Host F) (source_id : SourceIdentity → ℕ) where
  operate-Repeats :
      (call : Call F) (w : Value F) (t t1 : Tables F)
      → validate_call call ≡ ok tt
      → operate host source_id call t ≡ ok (w, t1)
      → ValueRepeats host (operate host source_id call) (identity_of host source_id call) t w t1
  unfolding operate identity_of validate_call validate_value GivesBack create_learning_session
      transition_learning_session create_remediation_frame update_remediation_frame
      record_frame_attempt push_remediation_frame return_remediation_frame create_diagnostic_run
      reserve_diagnostic_question mark_diagnostic_reservation_attempted
      acknowledge_diagnostic_reservation complete_diagnostic_run
  operate-Repeats (creates_session value) w t t1 valid h =
      learner_call-Repeats host session_value host.sessions lifecycle (λ v g. g)
        (λ v r laws. r laws.sessions) _ value.learner_id _ w t t1
        (λ v. create_learning_session-Journaled host value v t t1 valid) h
  operate-Repeats (transitions_session learner transition graph topic changes) w t t1 valid h =
      session_call-Repeats host session_value host.sessions lifecycle (λ v g. g)
        (λ v r laws. r laws.sessions) _ learner transition.session_id _ w t t1
        (λ v.
          transition_learning_session-Journaled host learner transition graph topic changes v t t1
            valid)
        h
  operate-Repeats (creates_frame learner value version at) w t t1 valid h =
      session_call-Repeats host frame_value host.frames frame_bounds (λ v g. g)
        (λ v r laws. r laws.frames) _ learner value.session_id _ w t t1
        (λ v. create_remediation_frame-Journaled host learner value v version at t t1 valid) h
  operate-Repeats (updates_frame learner value expected version at) w t t1 valid h =
      session_call-Repeats host frame_value host.frames frame_bounds (λ v g. g)
        (λ v r laws. r laws.frames) _ learner value.session_id _ w t t1
        (λ v.
          update_remediation_frame-Journaled host learner value v expected version at t t1 valid)
        h
  operate-Repeats (records_attempt learner session value expected) w t t1 valid h =
      session_call-Repeats host attempt_value host.frame_attempts unvalidated (λ v g. g)
        (λ v r laws. r laws.frame_attempts) _ learner session _ w t t1
        (λ v. record_frame_attempt-Journaled host learner session value v expected t t1) h
  operate-Repeats (pushes_frame learner value version at) w t t1 valid h =
      session_call-Repeats host frame_value host.frames frame_bounds (λ v g. g)
        (λ v r laws. r laws.frames) _ learner value.session_id _ w t t1
        (λ v. push_remediation_frame-Journaled host learner value v version at t t1 valid) h
  operate-Repeats (returns_frame learner value version transition) w t t1 valid h =
      let (_, legal) = then_ok (frame_bounds value) (legal_transition transition) valid in
      session_call-Repeats host frame_value host.frames frame_bounds (λ v g. g)
        (λ v r laws. r laws.frames) _ learner value.session_id _ w t t1
        (λ v. return_remediation_frame-Journaled host learner value v version transition t t1 legal)
        h
  operate-Repeats (creates_run value) w t t1 valid h =
      session_call-Repeats host run_value host.runs run_validators (λ v g. g)
        (λ v r laws. r laws.runs) _ value.diagnostic.learner_id value.session_id _ w t t1
        (λ v. create_diagnostic_run-Journaled host source_id value v t t1 valid) h
  operate-Repeats
        (reserves_question learner session run reservation execution question concept version at) w
        t t1 valid h =
      session_call-Repeats host reservation_value host.reservations reservation_bounds (λ v g. g)
        (λ v r laws. r laws.reservations) _ learner session _ w t t1
        (λ v.
          reserve_diagnostic_question-Journaled host learner session run reservation execution
            question concept version at v t t1)
        h
  operate-Repeats (marks_attempted learner session reservation attempt event version at) w t t1
        valid h =
      session_call-Repeats host reservation_value host.reservations reservation_bounds (λ v g. g)
        (λ v r laws. r laws.reservations) _ learner session _ w t t1
        (λ v.
          mark_diagnostic_reservation_attempted-Journaled host learner session reservation attempt
            event version at v t t1)
        h
  operate-Repeats (acknowledges learner session value version event) w t t1 valid h =
      session_call-Repeats host reservation_value host.reservations reservation_bounds (λ v g. g)
        (λ v r laws. r laws.reservations) _ learner session _ w t t1
        (λ v.
          acknowledge_diagnostic_reservation-Journaled host learner session value v version event t
            t1 valid)
        h
  operate-Repeats (completes_run learner session run version event at cancels) w t t1 valid h =
      session_call-Repeats host run_value host.runs run_validators (λ v g. g)
        (λ v r laws. r laws.runs) _ learner session _ w t t1
        (λ v.
          complete_diagnostic_run-Journaled host learner session run version event at cancels v t
            t1)
        h

  pub perform-Repeats :
      (call : Call F) (w : Value F) (t t1 : Tables F)
      → perform host source_id call t ≡ ok (w, t1)
      → ValueRepeats host (perform host source_id call) (identity_of host source_id call) t w t1
  unfolding perform
  perform-Repeats call w t t1 h =
      let (valid, done) = then_ok (validate_call call) (operate host source_id call t) h in
      let r = operate-Repeats call w t t1 valid done in
      record {
        extends = r.extends;
        again =
            λ loads t2 e. ap (λ m. m >> operate host source_id call t2) valid ∙ r.again loads t2 e;
        valid = r.valid;
        journaled_row = r.journaled_row;
        settles = r.settles;
      }
