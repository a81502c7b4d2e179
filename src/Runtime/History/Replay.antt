-- ===== src/Runtime/History/Replay.antt =====
-- A call that returned gives the same value ever after, and changes nothing again:
-- packages/persistence/runtime.py and packages/persistence/remediation.py.
use autonomus_academic_assis.Base.{ℕ, Option, some, ◌≡◌, refl, sym, subst, ◌∙◌, ap, ok}
use autonomus_academic_assis.Base.Floats.{Floats}
use autonomus_academic_assis.Session.{LearningSessionSnapshot}
use autonomus_academic_assis.Session.Path.{arrived}
use autonomus_academic_assis.Triggers.Facts.{SourceIdentity}
use autonomus_academic_assis.Runtime.Tables.{Tables}
use autonomus_academic_assis.Runtime.Journal.{Identity, operation_of}
use autonomus_academic_assis.Runtime.Requests.{Host, Validates}
use autonomus_academic_assis.Runtime.Calls.{
  Call, Value, identity_of, validate_value, GivesBack, perform, planned, SameKey, Elsewhere,
  History, start, commits, elsewhere,
}
use autonomus_academic_assis.Runtime.Bookings.{Bookings, unchanged}
use autonomus_academic_assis.Runtime.History.{
  Evolves, Kept, SameFrame, Extends, Extends-refl, Extends-trans,
}
use autonomus_academic_assis.Runtime.History.Operate.{perform-Repeats}

module _ {F : Floats} (host : Host F) (source_id : SourceIdentity → ℕ) where
  Kept-planned :
      (f g : ℕ → Option LearningSessionSnapshot)
      → ((id : ℕ) → (head : Option ℕ) × (g id ≡ planned head (f id)))
      → Kept Evolves f g
  Kept-planned f g heads = record {
    row = λ k a found.
        let (head, writes) = heads k in
        (
          record a { current_plan_version_id = head },
          writes ∙ ap (planned head) found,
          record {
            same_learner = refl;
            same_course = refl;
            same_creation = refl;
            path = (0, arrived);
          },
        );
  }

  Elsewhere-Extends : (t t1 : Tables F) → Elsewhere t t1 → Extends t t1
  Elsewhere-Extends t t1 e =
      let s = Extends-refl t in
      record {
        learners = e.learners;
        sessions = Kept-planned t.sessions t1.sessions e.sessions;
        frames = subst (Kept SameFrame t.frames) (sym e.frames) s.frames;
        bookings =
            subst (λ f. Bookings t.runs t.reservations f t1.reservations) (sym e.runs)
              (subst (Bookings t.runs t.reservations t.runs) (sym e.reservations) unchanged);
        operations = e.operations;
      }

  -- Along a history every learner, every session, every frame and every journaled result stays.
  pub History-Extends : {t t1 : Tables F} → History host source_id t t1 → Extends t t1
  History-Extends start = Extends-refl _
  History-Extends (commits {t1 = t1} {t2 = t2} call value history done) =
      let r = perform-Repeats host source_id call value t1 t2 done in
      Extends-trans (History-Extends history) r.extends
  History-Extends (elsewhere {t1 = t1} {t2 = t2} history writes) =
      Extends-trans (History-Extends history) (Elsewhere-Extends t1 t2 writes)

  -- A call that returned, made again after any history of committed calls and of other modules'
  -- writes, gives the same value and leaves the tables as they are. It needs that the
  -- serialization of the value gives it back.
  pub perform-again :
      (call : Call F) (value : Value F) (t t1 t2 : Tables F)
      → GivesBack host value
      → perform host source_id call t ≡ ok (value, t1)
      → History host source_id t1 t2
      → perform host source_id call t2 ≡ ok (value, t2)
  perform-again call value t t1 t2 loads done history =
      let r = perform-Repeats host source_id call value t t1 done in
      r.again loads t2 (History-Extends history)

  -- The validators accept every value that a call gives, also the one that an operation copies
  -- without running them and the one that it reads from the journal. It needs that what pydantic
  -- reads its validators accept.
  pub perform_is_valid :
      (call : Call F) (value : Value F) (t t1 : Tables F)
      → Validates host
      → perform host source_id call t ≡ ok (value, t1)
      → validate_value value ≡ ok tt
  perform_is_valid call value t t1 laws done =
      let r = perform-Repeats host source_id call value t t1 done in r.valid laws

  -- An identity is used once: a call that returns after a call with its kind, scope and source has
  -- returned, and after any history, had the same learner and the same request, and changes
  -- nothing.
  pub perform-settles :
      (call other : Call F) (value value' : Value F) (t t1 t2 t3 : Tables F)
      → SameKey (identity_of host source_id call) (identity_of host source_id other)
      → perform host source_id call t ≡ ok (value, t1)
      → History host source_id t1 t2
      → perform host source_id other t2 ≡ ok (value', t3)
      → (Identity.learner_id (identity_of host source_id call)
          ≡ Identity.learner_id (identity_of host source_id other))
        × (Identity.request (identity_of host source_id call)
            ≡ Identity.request (identity_of host source_id other))
        × (t3 ≡ t2)
  perform-settles call other value value' t t1 t2 t3 key done history again =
      let first = perform-Repeats host source_id call value t t1 done in
      let second = perform-Repeats host source_id other value' t2 t3 again in
      let (row, found, learner, request) = first.journaled_row in
      let extends = History-Extends history in
      let still = extends.operations (identity_of host source_id call) row found in
      let moved : operation_of (identity_of host source_id other) t2.operations ≡ some row =
        cc (still, key.0, key.1, key.2) in
      let (learner', request', same) = second.settles row moved in
      (sym learner ∙ learner', sym request ∙ request', same)
