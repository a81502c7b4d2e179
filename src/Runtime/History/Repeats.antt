-- ===== src/Runtime/History/Repeats.antt =====
-- What it is that an operation of packages/persistence/runtime.py repeats its value: the frame around its
-- work gives the journaled value on whatever extends the tables that it left.
use autonomus_academic_assis.Base.{ℕ, some, ◌≡◌, sym, subst, ◌∙◌, ap, arith, Result, ok, raise}
use autonomus_academic_assis.Base.Floats.{Floats}
use autonomus_academic_assis.Session.{LearningSessionSnapshot}
use autonomus_academic_assis.Runtime.Tables.{Tables, RuntimeOperation}
use autonomus_academic_assis.Runtime.Journal.{
  Codec, Validated, Identity, operation_of, lock_runtime_learner, locked_session, journaled,
}
use autonomus_academic_assis.Runtime.Requests.{Host, Validates}
use autonomus_academic_assis.Runtime.Calls.{Value, wrap, validate_value, GivesBack}
use autonomus_academic_assis.Runtime.History.{Extends, Extends-trans}
use autonomus_academic_assis.Runtime.History.Locks.{
  lock_runtime_learner-Extends, locked_session-Extends,
}
use autonomus_academic_assis.Runtime.History.Once.{Journaled, Recorded-Extends, journaled-replays}

module _ {F : Floats} where
  -- An operation that led from `t` to `t1` repeats its value on whatever extends `t1`, if `Loads`
  -- holds; and it gives what `Valid` says.
  pub record Repeats {A : Type 0} (operation : Tables F → Result (A × Tables F)) (id : Identity)
      (Loads Valid : Type 0) (t : Tables F) (value : A) (t1 : Tables F) : Type 0 where
    pub extends : Extends t t1
    pub again : Loads → (t2 : Tables F) → Extends t1 t2 → operation t2 ≡ ok (value, t2)
    pub valid : Valid
    pub journaled_row :
        (row : RuntimeOperation) × (operation_of id t1.operations ≡ some row)
        × (row.learner_id ≡ id.learner_id)
        × (row.request_bytes ≡ id.request)
    pub settles :
        (row : RuntimeOperation)
        → operation_of id t.operations ≡ some row
        → (row.learner_id ≡ id.learner_id) × (row.request_bytes ≡ id.request) × (t1 ≡ t)

  module _ {A : Type 0} (codec : Codec A) (validator : A → Result (Unit {0})) (id : Identity)
      {Loads Valid : Type 0} (value : A) (t t1 : Tables F)
      (gives_back : Loads → codec.load (codec.dump value) ≡ ok value)
      (is_valid : (Validated codec validator → validator value ≡ ok tt) → Valid) where
    learner-Repeats :
        (learner : ℕ) (work : Unit {0} → Tables F → Result (A × Tables F))
        → (owner : Unit {0}) × (lock_runtime_learner t learner ≡ ok owner)
          × Journaled codec validator id value t t1
        → Repeats
            (journaled codec (λ t. lock_runtime_learner t learner) id work)
            id
            Loads
            Valid
            t
            value
            t1
    learner-Repeats learner work (owner, locked, j) = record {
      extends = j.extends;
      again = λ loads t2 e.
          journaled-replays codec (λ t. lock_runtime_learner t learner) id work value t2 tt
            (lock_runtime_learner-Extends t t2 learner owner (Extends-trans j.extends e) locked)
            (gives_back loads) (Recorded-Extends id j.recorded e);
      valid = is_valid j.valid;
      journaled_row =
          (j.recorded.row, j.recorded.found, j.recorded.same_learner, j.recorded.same_request);
      settles = j.settles;
    }

    session-Repeats :
        (learner session : ℕ) (work : LearningSessionSnapshot → Tables F → Result (A × Tables F))
        → (owner : LearningSessionSnapshot) × (locked_session t learner session ≡ ok owner)
          × Journaled codec validator id value t t1
        → Repeats
            (journaled codec (λ t. locked_session t learner session) id work)
            id
            Loads
            Valid
            t
            value
            t1
    session-Repeats learner session work (owner, locked, j) = record {
      extends = j.extends;
      again = λ loads t2 e.
          let (owner', again) =
            locked_session-Extends t t2 learner session owner (Extends-trans j.extends e) locked in
          journaled-replays codec (λ t. locked_session t learner session) id work value t2 owner'
            again (gives_back loads) (Recorded-Extends id j.recorded e);
      valid = is_valid j.valid;
      journaled_row =
          (j.recorded.row, j.recorded.found, j.recorded.same_learner, j.recorded.same_request);
      settles = j.settles;
    }

  wrap_ok :
      {A : Type 0} (f : A → Value F) (m : Result (A × Tables F)) (w : Value F) (t1 : Tables F)
      → wrap f m ≡ ok (w, t1)
      → (v : A) × (m ≡ ok (v, t1)) × (w ≡ f v)
  wrap_ok f (raise e) w t1 h = absurd (cc h)
  wrap_ok f (ok (v, t2)) w t1 h =
      let same : t2 ≡ t1 = ground (arith, h) in (v, ap (λ t. ok (v, t)) same, ground (arith, h))

  wrap-Repeats :
      {A : Type 0} (f : A → Value F) (Loads Valid : Value F → Type 0)
      (operation : Tables F → Result (A × Tables F)) (id : Identity) (w : Value F) (t t1 : Tables F)
      → ((v : A)
          → operation t ≡ ok (v, t1)
          → Repeats operation id (Loads (f v)) (Valid (f v)) t v t1)
      → wrap f (operation t) ≡ ok (w, t1)
      → Repeats (λ t. wrap f (operation t)) id (Loads w) (Valid w) t w t1
  wrap-Repeats f Loads Valid operation id w t t1 repeats h =
      let (v, done, same) = wrap_ok f (operation t) w t1 h in
      let r = repeats v done in
      record {
        extends = r.extends;
        again = λ loads t2 e.
            ap (wrap f) (r.again (subst Loads same loads) t2 e) ∙ ap (λ x. ok (x, t2)) (sym same);
        valid = subst Valid (sym same) r.valid;
        journaled_row = r.journaled_row;
        settles = r.settles;
      }

module _ {F : Floats} (host : Host F) where
  -- That the serialization gives the value back, and that the validators accept it.
  abbrev pub ValueRepeats :
      (operation : Tables F → Result (Value F × Tables F))
      → Identity
      → Tables F
      → Value F
      → Tables F
      → Type 0
  ValueRepeats operation id t w t1 =
      Repeats operation id (GivesBack host w) (Validates host → validate_value w ≡ ok tt) t w t1

  -- A call of an operation that locks a session.
  module _ {A : Type 0} (f : A → Value F) (codec : Codec A) (validator : A → Result (Unit {0}))
      (gives_back : (v : A) → GivesBack host (f v) → codec.load (codec.dump v) ≡ ok v)
      (is_valid : (v : A)
        → (Validated codec validator → validator v ≡ ok tt)
        → Validates host
        → validate_value (f v) ≡ ok tt) where
    pub session_call-Repeats :
        (id : Identity) (learner session : ℕ)
        (work : LearningSessionSnapshot → Tables F → Result (A × Tables F)) (w : Value F)
        (t t1 : Tables F)
        → ((v : A)
            → journaled codec (λ t. locked_session t learner session) id work t ≡ ok (v, t1)
            → (owner : LearningSessionSnapshot) × (locked_session t learner session ≡ ok owner)
              × Journaled codec validator id v t t1)
        → wrap f (journaled codec (λ t. locked_session t learner session) id work t) ≡ ok (w, t1)
        → ValueRepeats
            (λ t. wrap f (journaled codec (λ t. locked_session t learner session) id work t))
            id
            t
            w
            t1
    session_call-Repeats id learner session work w t t1 journal h =
        wrap-Repeats f (GivesBack host) (λ w. Validates host → validate_value w ≡ ok tt)
          (journaled codec (λ t. locked_session t learner session) id work) id w t t1
          (λ v done.
            session-Repeats codec validator id v t t1 (gives_back v) (is_valid v) learner session
              work (journal v done))
          h

    pub learner_call-Repeats :
        (id : Identity) (learner : ℕ) (work : Unit {0} → Tables F → Result (A × Tables F))
        (w : Value F) (t t1 : Tables F)
        → ((v : A)
            → journaled codec (λ t. lock_runtime_learner t learner) id work t ≡ ok (v, t1)
            → (owner : Unit {0}) × (lock_runtime_learner t learner ≡ ok owner)
              × Journaled codec validator id v t t1)
        → wrap f (journaled codec (λ t. lock_runtime_learner t learner) id work t) ≡ ok (w, t1)
        → ValueRepeats
            (λ t. wrap f (journaled codec (λ t. lock_runtime_learner t learner) id work t))
            id
            t
            w
            t1
    learner_call-Repeats id learner work w t t1 journal h =
        wrap-Repeats f (GivesBack host) (λ w. Validates host → validate_value w ≡ ok tt)
          (journaled codec (λ t. lock_runtime_learner t learner) id work) id w t t1
          (λ v done.
            learner-Repeats codec validator id v t t1 (gives_back v) (is_valid v) learner work
              (journal v done))
          h
