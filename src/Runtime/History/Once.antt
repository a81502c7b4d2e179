-- ===== src/Runtime/History/Once.antt =====
-- The journal of packages/persistence/runtime.py: an operation that returned is journaled with its value,
-- and while it is, an equal call gives back the value and changes nothing.
use autonomus_academic_assis.Base.{
  true, false, Option, none, some, List, ◌∷◌, String, ◌≡◌, refl, sym, subst, ◌∙◌, arith, ◌==◌,
  str_eq, eq_iff, Result, Exception, ok, raise, bind_ok, ◌>>=◌, Bool-cases, inl, inr, Option-cases,
  some_same, is_some, ◌&&◌,
}
use autonomus_academic_assis.Base.Floats.{Floats}
use autonomus_academic_assis.Runtime.Tables.{Tables, RuntimeOperation}
use autonomus_academic_assis.Runtime.Journal.{
  Codec, Validated, Identity, operation_at, operation_of, recorded_row, prior_result, record_result,
  work_once, journaled,
}
use autonomus_academic_assis.Runtime.History.{Extends, Extends-refl, Extends-trans}

-- What a new row answers: its own identity's question, and no other.
operation_of-recorded :
    (id other : Identity) (result : String) (rows : List RuntimeOperation) (row : RuntimeOperation)
    → is_some (operation_of other rows) ≡ false
    → operation_of id rows ≡ some row
    → operation_of id (recorded_row other result ∷ rows) ≡ some row
unfolding operation_at
operation_of-recorded id other result rows row absent found =
    elim (Bool-cases (
      str_eq other.kind id.kind
      && (other.scope_id == id.scope_id)
      && (other.source_id == id.source_id))) [
        | inl same ↦
            let kinds = (eq_iff other.kind id.kind).0 (ground (arith, same)) in
            let scopes : other.scope_id ≡ id.scope_id = ground (arith, same) in
            let sources : other.source_id ≡ id.source_id = ground (arith, same) in
            absurd (cc (absent, found, kinds, scopes, sources))
        | inr n ↦ ground (arith, n, found)
      ]

operation_of-new :
    (id : Identity) (result : String) (rows : List RuntimeOperation)
    → operation_of id (recorded_row id result ∷ rows) ≡ some (recorded_row id result)
unfolding operation_at
operation_of-new id result rows = let same = (eq_iff id.kind id.kind).1 refl in ground (arith, same)

module _ {F : Floats} where
  record_result-writes :
      (t t1 : Tables F) (id : Identity) (result : String)
      → record_result t id result ≡ ok t1
      → (t1 ≡ record t { operations = recorded_row id result ∷ t.operations })
        × (is_some (operation_of id t.operations) ≡ false)
  unfolding record_result
  record_result-writes t t1 id result h = ground (arith, h)

  recorded-Extends :
      (t : Tables F) (id : Identity) (result : String)
      → is_some (operation_of id t.operations) ≡ false
      → Extends t (record t { operations = recorded_row id result ∷ t.operations })
  recorded-Extends t id result absent =
      let e = Extends-refl t in
      record {
        learners = e.learners;
        sessions = e.sessions;
        frames = e.frames;
        bookings = e.bookings;
        operations =
            λ key row found. operation_of-recorded key id result t.operations row absent found;
      }

  -- The journal answers the identity, with the value if the serialization gives it back.
  pub record Recorded {A : Type 0} (codec : Codec A) (id : Identity) (value : A) (t : Tables F)
      : Type 0 where
    pub row : RuntimeOperation
    pub found : operation_of id t.operations ≡ some row
    pub same_learner : row.learner_id ≡ id.learner_id
    pub same_request : row.request_bytes ≡ id.request
    pub answers : codec.load (codec.dump value) ≡ ok value → codec.load row.result_bytes ≡ ok value

  pub Recorded-Extends :
      {A : Type 0} {codec : Codec A} (id : Identity) {value : A} {t t' : Tables F}
      → Recorded codec id value t
      → Extends t t'
      → Recorded codec id value t'
  Recorded-Extends id r e = record {
    row = r.row;
    found = e.operations id r.row r.found;
    same_learner = r.same_learner;
    same_request = r.same_request;
    answers = r.answers;
  }

  -- What holds of a call that returned: it keeps what the tables keep, it is journaled with its
  -- value, its value is valid, and if it was journaled before, it had the same learner and
  -- request and changed nothing.
  pub record Journaled {A : Type 0} (codec : Codec A) (validator : A → Result (Unit {0}))
      (id : Identity) (value : A) (t t1 : Tables F) : Type 0 where
    pub extends : Extends t t1
    pub recorded : Recorded codec id value t1
    pub settles :
        (row : RuntimeOperation)
        → operation_of id t.operations ≡ some row
        → (row.learner_id ≡ id.learner_id) × (row.request_bytes ≡ id.request) × (t1 ≡ t)
    pub valid : Validated codec validator → validator value ≡ ok tt

  prior_row :
      (t : Tables F) (id : Identity) (bytes : String)
      → prior_result t id ≡ ok (some bytes)
      → (row : RuntimeOperation) × (operation_of id t.operations ≡ some row)
        × (row.learner_id ≡ id.learner_id)
        × (row.request_bytes ≡ id.request)
        × (row.result_bytes ≡ bytes)
  unfolding prior_result
  prior_row t id bytes h = elim (Option-cases (operation_of id t.operations)) [
    | inl absent ↦ absurd (ground (arith, h, absent))
    | inr (row, found) ↦
        let asked : str_eq row.request_bytes id.request ≡ true = ground (arith, h, found) in
        (
          row,
          found,
          ground (arith, h, found),
          (eq_iff row.request_bytes id.request).0 asked,
          ground (arith, h, found),
        )
  ]

  prior_none :
      (t : Tables F) (id : Identity)
      → prior_result t id ≡ ok none
      → operation_of id t.operations ≡ none
  unfolding prior_result
  prior_none t id h = ground (arith, h)

  abbrev with_value : {A : Type 0} → A → Tables F → Result (A × Tables F)
  with_value value t = ok (value, t)

  module _ {A : Type 0} (codec : Codec A) where
    -- An equal call gives the journaled value back.
    pub journaled-replays :
        {L : Type 0} (lock : Tables F → Result L) (id : Identity)
        (work : L → Tables F → Result (A × Tables F)) (value : A) (t : Tables F) (owner : L)
        → lock t ≡ ok owner
        → codec.load (codec.dump value) ≡ ok value
        → Recorded codec id value t
        → journaled codec lock id work t ≡ ok (value, t)
    unfolding journaled prior_result
    journaled-replays lock id work value t owner locked loads r =
        let same = (eq_iff r.row.request_bytes id.request).1 r.same_request in
        let answer = r.answers loads in
        ground (arith, locked, r.found, r.same_learner, same, answer)

    -- A call whose identity is not journaled works: if it returns, its work does, and the journal
    -- gains its row; if its work raises, it raises.
    pub journaled-fresh :
        {L : Type 0} (lock : Tables F → Result L) (id : Identity)
        (work : L → Tables F → Result (A × Tables F)) (v : A) (t t1 : Tables F)
        → operation_of id t.operations ≡ none
        → journaled codec lock id work t ≡ ok (v, t1)
        → (owner : L) × (t' : Tables F) × (lock t ≡ ok owner)
          × (work owner t ≡ ok (v, t'))
          × (t1 ≡ record t' { operations = recorded_row id (codec.dump v) ∷ t'.operations })
    unfolding journaled prior_result work_once
    journaled-fresh {L = L} lock id work v t t1 absent h =
        let continue : L → Result (A × Tables F) =
          λ owner. work_once codec id none (work owner) t in
        let (owner, locked, rest) =
          bind_ok (lock t)
            (λ owner. prior_result t id >>= λ prior. work_once codec id prior (work owner) t) h in
        let same : continue owner ≡ ok (v, t1) = ground (arith, absent, rest) in
        let ((value, t'), worked, last) =
          bind_ok (work owner t)
            (λ (r : A × Tables F).
              record_result r.1 id (codec.dump r.0) >>= λ t2. with_value r.0 t2)
            same in
        let (t3, recorded, end) =
          bind_ok (record_result t' id (codec.dump value)) (λ t2. with_value value t2) last in
        let (writes, _) = record_result-writes t' t3 id (codec.dump value) recorded in
        let value_same : value ≡ v = ground (arith, end) in
        let t_same : t3 ≡ t1 = ground (arith, end) in
        (
          owner,
          t',
          locked,
          subst (λ x. work owner t ≡ ok (x, t')) value_same worked,
          subst
              (λ x. t1 ≡ record t' { operations = recorded_row id (codec.dump x) ∷ t'.operations })
              value_same (sym t_same ∙ writes),
        )

    pub journaled-raises :
        {L : Type 0} (lock : Tables F → Result L) (id : Identity)
        (work : L → Tables F → Result (A × Tables F)) (t : Tables F) (owner : L) (e : Exception)
        → lock t ≡ ok owner
        → operation_of id t.operations ≡ none
        → work owner t ≡ raise e
        → journaled codec lock id work t ≡ raise e
    unfolding journaled prior_result work_once
    journaled-raises lock id work t owner e locked absent fails =
        ground (arith, locked, absent, fails)

    -- A call that returned is journaled, if its work keeps what the tables keep and gives a valid
    -- value.
    module _ (validator : A → Result (Unit {0})) where
      replayed-Journaled :
          (id : Identity) (bytes : String) (v : A) (t t1 : Tables F)
          → prior_result t id ≡ ok (some bytes)
          → (codec.load bytes >>= λ value. with_value value t) ≡ ok (v, t1)
          → Journaled codec validator id v t t1
      replayed-Journaled id bytes v t t1 prior h =
          let (value, loaded, rest) = bind_ok (codec.load bytes) (λ value. with_value value t) h in
          let (row, found, learner, request, answer) = prior_row t id bytes prior in
          let same : t ≡ t1 = ground (arith, rest) in
          let value_same : value ≡ v = ground (arith, rest) in
          record {
            extends = subst (Extends t) same (Extends-refl t);
            recorded = subst (Recorded codec id v) same (record {
              row = row;
              found = found;
              same_learner = learner;
              same_request = request;
              answers = λ _. cc (answer, loaded, value_same);
            });
            settles = λ other is_row.
                let rows = some_same (sym found ∙ is_row) in
                (
                  subst (λ (r : RuntimeOperation). r.learner_id ≡ id.learner_id) rows learner,
                  subst (λ (r : RuntimeOperation). r.request_bytes ≡ id.request) rows request,
                  sym same,
                );
            valid = λ law. law.accepts bytes v (cc (loaded, value_same));
          }

      fresh-Journaled :
          (id : Identity) (value v : A) (t t1 t2 : Tables F)
          → prior_result t id ≡ ok none
          → (Validated codec validator → validator value ≡ ok tt)
          → Extends t t1
          → (record_result t1 id (codec.dump value) >>= λ t2. with_value value t2) ≡ ok (v, t2)
          → Journaled codec validator id v t t2
      fresh-Journaled id value v t t1 t2 prior valid extends h =
          let (t3, recorded, rest) =
            bind_ok (record_result t1 id (codec.dump value)) (λ t2. with_value value t2) h in
          let (writes, absent) = record_result-writes t1 t3 id (codec.dump value) recorded in
          let same : t3 ≡ t2 = ground (arith, rest) in
          let value_same : value ≡ v = ground (arith, rest) in
          let whole = sym writes ∙ same in
          record {
            extends =
                subst (Extends t) whole
                  (Extends-trans extends (recorded-Extends t1 id (codec.dump value) absent));
            recorded = subst (Recorded codec id v) whole (record {
              row = recorded_row id (codec.dump value);
              found = operation_of-new id (codec.dump value) t1.operations;
              same_learner = refl;
              same_request = refl;
              answers = λ loads. cc (loads, value_same);
            });
            settles = λ row found. absurd (ground (arith, prior_none t id prior, found));
            valid = λ law. subst (λ r. validator r ≡ ok tt) value_same (valid law);
          }

      work_once-Journaled :
          (id : Identity) (prior : Option String) (work : Tables F → Result (A × Tables F)) (v : A)
          (t t1 : Tables F)
          → prior_result t id ≡ ok prior
          → ((v : A) (t1 : Tables F)
              → work t ≡ ok (v, t1)
              → (Validated codec validator → validator v ≡ ok tt) × Extends t t1)
          → work_once codec id prior work t ≡ ok (v, t1)
          → Journaled codec validator id v t t1
      unfolding work_once
      work_once-Journaled id (some bytes) work v t t1 prior works h =
          replayed-Journaled id bytes v t t1 prior h
      work_once-Journaled id none work v t t1 prior works h =
          let ((value, t2), worked, rest) =
            bind_ok (work t)
              (λ (r : A × Tables F).
                record_result r.1 id (codec.dump r.0) >>= λ t2. with_value r.0 t2)
              h in
          let (valid, extends) = works value t2 worked in
          fresh-Journaled id value v t t2 t1 prior valid extends rest

      pub journaled-Journaled :
          {L : Type 0} (lock : Tables F → Result L) (id : Identity)
          (work : L → Tables F → Result (A × Tables F)) (v : A) (t t1 : Tables F)
          → ((owner : L)
              → lock t ≡ ok owner
              → (v : A) (t1 : Tables F) → work owner t ≡ ok (v, t1)
              → (Validated codec validator → validator v ≡ ok tt) × Extends t t1)
          → journaled codec lock id work t ≡ ok (v, t1)
          → (owner : L) × (lock t ≡ ok owner) × Journaled codec validator id v t t1
      unfolding journaled
      journaled-Journaled lock id work v t t1 works h =
          let (owner, locked, rest) =
            bind_ok (lock t)
              (λ owner. prior_result t id >>= λ prior. work_once codec id prior (work owner) t) h in
          let (prior, looked, last) =
            bind_ok (prior_result t id) (λ prior. work_once codec id prior (work owner) t) rest in
          (
            owner,
            locked,
            work_once-Journaled id prior (work owner) v t t1 looked (works owner locked) last,
          )
