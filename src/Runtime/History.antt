-- ===== src/Runtime/History.antt =====
-- What the operations of packages/persistence/runtime.py keep of the tables: learners, journaled results,
-- and the sessions and frames with what identifies them.
pub mod Once
pub mod Locks
pub mod Sessions
pub mod Frames
pub mod Runs
pub mod Stack
pub mod Repeats
pub mod Operate
pub mod Replay
pub mod Versions
pub mod Restore
pub mod Budget
pub mod Final
use autonomus_academic_assis.Base.{
  ℕ, ◌+◌, Bool, true, false, Option, none, some, ◌≡◌, refl, sym, ◌∙◌, subst, inl, inr, arith,
  is_some, ◌==◌, put, Bool-cases, if_holds, some_same, ap,
}
use autonomus_academic_assis.Base.Floats.{Floats}
use autonomus_academic_assis.Session.{SessionState, LearningSessionSnapshot}
use autonomus_academic_assis.Session.Path.{Transitions, arrived, moved}
use autonomus_academic_assis.Remediation.Frame.{RemediationFrameSnapshot}
use autonomus_academic_assis.Runtime.Tables.{Tables, RuntimeOperation, RemediationFrameRow}
use autonomus_academic_assis.Runtime.Bookings.{Bookings, unchanged, Bookings-trans}
use autonomus_academic_assis.Runtime.Journal.{Identity, operation_of, recorded_row}

pub Transitions-trans :
    {t : SessionState} {w : ℕ} {s : SessionState} {v n : ℕ} {r : SessionState} {u m : ℕ}
    → Transitions t w s v n
    → Transitions s v r u m
    → (k : ℕ) × Transitions t w r u k
Transitions-trans path arrived = (_, path)
Transitions-trans path (moved step legal rest) =
    let (_, whole) = Transitions-trans path rest in (_, moved step legal whole)

-- A session at two times: the same learner, course and creation, and legal transitions between.
pub record Evolves (before after : LearningSessionSnapshot) : Type 0 where
  pub same_learner : after.learner_id ≡ before.learner_id
  pub same_course : after.course_id ≡ before.course_id
  pub same_creation : after.created_at ≡ before.created_at
  pub path : (n : ℕ) × Transitions after.state after.version before.state before.version n

pub Evolves-refl : (row : LearningSessionSnapshot) → Evolves row row
Evolves-refl row = record {
  same_learner = refl;
  same_course = refl;
  same_creation = refl;
  path = (0, arrived);
}

pub Evolves-trans : {a b c : LearningSessionSnapshot} → Evolves a b → Evolves b c → Evolves a c
Evolves-trans p q = record {
  same_learner = q.same_learner ∙ p.same_learner;
  same_course = q.same_course ∙ p.same_course;
  same_creation = q.same_creation ∙ p.same_creation;
  path = Transitions-trans (q.path.1) (p.path.1);
}

module _ {A : Type 0} (R : A → A → Type 0) where
  -- Every row is still there, related to what it was.
  pub record Kept (f g : ℕ → Option A) : Type 0 where
    pub row : (k : ℕ) (a : A) → f k ≡ some a → (b : A) × (g k ≡ some b) × R a b

  pub Kept-refl : ((a : A) → R a a) → (f : ℕ → Option A) → Kept f f
  Kept-refl same f = record { row = λ k a e. (a, e, same a) }

  pub Kept-trans :
      ((a b c : A) → R a b → R b c → R a c)
      → {f g h : ℕ → Option A} → Kept f g
      → Kept g h
      → Kept f h
  Kept-trans join p q = record {
    row = λ k a e.
        let (b, found, r) = p.row k a e in
        let (c, again, s) = q.row k b found in (c, again, join a b c r s);
  }

  pub Kept-put :
      ((a : A) → R a a)
      → (f : ℕ → Option A) (k : ℕ) (new : A) → ((old : A) → f k ≡ some old → R old new)
      → Kept f (put f k (some new))
  Kept-put same f k new moves = record {
    row = λ x a e. elim (Bool-cases (x == k)) [
      | inl at ↦
          let key : x ≡ k = ground (arith, at) in
          (new, ground (arith, at), moves a (subst (λ y. f y ≡ some a) key e))
      | inr off ↦ (a, ground (arith, off, e), same a)
    ];
  }

-- What never changes in a frame.
pub record SameFrame {F : Floats} (a b : RemediationFrameRow F) : Type 0 where
  pub session : b.snapshot.session_id ≡ a.snapshot.session_id
  pub parent : b.snapshot.parent_frame_id ≡ a.snapshot.parent_frame_id

pub SameFrame-refl : {F : Floats} (a : RemediationFrameRow F) → SameFrame a a
SameFrame-refl a = record { session = refl; parent = refl }

pub SameFrame-trans :
    {F : Floats} {a b c : RemediationFrameRow F} → SameFrame a b → SameFrame b c → SameFrame a c
SameFrame-trans p q = record { session = q.session ∙ p.session; parent = q.parent ∙ p.parent }

module _ {F : Floats} where
  pub record Extends (t t' : Tables F) : Type 0 where
    pub learners : (id : ℕ) → t.learners id ≡ true → t'.learners id ≡ true
    pub sessions : Kept Evolves t.sessions t'.sessions
    pub frames : Kept SameFrame t.frames t'.frames
    pub bookings : Bookings t.runs t.reservations t'.runs t'.reservations
    pub operations :
        (id : Identity) (row : RuntimeOperation)
        → operation_of id t.operations ≡ some row
        → operation_of id t'.operations ≡ some row

  pub Extends-refl : (t : Tables F) → Extends t t
  Extends-refl t = record {
    learners = λ id e. e;
    sessions = Kept-refl Evolves Evolves-refl t.sessions;
    frames = Kept-refl SameFrame SameFrame-refl t.frames;
    bookings = unchanged;
    operations = λ id row e. e;
  }

  pub Extends-trans : {a b c : Tables F} → Extends a b → Extends b c → Extends a c
  Extends-trans p q = record {
    learners = λ id e. q.learners id (p.learners id e);
    sessions = Kept-trans Evolves (λ a b c. Evolves-trans) p.sessions q.sessions;
    frames = Kept-trans SameFrame (λ a b c. SameFrame-trans) p.frames q.frames;
    bookings = Bookings-trans p.bookings q.bookings;
    operations = λ id row e. q.operations id row (p.operations id row e);
  }
