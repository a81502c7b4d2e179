-- ===== src/Jobs/Lifecycle/Change.antt =====
-- The relation between a row before and after a transaction, and what appending an event keeps.
use mathlib.Core.List.{Forall₂}
use autonomus_academic_assis.Base.{
  All, ℕ, ◌+◌, ◌≤◌, ◌<◌, ◌≡◌, refl, ◌≢◌, ◌⊎◌, Bool, true, false, Option, none, some, List, [], ◌∷◌,
  String, is_some, arith, Result, ok, OnOk, OnOk-ok, OnOk-bind, OnOk-then, OnOk-if, subst, sym,
}
use autonomus_academic_assis.Jobs.Status.{JobStatus, running, contains_status, transitions}
use autonomus_academic_assis.Jobs.Events.{
  JobEventType, JobEventPayload, Job, JobProgressEvent, Host, append_event, show_progress,
  validate_event_payload,
}
use autonomus_academic_assis.Jobs.Repository.{Tables, RowChange, update_row, transact, after_change}

-- A running row is leased and counted; any other row is free; no row has had more attempts than it
-- may have.
pub record IsValid (row : Job) : Type 0 where
  pub capped : row.attempts ≤ row.max_attempts
  pub counted : row.status ≡ running → 1 ≤ row.attempts
  pub locked : row.status ≡ running → is_some row.locked_by ≡ true
  pub leased : row.status ≡ running → is_some row.lease_expires_at ≡ true
  pub beating : row.status ≡ running → is_some row.heartbeat_at ≡ true
  pub unlocked : row.status ≢ running → row.locked_by ≡ none
  pub released : row.status ≢ running → row.lease_expires_at ≡ none
  pub silent : row.status ≢ running → row.heartbeat_at ≡ none

abbrev pub IsTerminal : JobStatus → Type 0
IsTerminal s = transitions s ≡ []

pub record RowStep (row row' : Job) : Type 0 where
  pub same_id : row'.id ≡ row.id
  pub same_max : row'.max_attempts ≡ row.max_attempts
  pub lifecycle :
      (row'.status ≡ row.status) ⊎ (contains_status row'.status (transitions row.status) ≡ true)
  pub attempts_grow : row.attempts ≤ row'.attempts
  pub new_attempt :
      row.attempts < row'.attempts
      → (row'.attempts ≡ row.attempts + 1) × (row'.status ≡ running) × (row.status ≢ running)
  pub restart : row'.status ≡ running → (row.status ≡ running) ⊎ (row.attempts < row'.attempts)
  pub frozen : IsTerminal row.status → row' ≡ row
  pub keeps : IsValid row → IsValid row'

abbrev pub counted : Job → Job
counted row = record row { latest_event_sequence = row.latest_event_sequence + 1 }

-- What a `RowStep` speaks of is the same.
pub record SameState (row row' : Job) : Type 0 where
  pub id : row'.id ≡ row.id
  pub status : row'.status ≡ row.status
  pub attempts : row'.attempts ≡ row.attempts
  pub max_attempts : row'.max_attempts ≡ row.max_attempts
  pub locked_by : row'.locked_by ≡ row.locked_by
  pub lease_expires_at : row'.lease_expires_at ≡ row.lease_expires_at
  pub heartbeat_at : row'.heartbeat_at ≡ row.heartbeat_at

-- Appending an event changes the progress fields and the counter only.
pub record SameCore (row row' : Job) : Type 0 where
  pub id : row'.id ≡ row.id
  pub status : row'.status ≡ row.status
  pub attempts : row'.attempts ≡ row.attempts
  pub max_attempts : row'.max_attempts ≡ row.max_attempts
  pub locked_by : row'.locked_by ≡ row.locked_by
  pub lease_expires_at : row'.lease_expires_at ≡ row.lease_expires_at
  pub heartbeat_at : row'.heartbeat_at ≡ row.heartbeat_at
  pub run_after : row'.run_after ≡ row.run_after
  pub result_ref : row'.result_ref ≡ row.result_ref
  pub error_code : row'.error_code ≡ row.error_code
  pub sequence : row'.latest_event_sequence ≡ row.latest_event_sequence

show_progress-SameCore :
    (type : JobEventType) (body : JobEventPayload) (row : Job)
    → SameCore row (show_progress type body row)
unfolding show_progress
show_progress-SameCore type body row = ground arith

pub append_event-SameCore :
    (host : Host) (row : Job) (events : List JobProgressEvent) (type : JobEventType)
    (payload : JobEventPayload) (attempt : ℕ) (key : String)
    → OnOk (λ c. SameCore (counted row) c.0) (append_event host row events type payload attempt key)
unfolding append_event
append_event-SameCore host row events type payload attempt key = OnOk-then _ _ λ _.
    OnOk-then (validate_event_payload type payload) _
      λ body. OnOk-then _ _ λ events'. OnOk-ok _ (show_progress-SameCore type body (counted row))

module _ (R : Job → Job → Type 0) (stays : (row : Job) → R row row) (test : Job → Bool) where
  same_rows : (rows : List Job) → Forall₂ R rows rows
  same_rows [] = Forall₂.nil
  same_rows (row ∷ rows) = Forall₂.cons (stays row) (same_rows rows)

  update_row-rows :
      (change : Job → Result RowChange)
      → ((row : Job) → test row ≡ true → OnOk (λ c. R row c.0) (change row))
      → (rows : List Job) → OnOk (λ r. Forall₂ R rows r.1) (update_row test change rows)
  unfolding update_row
  update_row-rows change moves [] = OnOk-ok _ Forall₂.nil
  update_row-rows change moves (row ∷ rows) =
      let rest = update_row-rows change moves rows in
      OnOk-if (test row) _ _
        (λ hit.
          OnOk-bind (λ c. R row c.0) (change row) _ (moves row hit)
            λ c r. OnOk-ok _ (Forall₂.cons r (same_rows rows)))
        (λ miss.
          OnOk-bind (λ r. Forall₂ R rows r.1) (update_row test change rows) _ rest
            λ r f. OnOk-ok _ (Forall₂.cons (stays row) f))

  after_change-jobs : (t : Tables) (r : Option RowChange × List Job) → (after_change t r).jobs ≡ r.1
  after_change-jobs t (none, rows) = refl
  after_change-jobs t (some c, rows) = refl

  -- A transaction relates the rows place by place, if it relates the row that it changes.
  pub transact-rows :
      (change : Job → List JobProgressEvent → Result RowChange) (t : Tables)
      → ((row : Job) → test row ≡ true → OnOk (λ c. R row c.0) (change row t.events))
      → OnOk (λ r. Forall₂ R t.jobs r.1.jobs) (transact test change t)
  unfolding transact
  transact-rows change t moves =
      OnOk-bind (λ r. Forall₂ R t.jobs r.1) (update_row test (λ row. change row t.events) t.jobs) _
        (update_row-rows (λ row. change row t.events) moves t.jobs)
        λ r f. OnOk-ok _ (subst (Forall₂ R t.jobs) (sym (after_change-jobs t r)) f)

pub RowStep-refl : (row : Job) → RowStep row row
RowStep-refl row = ground arith

update_row-none :
    (test : Job → Bool) (change : Job → Result RowChange) (rows : List Job)
    → All (λ row. test row ≡ false) rows
    → update_row test change rows ≡ ok (none, rows)
unfolding update_row
update_row-none test change [] m = refl
update_row-none test change (row ∷ rows) m = rw m.0 (rw (update_row-none test change rows m.1) refl)

-- A transaction that finds no row changes nothing.
pub transact-none :
    (test : Job → Bool) (change : Job → List JobProgressEvent → Result RowChange) (t : Tables)
    → All (λ row. test row ≡ false) t.jobs
    → transact test change t ≡ ok (none, t)
unfolding transact
transact-none test change t miss =
    rw (update_row-none test (λ row. change row t.events) t.jobs miss) refl
