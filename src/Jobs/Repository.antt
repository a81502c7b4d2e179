-- ===== src/Jobs/Repository.antt =====
-- `JobRepository` of packages/persistence/jobs.py. A method is one transaction: a function from the
-- tables to its result and the new tables; an exception rolls the transaction back, so it leaves
-- none. A `Clock` gives the successive readings of `clock_timestamp()` in the transaction.
use Prim.Native.String.{count, ◌++◌ as join}
use autonomus_academic_assis.Base.{
  ℕ, zero, suc, ◌+◌, max, Bool, true, false, not, ◌&&◌, ◌||◌, Option, none, some, List, [], ◌∷◌,
  ltb, leb, ◌==◌, if◌then◌else◌, is_some, or_else, any, keep, take, String, str_eq, Result, ok,
  raise, value_error, raise_if, ◌>>=◌, ◌>>◌,
}
use autonomus_academic_assis.Base.Int.{ltb_ℤ}
use autonomus_academic_assis.Jobs.Status.{
  pending, running, retrying, JobLane, same_status, in_lanes, validate_transition,
}
use autonomus_academic_assis.Jobs.Events.{
  started, job_started, Job, JobProgressEvent, Host, append_event,
}

pub record Tables : Type 0 where
  pub jobs : List Job
  pub events : List JobProgressEvent

abbrev pub Clock : Type 0
Clock = ℕ → ℕ

pub record ClaimedJob : Type 0 where
  pub id : ℕ
  pub job_type : String
  pub payload : String
  pub lane : JobLane
  pub priority : autonomus_academic_assis.Base.Int.ℤ
  pub attempts : ℕ
  pub max_attempts : ℕ
  pub worker_id : String
  pub lease_expires_at : ℕ

-- A row operation: the new row and the new events.
abbrev pub RowChange : Type 0
RowChange = Job × List JobProgressEvent

-- Applies `change` to the row that satisfies `test`, if there is one (the first, in a list). The
-- primary key admits one row at most wherever the source asks for `one_or_none`.
unfoldable pub update_row :
    (Job → Bool) → (Job → Result RowChange) → List Job → Result (Option RowChange × List Job)
update_row test change [] = ok (none, [])
update_row test change (row ∷ rows) =
    if test row
    then (do c ← change row; ok (some c, c.0 ∷ rows))
    else (do (c, rows') ← update_row test change rows; ok (c, row ∷ rows'))

abbrev pub after_change : Tables → Option RowChange × List Job → Tables
after_change t (none, rows) = record { jobs = rows; events = t.events }
after_change t (some c, rows) = record { jobs = rows; events = c.1 }

-- The whole transaction: the changed row, if any, and the tables.
unfoldable pub transact :
    (Job → Bool)
    → (Job → List JobProgressEvent → Result RowChange)
    → Tables
    → Result (Option RowChange × Tables)
transact test change t = do
  r ← update_row test (λ row. change row t.events) t.jobs
  ok (r.0, after_change t r)

-- The `where` clause of `claim_query`, on one row that no other transaction has locked.
unfoldable pub claimable : ℕ → List JobLane → (ℕ → Bool) → Job → Bool
claimable now lanes locked row =
    (same_status row.status pending || same_status row.status retrying)
    && leb row.run_after now
    && ltb row.attempts row.max_attempts
    && in_lanes row.lane lanes
    && not (locked row.id)

-- `order_by(priority desc, created_at, id)`: whether `a` comes before `b`.
unfoldable pub claims_before : Job → Job → Bool
claims_before a b =
    ltb_ℤ b.priority a.priority
    || (not (ltb_ℤ a.priority b.priority)
        && (ltb a.created_at b.created_at || ((a.created_at == b.created_at) && ltb a.id b.id)))

-- The first row in that order (`limit 1`).
unfoldable pub first_claim : List Job → Option Job
unfolding claims_before
first_claim [] = none
first_claim (row ∷ rows) = elim (first_claim rows) [
  | none ↦ some row
  | some best ↦ if claims_before best row then some best else some row
]

-- `ownership`
unfoldable pub ownership : ℕ → ClaimedJob → Job → Bool
ownership now job row =
    (row.id == job.id)
    && elim row.locked_by [ none ↦ false | some w ↦ str_eq w job.worker_id ]
    && (row.attempts == job.attempts)
    && same_status row.status running
    && elim row.lease_expires_at [ none ↦ false | some t ↦ ltb now t ]

-- The fields that a claim assigns.
abbrev pub leased : (now : ℕ) (worker_id : String) (lease : ℕ) → Job → Job
leased now worker_id lease row = record row {
  status = running;
  attempts = row.attempts + 1;
  locked_by = some worker_id;
  heartbeat_at = some now;
  lease_expires_at = some (now + lease);
  updated_at = now;
  error_code = none;
}

-- The fields that a heartbeat assigns.
abbrev pub renewed : Clock → (lease : ℕ) → Job → Job
renewed clock lease row = record row {
  heartbeat_at = some (clock 1);
  lease_expires_at = some (clock 2 + lease);
  updated_at = clock 3;
}

unfoldable pub heartbeat : Clock → ClaimedJob → (lease : ℕ) → Tables → Result (Bool × Tables)
heartbeat clock job lease t = do
  raise_if (leb lease 0) "Lease duration must be positive"
  (c, t') ←
      transact (ownership (clock 0) job) (λ row events. ok (renewed clock lease row, events)) t
  ok (is_some c, t')

module _ (host : Host) where
  open host use {str}

  unfoldable pub started_key : ℕ → String
  started_key attempts = join "attempt:" (join (str attempts) ":started")

  unfoldable pub claim_row :
      (now : ℕ) (worker_id : String) (lease : ℕ) → Job → List JobProgressEvent → Result RowChange
  unfolding started_key
  claim_row now worker_id lease row events = do
    validate_transition row.status running
    append_event host (leased now worker_id lease row) events started job_started (row.attempts + 1)
        (started_key (row.attempts + 1))

  abbrev pub claimed : String → ℕ → Job → ClaimedJob
  claimed worker_id lease_end row = record {
    id = row.id;
    job_type = row.job_type;
    payload = row.payload;
    lane = row.lane;
    priority = row.priority;
    attempts = row.attempts;
    max_attempts = row.max_attempts;
    worker_id = worker_id;
    lease_expires_at = lease_end;
  }

  -- The row that the query returned, if any. `FOR UPDATE` checks the condition again on the row that
  -- it locks.
  unfoldable pub claim_found :
      Clock
      → (query : Job → Bool) → String
      → (lease : ℕ) → Option Job
      → Tables
      → Result (Option ClaimedJob × Tables)
  claim_found clock query worker_id lease none t = ok (none, t)
  claim_found clock query worker_id lease (some best) t = do
    (c, t') ←
        transact (λ row. (row.id == best.id) && query row) (claim_row (clock 1) worker_id lease) t
    ok (elim c [ none ↦ none | some (row, _) ↦ some (claimed worker_id (clock 1 + lease) row) ], t')

  -- `lease` is the length of the lease, and the test on it is `lease_seconds <= 0`.
  unfoldable pub claim :
      Clock
      → (ℕ → Bool)
      → String
      → List JobLane
      → (lease : ℕ) → Tables
      → Result (Option ClaimedJob × Tables)
  claim clock locked worker_id lanes lease t = do
    raise_if (str_eq worker_id "" || ltb 255 (count worker_id) || leb lease 0)
        "Invalid worker ownership configuration"
    let query = claimable (clock 0) lanes locked
    claim_found clock query worker_id lease (first_claim (keep query t.jobs)) t
