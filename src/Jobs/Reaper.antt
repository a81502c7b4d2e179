-- ===== src/Jobs/Reaper.antt =====
-- `reap` of packages/persistence/jobs.py: expired leases go back to the queue or fail.
use autonomus_academic_assis.Base.{
  ℕ, ◌+◌, max, Bool, true, false, not, ◌&&◌, ◌||◌, none, some, List, [], ◌∷◌, ltb, leb, ◌==◌,
  if◌then◌else◌, keep, take, length, Result, ok, raise_if, ◌>>=◌, ◌>>◌,
}
use autonomus_academic_assis.Base.Floats.{Floats}
use autonomus_academic_assis.Jobs.Retry.{retry_delay}
use autonomus_academic_assis.Jobs.Status.{
  JobStatus, running, retrying, same_status, validate_transition, failure_status,
}
use autonomus_academic_assis.Jobs.Events.{
  lease_expired, JobEventType, retry_scheduled, recovered, job_retry, job_recovered, job_failed,
  Job, JobProgressEvent, Host, append_event,
}
use autonomus_academic_assis.Jobs.Repository.{Tables, Clock, RowChange, transact}
use autonomus_academic_assis.Jobs.Outcome.{attempt_key}

-- A running row whose lease has ended, and that no other transaction has locked.
unfoldable pub expired : ℕ → (ℕ → Bool) → Job → Bool
expired now locked row =
    same_status row.status running
    && elim row.lease_expires_at [ none ↦ false | some t ↦ leb t now ]
    && not (locked row.id)

-- `order_by(lease_expires_at, id)`; the rows compared have a lease.
abbrev lease_of : Job → ℕ
lease_of row = elim row.lease_expires_at [ none ↦ 0 | some t ↦ t ]

unfoldable pub reaped_before : Job → Job → Bool
reaped_before a b = ltb (lease_of a) (lease_of b) || ((lease_of a == lease_of b) && leb a.id b.id)

insert_row : Job → List Job → List Job
insert_row row [] = row ∷ []
insert_row row (r ∷ rows) =
    let rest = insert_row row rows in if reaped_before row r then row ∷ r ∷ rows else r ∷ rest

unfoldable pub reap_order : List Job → List Job
unfolding insert_row reaped_before
reap_order [] = []
reap_order (row ∷ rows) = insert_row row (reap_order rows)

-- The fields that the reaper assigns.
abbrev pub lapsed : (now delay : ℕ) → JobStatus → Job → Job
lapsed now delay target row = record row {
  status = target;
  error_code = some lease_expired;
  locked_by = none;
  lease_expires_at = none;
  heartbeat_at = none;
  updated_at = now;
  run_after = now + delay;
}

module _ (host : Host) where
  -- The two events of a row that goes back to the queue.
  unfoldable pub recover_events : Job → List JobProgressEvent → Result RowChange
  recover_events row events = do
    (row', events') ←
        append_event host row events recovered (job_recovered row.attempts (row.attempts + 1))
          row.attempts (attempt_key host row.attempts ":recovered")
    append_event host row' events' retry_scheduled (job_retry lease_expired row'.run_after)
        row'.attempts (attempt_key host row'.attempts ":reaper-retry")

  -- The events of one reaped row, whose new status is `target`.
  unfoldable pub reap_events : JobStatus → Job → List JobProgressEvent → Result RowChange
  reap_events target row events =
      if same_status target retrying
      then recover_events row events
      else append_event host row events JobEventType.failed (job_failed lease_expired) row.attempts
          (attempt_key host row.attempts ":reaper-failed")

module _ (host : Host) (F : Floats) (retry_base retry_max : F.Float) where
  unfoldable pub reap_row : (now : ℕ) → Job → List JobProgressEvent → Result RowChange
  reap_row now row events = do
    let target = failure_status row.attempts row.max_attempts true
    validate_transition row.status target
    delay ← retry_delay F (max 1 row.attempts) retry_base retry_max
    reap_events host target (lapsed now (F.seconds delay) target row) events

  -- The `for` loop over the rows that the query returned.
  unfoldable pub reap_all : Clock → (ℕ → Bool) → List Job → Tables → Result Tables
  reap_all clock locked [] t = ok t
  reap_all clock locked (job ∷ jobs) t = do
    (_, t') ←
        transact (λ row. (row.id == job.id) && expired (clock 0) locked row) (reap_row (clock 1)) t
    reap_all clock locked jobs t'

  unfoldable pub reap : Clock → (ℕ → Bool) → (limit : ℕ) → Tables → Result (ℕ × Tables)
  reap clock locked limit t = do
    raise_if (ltb limit 1) "Reaper batch size must be positive"
    let jobs = take limit (reap_order (keep (expired (clock 0) locked) t.jobs))
    t' ← reap_all clock locked jobs t
    ok (length jobs, t')
