-- ===== src/Jobs/Lifecycle/Rows.antt =====
-- Each row operation of the repository moves its row by a `RowStep`.
use autonomus_academic_assis.Base.{
  ℕ, max, ◌+◌, ◌≡◌, Bool, true, Option, List, String, arith, OnOk, OnOk-ok, OnOk-if, OnOk-bind,
  OnOk-then, OnOk-imp,
}
use autonomus_academic_assis.Base.Floats.{Floats}
use autonomus_academic_assis.Jobs.Retry.{retry_delay}
use autonomus_academic_assis.Jobs.Status.{
  JobStatus, JobLane, pending, running, retrying, same_status, contains_status, transitions,
  failure_status,
}
use autonomus_academic_assis.Jobs.Events.{
  JobErrorCode, JobEventType, JobEventPayload, Job, JobProgressEvent, Host,
}
use autonomus_academic_assis.Jobs.Repository.{
  Clock, ClaimedJob, claimable, leased, renewed, ownership, claim_row,
}
use autonomus_academic_assis.Jobs.Outcome.{
  outcome_event, settled, withdrawn, finish_row, cancel_row, cancel_sources, progress_row,
}
use autonomus_academic_assis.Jobs.Reaper.{expired, lapsed, recover_events, reap_events, reap_row}
use autonomus_academic_assis.Jobs.Lifecycle.Change.{
  RowStep, counted, SameCore, SameState, append_event-SameCore,
}

pub heartbeat-RowStep :
    (row : Job) (now : ℕ) (clock : Clock) (job : ClaimedJob) (lease : ℕ)
    → ownership now job row ≡ true
    → RowStep row (renewed clock lease row)
unfolding ownership transitions
heartbeat-RowStep row now clock job lease h = ground arith

module _ (host : Host) (row : Job) (events : List JobProgressEvent) where
  pub claim_row-RowStep :
      (query now : ℕ) (lanes : List JobLane) (taken : ℕ → Bool) (worker_id : String) (lease : ℕ)
      → claimable query lanes taken row ≡ true
      → OnOk (λ c. RowStep row c.0) (claim_row host now worker_id lease row events)
  unfolding claim_row claimable transitions
  claim_row-RowStep query now lanes taken worker_id lease h = OnOk-then _ _ λ _.
      OnOk-imp (append_event-SameCore host (leased now worker_id lease row) events _ _ _ _)
        λ c same. ground arith

  outcome_event-SameCore :
      (status : JobStatus) (code : Option JobErrorCode) (result : Option String) (retry_at : ℕ)
      (job : ClaimedJob)
      → contains_status status (transitions running) ≡ true
      → OnOk
          (λ c. SameCore (counted row) c.0)
          (outcome_event host status code result retry_at job row events)
  unfolding outcome_event transitions
  outcome_event-SameCore pending code result retry_at job h = absurd (cc h)
  outcome_event-SameCore running code result retry_at job h = absurd (cc h)
  outcome_event-SameCore _ code result retry_at job h =
      append_event-SameCore host row events _ _ _ _

module _ (host : Host) (row : Job) (events : List JobProgressEvent) where
  pub finish_row-RowStep :
      (now : ℕ) (clock : Clock) (delay : ℕ) (status : JobStatus) (code : Option JobErrorCode)
      (result : Option String) (job : ClaimedJob)
      → contains_status status (transitions running) ≡ true
      → ownership now job row ≡ true
      → OnOk (λ c. RowStep row c.0) (finish_row host clock delay status code result job row events)
  unfolding finish_row ownership transitions
  finish_row-RowStep now clock delay status code result job allowed h =
      let updated = settled (clock 0) delay status code result row in
      OnOk-bind (λ c. SameCore (counted updated) c.0) _ _
        (outcome_event-SameCore host updated events status code result (clock 0 + delay) job
          allowed)
        λ c same. OnOk-ok _ (ground arith)

  pub cancel_row-RowStep :
      (now : ℕ)
      → contains_status row.status cancel_sources ≡ true
      → OnOk (λ c. RowStep row c.0) (cancel_row host now row events)
  unfolding cancel_row transitions
  cancel_row-RowStep now h =
      OnOk-imp (append_event-SameCore host (withdrawn now row) events _ _ _ _)
        λ c same. ground arith

  pub progress_row-RowStep :
      (now : ℕ) (job : ClaimedJob) (type : JobEventType) (payload : JobEventPayload) (key : String)
      → ownership now job row ≡ true
      → OnOk (λ c. RowStep row c.0) (progress_row host job type payload key row events)
  unfolding progress_row ownership transitions
  progress_row-RowStep now job type payload key h =
      OnOk-bind (λ c. SameCore (counted row) c.0) _ _
        (append_event-SameCore host row events _ _ _ _) λ c same. OnOk-ok _ (ground arith)

  recover_events-SameState : OnOk (λ c. SameState row c.0) (recover_events host row events)
  unfolding recover_events
  recover_events-SameState =
      OnOk-bind (λ c. SameCore (counted row) c.0) _ _
        (append_event-SameCore host row events _ _ _ _)
        λ c same. OnOk-imp (append_event-SameCore host c.0 c.1 _ _ _ _) λ d again. ground arith

  reap_events-SameState :
      (target : JobStatus) → OnOk (λ c. SameState row c.0) (reap_events host target row events)
  unfolding reap_events
  reap_events-SameState target =
      OnOk-if (same_status target retrying) _ _ (λ _. recover_events-SameState)
        (λ _. OnOk-imp (append_event-SameCore host row events _ _ _ _) λ c same. ground arith)

module _ (host : Host) (F : Floats) (retry_base retry_max : F.Float) (row : Job)
    (events : List JobProgressEvent) where
  pub reap_row-RowStep :
      (now at : ℕ) (taken : ℕ → Bool)
      → expired at taken row ≡ true
      → OnOk (λ c. RowStep row c.0) (reap_row host F retry_base retry_max now row events)
  unfolding reap_row expired transitions failure_status
  reap_row-RowStep now at taken h =
      let target = failure_status row.attempts row.max_attempts true in
      OnOk-then _ _ λ _.
        OnOk-then (retry_delay F (max 1 row.attempts) retry_base retry_max) _ λ delay.
          OnOk-imp
            (reap_events-SameState host (lapsed now (F.seconds delay) target row) events target)
            λ c same. ground arith
