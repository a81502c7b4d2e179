-- ===== src/Jobs/History/Steps.antt =====
-- Each call moves every row by row steps; so does every sequence of calls.
use mathlib.Core.List.{Forall₂}
use autonomus_academic_assis.Base.{
  ℕ, ◌≡◌, Bool, Option, none, some, List, [], ◌∷◌, String, arith, Result, ok, raise, OnOk, OnOk-ok,
  OnOk-bind, OnOk-then, OnOk-with, OnOk-imp, OnOk-if, refl, true,
}
use autonomus_academic_assis.Base.Floats.{Floats}
use autonomus_academic_assis.Jobs.Retry.{retry_delay}
use autonomus_academic_assis.Jobs.Status.{
  JobStatus, JobLane, running, failure_status, validate_transition, transitions,
}
use autonomus_academic_assis.Jobs.Events.{JobErrorCode, JobEventType, JobEventPayload, Job, Host}
use autonomus_academic_assis.Jobs.Repository.{
  Tables, Clock, ClaimedJob, RowChange, transact, claimable, claim_row, claim_found, claim,
  heartbeat, ownership,
}
use autonomus_academic_assis.Jobs.Outcome.{
  final_status, finish, fail, cancel_row, cancel, reported, progress_row, report_progress,
}
use autonomus_academic_assis.Jobs.Reaper.{reap_row, reap_all, reap}
use autonomus_academic_assis.Jobs.History.{
  Call, claims, heartbeats, finishes, fails, cancels, reports, reaps, committed, perform, performs,
}
use autonomus_academic_assis.Jobs.Lifecycle.Change.{RowStep, RowStep-refl, transact-rows}
use autonomus_academic_assis.Jobs.Lifecycle.Rows.{
  claim_row-RowStep, heartbeat-RowStep, finish_row-RowStep, cancel_row-RowStep,
  progress_row-RowStep, reap_row-RowStep,
}

-- Row steps, one after the other.
pub data RowPath (row : Job) : Job → Type 0 where
  here : RowPath row row
  next : {row' row'' : Job} → RowPath row row' → RowStep row' row'' → RowPath row row''

RowPath-trans : {a b c : Job} → RowPath a b → RowPath b c → RowPath a c
RowPath-trans p here = p
RowPath-trans p (next q s) = next (RowPath-trans p q) s

abbrev pub Paths : Tables → Tables → Type 0
Paths t t' = Forall₂ RowPath t.jobs t'.jobs

one_step : (rows rows' : List Job) → Forall₂ RowStep rows rows' → Forall₂ RowPath rows rows'
one_step rows rows' Forall₂.nil = Forall₂.nil
one_step rows rows' (Forall₂.cons s f) = Forall₂.cons (next here s) (one_step _ _ f)

no_step : (rows : List Job) → Forall₂ RowPath rows rows
no_step [] = Forall₂.nil
no_step (row ∷ rows) = Forall₂.cons here (no_step rows)

paths_trans : {a b c : List Job} → Forall₂ RowPath a b → Forall₂ RowPath b c → Forall₂ RowPath a c
paths_trans Forall₂.nil Forall₂.nil = Forall₂.nil
paths_trans (Forall₂.cons p f) (Forall₂.cons q g) =
    Forall₂.cons (RowPath-trans p q) (paths_trans f g)

-- A transaction as the methods use it.
transact-Paths :
    (test : Job → Bool) (change : Job → List _ → Result RowChange) (t : Tables)
    → ((row : Job) → test row ≡ true → OnOk (λ c. RowStep row c.0) (change row t.events))
    → OnOk (λ r. Paths t r.1) (transact test change t)
transact-Paths test change t moves = record {
  at = λ r e. one_step _ _ ((transact-rows RowStep RowStep-refl test change t moves).at r e);
}

heartbeat-Paths :
    (clock : Clock) (job : ClaimedJob) (lease : ℕ) (t : Tables)
    → OnOk (λ r. Paths t r.1) (heartbeat clock job lease t)
unfolding heartbeat
heartbeat-Paths clock job lease t = OnOk-then _ _ λ _.
    OnOk-bind (λ r. Paths t r.1) _ _
      (transact-Paths (ownership (clock 0) job) _ t
        λ row h. OnOk-ok _ (heartbeat-RowStep row (clock 0) clock job lease h))
      λ r p. OnOk-ok _ p

module _ (host : Host) where
  claim_found-Paths :
      (clock : Clock) (taken : ℕ → Bool) (worker_id : String) (lanes : List JobLane) (lease : ℕ)
      (found : Option Job) (t : Tables)
      → OnOk
          (λ r. Paths t r.1)
          (claim_found host clock (claimable (clock 0) lanes taken) worker_id lease found t)
  unfolding claim_found
  claim_found-Paths clock taken worker_id lanes lease none t = OnOk-ok _ (no_step t.jobs)
  claim_found-Paths clock taken worker_id lanes lease (some best) t =
      OnOk-bind (λ r. Paths t r.1) _ _
        (transact-Paths _ (claim_row host (clock 1) worker_id lease) t λ row h.
          claim_row-RowStep host row t.events (clock 0) (clock 1) lanes taken worker_id lease
            (ground arith))
        λ r p. OnOk-ok _ p

  claim-Paths :
      (clock : Clock) (taken : ℕ → Bool) (worker_id : String) (lanes : List JobLane) (lease : ℕ)
      (t : Tables)
      → OnOk (λ r. Paths t r.1) (claim host clock taken worker_id lanes lease t)
  unfolding claim
  claim-Paths clock taken worker_id lanes lease t =
      OnOk-then _ _ λ _. claim_found-Paths clock taken worker_id lanes lease _ t

  cancel-Paths :
      (clock : Clock) (job_id : ℕ) (t : Tables)
      → OnOk (λ r. Paths t r.1) (cancel host clock job_id t)
  unfolding cancel
  cancel-Paths clock job_id t = OnOk-then _ _ λ _.
      OnOk-bind (λ r. Paths t r.1) _ _
        (transact-Paths _ (cancel_row host (clock 0)) t
          λ row h. cancel_row-RowStep host row t.events (clock 0) (ground arith))
        λ r p. OnOk-ok _ p

  report_progress-Paths :
      (clock : Clock) (job : ClaimedJob) (type : JobEventType) (payload : JobEventPayload)
      (key : String) (t : Tables)
      → OnOk (λ r. Paths t r.1) (report_progress host clock job type payload key t)
  unfolding report_progress
  report_progress-Paths clock job type payload key t = OnOk-then _ _ λ _.
      OnOk-if (reported job key t) _ _ (λ _. OnOk-ok _ (no_step t.jobs))
        λ _.
          OnOk-bind (λ r. Paths t r.1) _ _
            (transact-Paths _ (progress_row host job type payload key) t
              λ row h. progress_row-RowStep host row t.events (clock 0) job type payload key h)
            λ r p. OnOk-ok _ p

module _ (host : Host) (F : Floats) (retry_base retry_max : F.Float) where
  finish-Paths :
      (clock : Clock) (job : ClaimedJob) (status : JobStatus) (code : Option JobErrorCode)
      (result : Option String) (t : Tables)
      → OnOk (λ r. Paths t r.1) (finish host F retry_base retry_max clock job status code result t)
  unfolding finish final_status transitions validate_transition
  finish-Paths clock job status code result t =
      OnOk-with (validate_transition running status) _ λ _ valid.
        OnOk-then (retry_delay F job.attempts retry_base retry_max) _ λ delay.
          OnOk-bind (λ r. Paths t r.1) _ _
            (transact-Paths _ _ t λ row h.
              finish_row-RowStep host row t.events (clock 1) clock (F.seconds delay)
                (final_status status job) code result job (ground arith) h)
            λ r p. OnOk-ok _ p

  reap_all-Paths :
      (clock : Clock) (taken : ℕ → Bool) (rows : List Job) (t : Tables)
      → OnOk (λ t'. Paths t t') (reap_all host F retry_base retry_max clock taken rows t)
  unfolding reap_all
  reap_all-Paths clock taken [] t = OnOk-ok _ (no_step t.jobs)
  reap_all-Paths clock taken (row ∷ rows) t =
      OnOk-bind (λ r. Paths t r.1) _ _
        (transact-Paths _ (reap_row host F retry_base retry_max (clock 1)) t λ r h.
          reap_row-RowStep host F retry_base retry_max r t.events (clock 1) (clock 0) taken
            (ground arith))
        λ r p. OnOk-imp (reap_all-Paths clock taken rows r.1) λ t' q. paths_trans p q

  reap-Paths :
      (clock : Clock) (taken : ℕ → Bool) (limit : ℕ) (t : Tables)
      → OnOk (λ r. Paths t r.1) (reap host F retry_base retry_max clock taken limit t)
  unfolding reap
  reap-Paths clock taken limit t =
      OnOk-then _ _
        λ _. OnOk-bind (λ t'. Paths t t') _ _ (reap_all-Paths clock taken _ t) λ t' p. OnOk-ok _ p

  commit-Paths {ℓ} :
      {A : Type ℓ} (t : Tables) (r : Result (A × Tables))
      → OnOk (λ r. Paths t r.1) r
      → Paths t (committed t r)
  commit-Paths t (ok r) h = h.at r refl
  commit-Paths t (raise e) h = no_step t.jobs

  perform-Paths : (call : Call) (t : Tables) → Paths t (perform host F retry_base retry_max call t)
  unfolding perform fail
  perform-Paths (claims clock taken worker_id lanes lease) t =
      commit-Paths t _ (claim-Paths host clock taken worker_id lanes lease t)
  perform-Paths (heartbeats clock job lease) t =
      commit-Paths t _ (heartbeat-Paths clock job lease t)
  perform-Paths (finishes clock job status code result) t =
      commit-Paths t _ (finish-Paths clock job status code result t)
  perform-Paths (fails clock job code retryable) t = commit-Paths t _ (
      finish-Paths clock job (failure_status job.attempts job.max_attempts retryable) (some code)
        none t)
  perform-Paths (cancels clock job_id) t = commit-Paths t _ (cancel-Paths host clock job_id t)
  perform-Paths (reports clock job type payload key) t =
      commit-Paths t _ (report_progress-Paths host clock job type payload key t)
  perform-Paths (reaps clock taken limit) t = commit-Paths t _ (reap-Paths clock taken limit t)

  -- Whatever the calls, every row ends a path of row steps, at its place in the table.
  pub performs-Paths :
      (calls : List Call) (t : Tables) → Paths t (performs host F retry_base retry_max calls t)
  unfolding performs
  performs-Paths [] t = no_step t.jobs
  performs-Paths (call ∷ calls) t =
      paths_trans (perform-Paths call t)
        (performs-Paths calls (perform host F retry_base retry_max call t))
