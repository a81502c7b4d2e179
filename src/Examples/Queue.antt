-- ===== src/Examples/Queue.antt =====
-- The theorems on the job queue at a small table: a first worker loses its lease and the job is reaped,
-- a second worker claims it again.
use mathlib.Core.List.{Forall₂}
use autonomus_academic_assis.Base.{
  ℕ, ◌≡◌, refl, inl, true, false, none, some, List, [], ◌∷◌, arith, All, ok, ◌==◌, if◌then◌else◌,
  leb,
}
use autonomus_academic_assis.Base.Int.{pos}
use autonomus_academic_assis.Base.Floats.{whole, whole-FloatLaws}
use autonomus_academic_assis.Jobs.Status.{
  pending, running, succeeded, batch, contains_status, transitions,
}
use autonomus_academic_assis.Jobs.Events.{Job, Host}
use autonomus_academic_assis.Jobs.Repository.{Tables, Clock, ClaimedJob, heartbeat}
use autonomus_academic_assis.Jobs.Outcome.{finish}
use autonomus_academic_assis.Jobs.Retry.{
  IsPolicy, retry_delay, doubled_fully, retry_delay_bounds, retry_delay-eq-doubled_fully,
  retry_delay_mono,
}
use autonomus_academic_assis.Jobs.Lifecycle.Change.{IsValid}
use autonomus_academic_assis.Jobs.History.{Call, claims, finishes, reaps, performs}
use autonomus_academic_assis.Jobs.History.Fence.{
  Continues, IsStale, performs-Continues, performs-IsValid, stale_claim_is_fenced,
}

abbrev host : Host
host = record {
  uuid5 = λ id key. id;
  str = λ n. if n == 1 then "1" else "2";
  uuid_str = λ n. "job";
  now = 0;
}

abbrev parse_job : Job
parse_job = record {
  id = 7;
  job_type = "document.extract";
  payload = "{}";
  status = pending;
  priority = pos 0;
  lane = batch;
  attempts = 0;
  max_attempts = 3;
  run_after = 0;
  locked_by = none;
  lease_expires_at = none;
  heartbeat_at = none;
  idempotency_key = "extract:7";
  parent_job_id = none;
  result_ref = none;
  error_code = none;
  latest_event_sequence = 0;
  progress_stage = none;
  progress_percent = none;
  progress_message = none;
  created_at = 0;
  updated_at = 0;
}

abbrev one_job : Tables
one_job = record { jobs = parse_job ∷ []; events = [] }

-- The row in its second attempt, which another worker runs.
abbrev second_attempt : Tables
second_attempt = record {
  jobs =
      (record parse_job {
        status = running;
        attempts = 2;
        locked_by = some "second";
        lease_expires_at = some 900;
        heartbeat_at = some 300;
      })
      ∷ [];
  events = [];
}

abbrev clock : Clock
clock n = 400

-- What the first worker still holds.
abbrev lost_claim : ClaimedJob
lost_claim = record {
  id = 7;
  job_type = "document.extract";
  payload = "{}";
  lane = batch;
  priority = pos 0;
  attempts = 1;
  max_attempts = 3;
  worker_id = "first";
  lease_expires_at = 200;
}

-- The first worker claims the job, loses its lease, and the job is reaped.
abbrev lost_lease : List Call
lost_lease =
    claims clock (λ id. false) "first" (batch ∷ []) 50
    ∷ reaps (λ n. 9_000_000) (λ id. false) 10
    ∷ finishes clock lost_claim succeeded none (some "late")
    ∷ []

parse_job-IsValid : All IsValid one_job.jobs
parse_job-IsValid = ground arith

valid-IsPolicy : IsPolicy whole-FloatLaws 1 2 300
valid-IsPolicy = (ground arith, refl, refl)

performs-Continues_example :
    Forall₂ Continues one_job.jobs (performs host whole 2 300 lost_lease one_job).jobs
performs-Continues_example = performs-Continues host whole 2 300 lost_lease one_job

performs-IsValid_example : All IsValid (performs host whole 2 300 lost_lease one_job).jobs
performs-IsValid_example = performs-IsValid host whole 2 300 lost_lease one_job parse_job-IsValid

lost_claim-IsStale : All (IsStale lost_claim) second_attempt.jobs
lost_claim-IsStale = (λ e. inl (ground arith), tt)

success_allowed : contains_status succeeded (transitions running) ≡ true
unfolding transitions
success_allowed = refl

stale_claim_is_fenced_example :
    let t' = performs host whole 2 300 lost_lease second_attempt in
    (heartbeat clock lost_claim 50 t' ≡ ok (false, t'))
    × (finish host whole 2 300 clock lost_claim succeeded none (some "late") t' ≡ ok (false, t'))
stale_claim_is_fenced_example =
    stale_claim_is_fenced host whole 2 300 whole-FloatLaws lost_lease second_attempt lost_claim
      clock 50 succeeded none (some "late") lost_claim-IsStale (ground arith) success_allowed
      valid-IsPolicy

retry_delay_bounds_example :
    (d : ℕ) × (retry_delay whole 3 2 5 ≡ ok d) × (leb 2 d ≡ true) × (leb d 5 ≡ true)
retry_delay_bounds_example = retry_delay_bounds whole-FloatLaws 3 2 5 (ground arith, refl, refl)

retry_delay-eq-doubled_fully_example : retry_delay whole 3 2 5 ≡ ok (doubled_fully whole 2 5 2)
retry_delay-eq-doubled_fully_example =
    retry_delay-eq-doubled_fully whole-FloatLaws 3 2 5 (ground arith, refl, refl)

first_delay : retry_delay whole 1 2 5 ≡ ok 2
unfolding retry_delay
first_delay = refl

second_delay : retry_delay whole 2 2 5 ≡ ok 4
unfolding retry_delay
second_delay = refl

retry_delay_mono_example : leb 2 4 ≡ true
retry_delay_mono_example =
    retry_delay_mono whole-FloatLaws 1 2 5 2 4 (ground arith, refl, refl) first_delay second_delay
