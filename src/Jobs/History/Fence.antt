-- ===== src/Jobs/History/Fence.antt =====
-- What every history of the queue keeps: the lifecycle, terminal rows, valid rows, and the fence that
-- keeps a worker without its lease from writing.
use mathlib.Core.List.{Forall₂}
use autonomus_academic_assis.Base.{
  ℕ, ◌≤◌, ◌<◌, ◌≡◌, refl, ◌≢◌, ◌⊎◌, inl, inr, true, false, Option, List, [], ◌∷◌, String, All,
  arith, ok, leb, sym, ◌∙◌, subst,
}
use autonomus_academic_assis.Base.Floats.{Floats, FloatLaws}
use autonomus_academic_assis.Jobs.Retry.{IsPolicy, retry_delay_bounds}
use autonomus_academic_assis.Jobs.Status.{
  JobStatus, JobStatus-discrete, running, contains_status, transitions, validate_transition,
}
use autonomus_academic_assis.Jobs.Events.{JobErrorCode, Job, Host}
use autonomus_academic_assis.Jobs.Repository.{Tables, Clock, ClaimedJob, heartbeat, ownership}
use autonomus_academic_assis.Jobs.Outcome.{finish}
use autonomus_academic_assis.Jobs.Lifecycle.Change.{IsValid, IsTerminal, transact-none}
use autonomus_academic_assis.Jobs.History.{Call, performs}
use autonomus_academic_assis.Jobs.History.Steps.{RowPath, here, next, performs-Paths}

-- Statuses reached from a status by the transition table.
pub data Reaches (s : JobStatus) : JobStatus → Type 0 where
  stay : Reaches s s
  move : {t u : JobStatus} → Reaches s t → contains_status u (transitions t) ≡ true → Reaches s u

move_or_stay :
    {s t u : JobStatus}
    → Reaches s t
    → (u ≡ t) ⊎ (contains_status u (transitions t) ≡ true)
    → Reaches s u
move_or_stay r (inl e) = rw e r
move_or_stay r (inr h) = move r h

-- What a row keeps of its past.
pub record Continues (row row' : Job) : Type 0 where
  pub same_id : row'.id ≡ row.id
  pub lifecycle : Reaches row.status row'.status
  pub attempts_grow : row.attempts ≤ row'.attempts
  pub frozen : IsTerminal row.status → row' ≡ row
  pub keeps : IsValid row → IsValid row'
  pub restart : row'.status ≡ running → (row.status ≡ running) ⊎ (row.attempts < row'.attempts)

RowPath-Continues : {row row' : Job} → RowPath row row' → Continues row row'
RowPath-Continues here = record {
  same_id = refl;
  lifecycle = stay;
  attempts_grow = omega arith;
  frozen = λ _. refl;
  keeps = λ v. v;
  restart = inl;
}
RowPath-Continues (next p s) =
    let c = RowPath-Continues p in
    record {
      same_id = cc (c.same_id, s.same_id);
      lifecycle = move_or_stay c.lifecycle s.lifecycle;
      attempts_grow = omega arith;
      frozen = λ t. let e = c.frozen t in s.frozen (subst (λ r. IsTerminal r.status) (sym e) t) ∙ e;
      keeps = λ v. s.keeps (c.keeps v);
      restart = λ e. elim (s.restart e) [
        | inl r ↦ elim (c.restart r) [ inl q ↦ inl q | inr lt ↦ inr (omega arith) ]
        | inr lt ↦ inr (omega arith)
      ];
    }

continue_all : {rows rows' : List Job} → Forall₂ RowPath rows rows' → Forall₂ Continues rows rows'
continue_all Forall₂.nil = Forall₂.nil
continue_all (Forall₂.cons p f) = Forall₂.cons (RowPath-Continues p) (continue_all f)

-- A property of rows that `Continues` carries over holds of all rows, if it did before.
carry :
    (P : Job → Type 0) {rows rows' : List Job}
    → ((row row' : Job) → Continues row row' → P row → P row')
    → Forall₂ Continues rows rows'
    → All P rows
    → All P rows'
carry P step Forall₂.nil h = tt
carry P step (Forall₂.cons c f) h = (step _ _ c h.0, carry P step f h.1)

-- The claim `job` no longer owns its row: the row has had a later attempt, or has left RUNNING since
-- this one.
abbrev pub IsStale : ClaimedJob → Job → Type 0
IsStale job row =
    row.id ≡ job.id
    → (job.attempts < row.attempts) ⊎ ((row.status ≢ running) × (job.attempts ≤ row.attempts))

IsStale-Continues :
    (job : ClaimedJob) (row row' : Job) → Continues row row' → IsStale job row → IsStale job row'
IsStale-Continues job row row' c stale e = elim (stale (sym c.same_id ∙ e)) [
  | inl lt ↦ inl (omega (arith, c.attempts_grow))
  | inr still ↦ elim (JobStatus-discrete row'.status running) [
    | yes r ↦ elim (c.restart r) [ inl q ↦ absurd (still.0 q) | inr lt ↦ inl (omega arith) ]
    | no n ↦ inr (n, omega (arith, c.attempts_grow))
  ]
]

not_owner :
    (now : ℕ) (job : ClaimedJob) (rows : List Job)
    → All (IsStale job) rows
    → All (λ row. ownership now job row ≡ false) rows
unfolding ownership
not_owner now job [] h = tt
not_owner now job (row ∷ rows) h = (ground (arith, h.0), not_owner now job rows h.1)

not_zero : (n : ℕ) → 1 ≤ n → leb n 0 ≡ false
not_zero n h = ground arith

module _ (host : Host) (F : Floats) (retry_base retry_max : F.Float) where
  -- Whatever calls are made, in any order, every row of the table keeps its identity, moves along the
  -- transition table only, never loses an attempt, and never changes once its status is terminal.
  pub performs-Continues :
      (calls : List Call) (t : Tables)
      → Forall₂ Continues t.jobs (performs host F retry_base retry_max calls t).jobs
  performs-Continues calls t = continue_all (performs-Paths host F retry_base retry_max calls t)

  -- If every row is valid, every row is valid after any calls: a running row has a worker, a lease, a
  -- heartbeat and an attempt, any other row has no worker, lease or heartbeat, and no row has had
  -- more attempts than it may have.
  pub performs-IsValid :
      (calls : List Call) (t : Tables)
      → All IsValid t.jobs
      → All IsValid (performs host F retry_base retry_max calls t).jobs
  performs-IsValid calls t h = carry IsValid (λ row row' c. c.keeps) (performs-Continues calls t) h

  module _ (laws : FloatLaws F) where
    -- A worker whose claim is stale can write nothing, after any further calls: its heartbeat and its
    -- `finish`, with any allowed outcome, return False and leave the tables as they are.
    pub stale_claim_is_fenced :
        (calls : List Call) (t : Tables) (job : ClaimedJob) (clock : Clock) (lease : ℕ)
        (status : JobStatus) (code : Option JobErrorCode) (result : Option String)
        → All (IsStale job) t.jobs
        → 1 ≤ lease
        → contains_status status (transitions running) ≡ true
        → IsPolicy laws job.attempts retry_base retry_max
        → let t' = performs host F retry_base retry_max calls t in
          (heartbeat clock job lease t' ≡ ok (false, t'))
          × (finish host F retry_base retry_max clock job status code result t' ≡ ok (false, t'))
    unfolding heartbeat finish validate_transition
    stale_claim_is_fenced calls t job clock lease status code result stale long allowed policy =
        let t' = performs host F retry_base retry_max calls t in
        let gone = carry (IsStale job) (IsStale-Continues job) (performs-Continues calls t) stale in
        let d = retry_delay_bounds laws job.attempts retry_base retry_max policy in
        (
          rw
              (
                not_zero lease long,
                transact-none (ownership (clock 0) job) _ t' (not_owner (clock 0) job t'.jobs gone),
              )
              refl,
          rw
              (
                allowed,
                d.1,
                transact-none (ownership (clock 1) job) _ t' (not_owner (clock 1) job t'.jobs gone),
              )
              refl,
        )
