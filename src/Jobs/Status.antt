-- ===== src/Jobs/Status.antt =====
-- The job lifecycle: `JobStatus` and `JobLane` of packages/domain/enums.py, the transition table and
-- `failure_status` of packages/domain/jobs.py.
use autonomus_academic_assis.Base.{
  ℕ, ◌≡◌, ◌↔◌, Bool, true, false, ◌&&◌, ◌||◌, List, [], ◌∷◌, arith, ltb, ◌==◌, if◌then◌else◌,
  Result, ok, raise, value_error,
}

pub data JobStatus : Type 0 where
  pending running partial succeeded failed cancelled retrying : JobStatus

pub JobStatus-discrete : Discrete JobStatus
JobStatus-discrete = hlevel

pub data JobLane : Type 0 where
  interactive prefetch batch : JobLane

-- `==` on two statuses
abbrev rank : JobStatus → ℕ
rank pending = 0
rank running = 1
rank partial = 2
rank succeeded = 3
rank failed = 4
rank cancelled = 5
rank retrying = 6

abbrev pub same_status : JobStatus → JobStatus → Bool
same_status s t = rank s == rank t

pub same_status_iff : (s t : JobStatus) → (same_status s t ≡ true) ↔ (s ≡ t)
same_status_iff s t = ground arith

abbrev lane_rank : JobLane → ℕ
lane_rank interactive = 0
lane_rank prefetch = 1
lane_rank batch = 2

-- `lane in lanes`
abbrev pub in_lanes : JobLane → List JobLane → Bool
in_lanes l [] = false
in_lanes l (m ∷ ms) = (lane_rank l == lane_rank m) || in_lanes l ms

-- `_TRANSITIONS`
unfoldable pub transitions : JobStatus → List JobStatus
transitions pending = running ∷ cancelled ∷ []
transitions retrying = running ∷ cancelled ∷ []
transitions running = partial ∷ succeeded ∷ failed ∷ cancelled ∷ retrying ∷ []
transitions partial = retrying ∷ cancelled ∷ []
transitions succeeded = []
transitions failed = []
transitions cancelled = []

abbrev pub contains_status : JobStatus → List JobStatus → Bool
contains_status s [] = false
contains_status s (t ∷ ts) = same_status s t || contains_status s ts

unfoldable pub validate_transition : JobStatus → JobStatus → Result (Unit {0})
unfolding transitions
validate_transition source target =
    if contains_status target (transitions source)
    then ok tt
    else raise (value_error "Invalid job transition")

unfoldable pub failure_status : ℕ → ℕ → Bool → JobStatus
failure_status attempts max_attempts retryable =
    if retryable && ltb attempts max_attempts then retrying else failed
