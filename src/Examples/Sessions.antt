-- ===== src/Examples/Sessions.antt =====
-- The theorems on sessions at a session that is taught and then replanned.
use autonomus_academic_assis.Base.{ℕ, ◌+◌, ◌≤◌, ◌≡◌, refl, ok}
use autonomus_academic_assis.Session.{teaching, replanning, complete, legal_transition}
use autonomus_academic_assis.Session.Path.{
  Transitions, arrived, moved, step_to, Transitions-versions, session-completes,
}

taught : legal_transition (step_to teaching replanning 4) ≡ ok tt
unfolding legal_transition
taught = refl

abbrev one_step_count : ℕ
one_step_count = 1

Transitions-versions_example : (5 ≡ 4 + one_step_count) × (teaching ≡ complete → one_step_count ≡ 0)
Transitions-versions_example =
    Transitions-versions (moved (step_to teaching replanning 4) taught arrived)

session-completes_example : (w : ℕ) × (n : ℕ) × (n ≤ 2) × Transitions complete w teaching 4 n
session-completes_example = session-completes teaching 4
