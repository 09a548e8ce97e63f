-- ===== src/Supervise/Tests.antt =====
-- internal/supervise/supervise.go, the wait: uses of the theorems.
use polyseat.Prelude.{ℕ, ◌*◌, ◌<◌, ◌≤◌, List, [], ◌∷◌, arith}
use polyseat.Supervise.Backoff.{
  second, max_backoff, backoff_after, max_backoff-lt, backoff_after-le,
}

-- Six runs of a second each.
abbrev crashes : List ℕ
crashes = second ∷ second ∷ second ∷ second ∷ second ∷ second ∷ []

max_backoff-lt_example : max_backoff < backoff_after 0 crashes
max_backoff-lt_example = max_backoff-lt crashes (omega arith) (omega arith)

backoff_after-le_example : backoff_after 0 crashes ≤ 32 * second
backoff_after-le_example = backoff_after-le crashes
