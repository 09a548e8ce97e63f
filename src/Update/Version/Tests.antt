-- ===== src/Update/Version/Tests.antt =====
-- internal/update/update.go, tags: what `git describe` answers, and uses of the theorems.
use polyseat.Prelude.{ℕ, ◌≡◌, ◌<◌, ◌⊎◌, ◌↔◌, refl, true, none, arith}
use polyseat.Prelude.Decimal.{parse_int}
use polyseat.Prelude.Text.{codes, split, contains_any}
use polyseat.Update.Version.{parse_tag, newer}
use polyseat.Update.Version.Order.{release, newer-release}

-- A build from a commit after a release cannot be compared with one.
describe : parse_tag (codes "v0.1.0-4-gabc1234") ≡ none
unfolding parse_tag split contains_any parse_int
describe = refl

newer-release_example :
    (newer (release 0 9 12) (release 0 10 0) ≡ true)
    ↔ ((◌<◌ 0 0) ⊎ ((◌≡◌ {A = ℕ} 0 0) × ((9 < 10) ⊎ ((◌≡◌ {A = ℕ} 9 10) × (12 < 0)))))
newer-release_example =
    newer-release 0 9 12 0 10 0 (omega arith) (omega arith) (omega arith) (omega arith)
      (omega arith) (omega arith)

first_step : newer (release 0 9 12) (release 0 10 0) ≡ true
first_step =
    (newer-release 0 9 12 0 10 0 (omega arith) (omega arith) (omega arith) (omega arith)
        (omega arith) (omega arith)).1
      (omega arith)

second_step : newer (release 0 10 0) (release 1 0 0) ≡ true
second_step =
    (newer-release 0 10 0 1 0 0 (omega arith) (omega arith) (omega arith) (omega arith)
        (omega arith) (omega arith)).1
      (omega arith)
