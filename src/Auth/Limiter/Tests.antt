-- ===== src/Auth/Limiter/Tests.antt =====
-- internal/auth/auth.go, the limiter: runs at given times, and uses of the theorems.
use polyseat.Prelude.{
  ℕ, ◌+◌, inl, inr, ◌*◌, ◌≤◌, ◌≡◌, ◌≢◌, refl, String, List, [], ◌∷◌, arith, eq_iff,
}
use polyseat.Prelude.Dict.{lookup, insert}
use polyseat.Auth.Limiter.{
  second, fail_window, step, Call, asks, tries, fails, succeeds, allow, attempt, failed, run,
  make_room, counted, delay,
}
use polyseat.Auth.Limiter.Room.{IsBounded}
use polyseat.Auth.Limiter.Bounds.{run-IsBounded}
use polyseat.Auth.Limiter.Others.{passes}
use polyseat.Auth.Limiter.Budget.{admitted, Within, admitted-le}

-- Six guesses at one second with another source's among them, one a second later that has to wait,
-- and one after the wait.
abbrev guesses : List (ℕ × Call)
guesses =
    (second, tries "10.0.0.5")
    ∷ (second, tries "10.0.0.5")
    ∷ (second, tries "10.0.0.5")
    ∷ (second, tries "10.0.0.6")
    ∷ (second, tries "10.0.0.5")
    ∷ (second, tries "10.0.0.5")
    ∷ (second, tries "10.0.0.5")
    ∷ (2 * second, fails "10.0.0.6")
    ∷ (2 * second, tries "10.0.0.5")
    ∷ (3 * second, tries "10.0.0.5")
    ∷ []

seven_admitted : admitted "10.0.0.5" guesses [] ≡ 7
unfolding admitted passes attempt step allow failed make_room counted delay lookup insert
seven_admitted = refl

abbrev source : String
source = "10.0.0.5"

abbrev neighbour : String
neighbour = "10.0.0.6"

other : neighbour ≢ source
other e = ground (arith, eq_iff neighbour source)

guesses-Within : Within "10.0.0.5" second (second + fail_window) guesses []
unfolding step attempt allow failed make_room counted delay lookup insert
guesses-Within = (
  omega arith,
  inl refl,
  (
    omega arith,
    inl refl,
    (
      omega arith,
      inl refl,
      (
        omega arith,
        inr (other, omega arith),
        (
          omega arith,
          inl refl,
          (
            omega arith,
            inl refl,
            (
              omega arith,
              inl refl,
              (
                omega arith,
                (other, omega arith),
                (omega arith, inl refl, (omega arith, inl refl, omega arith)),
              ),
            ),
          ),
        ),
      ),
    ),
  ),
)

admitted-le_example : admitted "10.0.0.5" guesses [] ≤ 24
unfolding lookup
admitted-le_example = admitted-le "10.0.0.5" second guesses [] refl guesses-Within

abbrev calls : List (ℕ × Call)
calls =
    (second, tries "10.0.0.5")
    ∷ (second, fails "10.0.0.6")
    ∷ (2 * second, succeeds "10.0.0.5")
    ∷ (3 * second, asks "10.0.0.6")
    ∷ []

named : (s : String) → s ≡ "10.0.0.5" → s ≢ ""
named s e n = ground (arith, eq_iff "10.0.0.5" "")

named_other : (s : String) → s ≡ "10.0.0.6" → s ≢ ""
named_other s e n = ground (arith, eq_iff "10.0.0.6" "")

run-IsBounded_example : IsBounded (run [] calls)
run-IsBounded_example = run-IsBounded calls (
  named "10.0.0.5" refl,
  (named_other "10.0.0.6" refl, (named "10.0.0.5" refl, (named_other "10.0.0.6" refl, tt))),
)
