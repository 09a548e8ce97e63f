-- ===== src/Auth/Limiter/Budget.antt =====
-- internal/auth/auth.go: how many guesses at a password one source gets.
use native.Mathlib.Nat.{add-zero, zero-add}
use polyseat.Prelude.{
  subst, ◌∙◌, ℕ, suc, ◌+◌, ◌≤◌, String, ◌≡◌, refl, inl, inr, false, none, List, [], ◌∷◌, arith,
  eq_iff, ltb, if◌then◌else◌, Bool-cases,
}
use polyseat.Prelude.Dict.{lookup}
use polyseat.Auth.Limiter.{Limiter, fail_window, attempt, Call, tries, step}
use polyseat.Auth.Limiter.Pace.{
  waits, Tracked, first-Tracked, Tracked-attempt, Tracked-other, waits-later, waits-le, waits-25,
}
use polyseat.Auth.Limiter.Others.{passes, IsApart, step-cases}

-- How many guesses of the source are let through in these calls.
unfoldable pub admitted : String → List (ℕ × Call) → Limiter → ℕ
unfolding passes
admitted key [] l = 0
admitted key ((t, c) ∷ cs) l = (if passes key t c l then 1 else 0) + admitted key cs (step l (t, c))

-- The times rise, from the first to the last one given, and every call is apart.
abbrev pub Within : String → ℕ → ℕ → List (ℕ × Call) → Limiter → Type 0
Within key from to [] l = from ≤ to
Within key from to ((t, c) ∷ cs) l =
    (from ≤ t) × IsApart key l c × Within key t to cs (step l (t, c))

Within-le :
    (key : String) (from to : ℕ) (cs : List (ℕ × Call)) (l : Limiter)
    → Within key from to cs l
    → from ≤ to
Within-le key from to [] l h = h
Within-le key from to ((t, c) ∷ cs) l (le, a, h) =
    omega (arith, Within-le key t to cs (step l (t, c)) h)

-- What a call does to the count, where it is a guess of the source and where it is not.
admitted-guess :
    (key : String) (t : ℕ) (c : Call) (cs : List (ℕ × Call)) (l : Limiter)
    → c ≡ tries key
    → admitted key ((t, c) ∷ cs) l
      ≡ (if (attempt t key l).0.allowed then 1 else 0) + admitted key cs (attempt t key l).1
unfolding admitted passes step
admitted-guess key t c cs l e = rw e (ground (arith, eq_iff key key))

admitted-other :
    (key : String) (t : ℕ) (c : Call) (cs : List (ℕ × Call)) (l : Limiter)
    → passes key t c l ≡ false
    → admitted key ((t, c) ∷ cs) l ≡ admitted key cs (step l (t, c))
unfolding admitted
admitted-other key t c cs l e = rw (e, zero-add) refl

step-tries :
    (key : String) (t : ℕ) (c : Call) (l : Limiter)
    → c ≡ tries key
    → step l (t, c) ≡ (attempt t key l).1
unfolding step
step-tries key t c l e = rw e refl

waits-admitted :
    (key : String) (t0 n t to : ℕ) (cs : List (ℕ × Call)) (l : Limiter)
    → Tracked key t0 t n l
    → Within key t to cs l
    → to ≤ t0 + fail_window
    → t0 + waits (n + admitted key cs l) ≤ to
waits-admitted key t0 n t to [] l w h short =
    unfold admitted in rw add-zero (omega (arith, w.since, w.before))
waits-admitted key t0 n t to ((t', c) ∷ cs) l w (le, apart, h) short =
    let late : t' ≤ t0 + fail_window = omega (arith, Within-le key t' to cs (step l (t', c)) h) in
    elim (step-cases key t' c l apart) [
      | inr (silent, same) ↦ rw (admitted-other key t' c cs l silent) (
          waits-admitted key t0 n t' to cs (step l (t', c))
            (Tracked-other key t0 t t' n l _ le same w) h short)
      | inl guess ↦
          let h' = subst (Within key t' to cs) (step-tries key t' c l guess) h in
          elim (Tracked-attempt key t0 n t l w t' le late) [
            | inl (refused, w') ↦
                rw (admitted-guess key t' c cs l guess, refused, zero-add)
                  (waits-admitted key t0 n t' to cs (attempt t' key l).1 w' h' short)
            | inr (passed, w') ↦
                let m : ℕ = admitted key cs (attempt t' key l).1 in
                let e : n + (1 + m) ≡ suc n + m = omega arith in
                rw (admitted-guess key t' c cs l guess, passed, e)
                  (waits-admitted key t0 (suc n) t' to cs (attempt t' key l).1 w' h' short)
          ]
    ]

-- A source that starts without a record gets no more guesses, over a span within the window in
-- which failures are remembered, than the waiting times between them leave room for.
pub waits-admitted-le :
    (key : String) (t0 to : ℕ) (cs : List (ℕ × Call)) (l : Limiter)
    → lookup key l ≡ none
    → Within key t0 to cs l
    → to ≤ t0 + fail_window
    → t0 + waits (admitted key cs l) ≤ to
waits-admitted-le key t0 to [] l new h short = unfold admitted in unfold waits in omega arith
waits-admitted-le key t0 to ((t, c) ∷ cs) l new (le, apart, h) short =
    elim (step-cases key t c l apart) [
      | inr (silent, same) ↦ rw (admitted-other key t c cs l silent) (
          waits-later t0 t (admitted key cs (step l (t, c))) to le
            (waits-admitted-le key t to cs (step l (t, c)) (same ∙ new) h (omega arith)))
      | inl guess ↦
          let (passed, w) = first-Tracked key t0 t l le new in
          rw (admitted-guess key t c cs l guess, passed)
            (waits-admitted key t0 1 t to cs (attempt t key l).1 w
              (subst (Within key t to cs) (step-tries key t c l guess) h) short)
    ]

-- A source that starts without a record has at most 24 guesses let through within the window of fifteen
-- minutes, whenever it guesses and whatever calls for other sources come between, as long as nothing
-- but its guesses arrives of its own, so that no password of its own is accepted, and the map has room
-- at each call that may add another source.
pub admitted-le :
    (key : String) (t0 : ℕ) (cs : List (ℕ × Call)) (l : Limiter)
    → lookup key l ≡ none
    → Within key t0 (t0 + fail_window) cs l
    → admitted key cs l ≤ 24
admitted-le key t0 cs l new h =
    let n : ℕ = admitted key cs l in
    elim (Bool-cases (ltb 24 n)) [
      | inl more ↦ absurd (
          omega (
            arith,
            waits-admitted-le key t0 (t0 + fail_window) cs l new h (omega arith),
            waits-le n 25 (ground arith),
            waits-25,
          ))
      | inr fine ↦ ground arith
    ]
