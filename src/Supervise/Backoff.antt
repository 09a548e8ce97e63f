-- ===== src/Supervise/Backoff.antt =====
-- internal/supervise/supervise.go: the wait before a helper process is started again.
use native.Mathlib.Nat.{add-zero, zero-add}
use polyseat.Prelude.{
  ℕ, zero, suc, ◌+◌, ◌*◌, ◌^◌, ◌≤◌, ◌<◌, ◌≡◌, arith, ltb, ◌==◌, if◌then◌else◌, min, List, [], ◌∷◌,
  length, ap, ◌∙◌, inl, inr, Bool-cases,
}

abbrev pub second : ℕ
second = 1000000000

abbrev pub minute : ℕ
minute = 60 * second

abbrev pub max_backoff : ℕ
max_backoff = 30 * second

-- The wait after a run that lasted so long, from the wait before it.
unfoldable pub next_backoff : ℕ → ℕ → ℕ
next_backoff uptime backoff =
    if ltb minute uptime
    then 0
    else if backoff == 0
    then second
    else if ltb backoff max_backoff
    then backoff * 2
    else backoff

-- The wait after runs that lasted so long, the latest one last, in a process that was just started.
pub backoff_after : ℕ → List ℕ → ℕ
backoff_after backoff [] = backoff
backoff_after backoff (uptime ∷ rest) = backoff_after (next_backoff uptime backoff) rest

-- No run lasts longer than a minute.
abbrev pub AllShort : List ℕ → Type 0
AllShort [] = Unit {0}
AllShort (u ∷ us) = (u ≤ minute) × AllShort us

-- The wait after so many short runs: one second, twice as long each time, 32 seconds at most.
abbrev pub doubled : ℕ → ℕ
doubled zero = 0
doubled (suc n) = 2 ^ min n 5 * second

next_backoff-doubled : (u n : ℕ) → u ≤ minute → next_backoff u (doubled n) ≡ doubled (suc n)
unfolding next_backoff
next_backoff-doubled u zero h = ground arith
next_backoff-doubled u (suc zero) h = ground arith
next_backoff-doubled u (suc (suc zero)) h = ground arith
next_backoff-doubled u (suc (suc (suc zero))) h = ground arith
next_backoff-doubled u (suc (suc (suc (suc zero)))) h = ground arith
next_backoff-doubled u (suc (suc (suc (suc (suc zero))))) h = ground arith
next_backoff-doubled u (suc (suc (suc (suc (suc (suc n)))))) h =
    let e : min (suc (suc (suc (suc (suc n))))) 5 ≡ 5 = omega arith in
    let e' : min (suc (suc (suc (suc (suc (suc n)))))) 5 ≡ 5 = omega arith in
    rw (e, e') (ground arith)

backoff_after-doubled :
    (n : ℕ) (us : List ℕ) → AllShort us → backoff_after (doubled n) us ≡ doubled (n + length us)
unfolding backoff_after
backoff_after-doubled n [] h = rw add-zero
backoff_after-doubled n (u ∷ us) (short, h) =
    let e : n + suc (length us) ≡ suc n + length us = omega arith in
    rw (next_backoff-doubled u n short, e) (backoff_after-doubled (suc n) us h)

-- A process that was started and keeps exiting within a minute waits a second, then twice as long
-- after each exit, and 32 seconds from the sixth exit on.
pub backoff_after-short : (us : List ℕ) → AllShort us → backoff_after 0 us ≡ doubled (length us)
backoff_after-short us h = backoff_after-doubled 0 us h ∙ ap doubled (zero-add (length us))

-- A wait is longer than `max_backoff` after every sixth and later exit in a row within a minute.
pub max_backoff-lt : (us : List ℕ) → AllShort us → 6 ≤ length us → max_backoff < backoff_after 0 us
max_backoff-lt us h six = rw (backoff_after-short us h) (long (length us) six)
  where
    long : (n : ℕ) → 6 ≤ n → max_backoff < doubled n
    long zero k = absurd (omega arith)
    long (suc n) k = let e : min n 5 ≡ 5 = omega arith in rw e (omega arith)

doubled-le : (n : ℕ) → doubled n ≤ 32 * second
doubled-le zero = omega arith
doubled-le (suc zero) = omega arith
doubled-le (suc (suc zero)) = omega arith
doubled-le (suc (suc (suc zero))) = omega arith
doubled-le (suc (suc (suc (suc zero)))) = omega arith
doubled-le (suc (suc (suc (suc (suc zero))))) = omega arith
doubled-le (suc (suc (suc (suc (suc (suc n)))))) =
    let e : min (suc (suc (suc (suc (suc n))))) 5 ≡ 5 = omega arith in rw e (omega arith)

backoff_after-le_of_doubled : (us : List ℕ) (n : ℕ) → backoff_after (doubled n) us ≤ 32 * second
unfolding backoff_after
backoff_after-le_of_doubled [] n = doubled-le n
backoff_after-le_of_doubled (u ∷ us) n = elim (Bool-cases (ltb minute u)) [
  | inl long ↦
      let e : next_backoff u (doubled n) ≡ doubled 0 = unfold next_backoff in rw long in
      rw e (backoff_after-le_of_doubled us 0)
  | inr short ↦
      rw (next_backoff-doubled u n (ground arith)) (backoff_after-le_of_doubled us (suc n))
]

-- However long the runs of a process that was started last, no wait is longer than 32 seconds.
pub backoff_after-le : (us : List ℕ) → backoff_after 0 us ≤ 32 * second
backoff_after-le us = backoff_after-le_of_doubled us 0
