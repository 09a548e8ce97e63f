-- ===== src/Auth/Limiter.antt =====
-- internal/auth/auth.go, the limiter: failed logins are counted by source. Times are nanoseconds, and
-- each call reads the clock once.
pub mod Room
pub mod Bounds
pub mod Pace
pub mod Others
pub mod Budget
mod Tests
use polyseat.Prelude.{
  ℕ, ◌+◌, ◌-◌, ◌*◌, ◌^◌, String, Bool, true, false, ◌&&◌, ◌||◌, not, Option, none, some, List, [],
  ◌∷◌, ltb, leb, if◌then◌else◌, str_eq, length, min,
}
use polyseat.Prelude.Dict.{Dict, lookup, insert, remove}

abbrev pub second : ℕ
second = 1000000000

abbrev pub fail_window : ℕ
fail_window = 15 * 60 * second

abbrev pub free_attempts : ℕ
free_attempts = 5

abbrev pub max_sources : ℕ
max_sources = 4096

-- `until` is 0 for the zero time, which lies before every clock reading.
pub record Attempts : Type 0 where
  pub count : ℕ
  pub last : ℕ
  pub until : ℕ

pub record Answer : Type 0 where
  pub allowed : Bool
  pub wait : ℕ

abbrev pub Limiter : Type 0
Limiter = Dict Attempts

-- `time.Since(a.last) > failWindow`
abbrev pub is_expired : ℕ → Attempts → Bool
is_expired now a = ltb fail_window (now - a.last)

pub allow : ℕ → String → Limiter → Answer × Limiter
allow now key l = elim (lookup key l) [
  | none ↦ (record { allowed = true; wait = 0 }, l)
  | some a ↦
      if is_expired now a
      then (record { allowed = true; wait = 0 }, remove key l)
      else if ltb 0 (a.until - now)
      then (record { allowed = false; wait = a.until - now }, l)
      else (record { allowed = true; wait = 0 }, l)
]

-- The key heard from longest ago, with its time, after one more record of the loop in `makeRoom`.
pub older : ℕ → String → Attempts → String × ℕ → String × ℕ
older now key a oldest =
    if is_expired now a
    then oldest
    else if str_eq oldest.0 "" || ltb a.last oldest.1
    then (key, a.last)
    else oldest

-- The loop of `makeRoom`: what is left of the map, and the key heard from longest ago. The key is
-- "" until a live record was met.
pub drop_expired : ℕ → Limiter → String × ℕ → Limiter × (String × ℕ)
unfolding older
drop_expired now [] oldest = ([], oldest)
drop_expired now ((key, a) ∷ l) oldest =
    let (kept, found) = drop_expired now l (older now key a oldest) in
    (if is_expired now a then kept else (key, a) ∷ kept, found)

pub make_room : ℕ → Limiter → Limiter
make_room now l =
    if ltb (length l) max_sources
    then l
    else let (kept, oldest) = drop_expired now l ("", 0) in
      if leb max_sources (length kept) && not (str_eq oldest.0 "")
      then remove oldest.0 kept
      else kept

abbrev pub fresh : Attempts
fresh = record { count = 0; last = 0; until = 0 }

-- How long a source waits after so many failures.
pub delay : ℕ → ℕ
delay count = 2 ^ min (count - free_attempts) 6 * second

pub counted : ℕ → Attempts → Attempts
counted now a = record {
  count = a.count + 1;
  last = now;
  until = if ltb free_attempts (a.count + 1) then now + delay (a.count + 1) else a.until;
}

pub failed : ℕ → String → Limiter → Limiter
failed now key l = elim (lookup key l) [
  | none ↦ insert key (counted now fresh) (make_room now l)
  | some a ↦ insert key (counted now (if is_expired now a then fresh else a)) l
]

pub attempt : ℕ → String → Limiter → Answer × Limiter
attempt now key l =
    let (answer, l') = allow now key l in (answer, if answer.allowed then failed now key l' else l')

pub succeeded : String → Limiter → Limiter
succeeded key l = remove key l

-- A request on the limiter: `Store.Allow`, `Attempt`, `Failed` and `Succeeded`.
pub data Call : Type 0 where
  asks tries fails succeeds : String → Call

pub step : Limiter → ℕ × Call → Limiter
step l (now, asks key) = (allow now key l).1
step l (now, tries key) = (attempt now key l).1
step l (now, fails key) = failed now key l
step l (now, succeeds key) = succeeded key l

pub run : Limiter → List (ℕ × Call) → Limiter
run l [] = l
run l (c ∷ cs) = run (step l c) cs
