-- ===== src/Supervise/Process/Tests.antt =====
-- internal/supervise/supervise.go, `Process`: a start, a crash and a stop, and uses of the theorems.
use polyseat.Prelude.{ℕ, ◌*◌, ◌≤◌, ◌≡◌, refl, false, none, some, List, [], ◌∷◌}
use polyseat.Supervise.Backoff.{second, next_backoff}
use polyseat.Supervise.Process.{
  Process, stopped, running, taken, up, Event, starts, takes, cancels, settles, releases, enters,
  spawns, exits, judges, wakes, returns, restarts, new, step, run, children,
}
use polyseat.Supervise.Process.Invariant.{children-le, idle_is_stopped, stop_ends, finish, at_rest}

-- The child dies after two seconds, and is started again; a `Stop` comes before it is.
abbrev history : List Event
history =
    starts
    ∷ enters 0
    ∷ spawns 0
    ∷ exits 0
    ∷ judges 0
    ∷ restarts 0 (2 * second)
    ∷ wakes 0
    ∷ enters 0
    ∷ takes
    ∷ spawns 0
    ∷ []

abbrev there : Process
there = record {
  state = running;
  handle = none;
  stopping = some (record { done = 0; phase = taken });
  backoff = second;
  loops = record { done = 0; is_cancelled = false; phase = up } ∷ [];
  next_done = 1;
}

reached : run new history ≡ some there
unfolding run new step next_backoff
reached = refl

-- A `Start` waits for the `Stop` in progress.
start_waits : step there starts ≡ none
unfolding step
start_waits = refl

children-le_example : children there.loops ≤ 1
children-le_example = children-le there history reached

stop_ends_example : (b : ℕ) × (run there (finish taken there.loops) ≡ some (at_rest b 1))
stop_ends_example = stop_ends there history (record { done = 0; phase = taken }) reached refl

abbrev through : List Event
through = starts ∷ takes ∷ cancels ∷ returns 0 ∷ settles ∷ releases ∷ []

ended : run new through ≡ some (at_rest 0 1)
unfolding run new step
ended = refl

idle_is_stopped_example : ((at_rest 0 1).loops ≡ []) × ((at_rest 0 1).state ≡ stopped)
idle_is_stopped_example = idle_is_stopped (at_rest 0 1) through ended refl refl
