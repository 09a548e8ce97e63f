-- ===== src/Seat/Manager/Lanes/Tests.antt =====
-- Tests of the lanes, and the witnesses of their theorems.
use polyseat.Prelude.{length, ◌≤◌, ◌≡◌, refl, true, false, none, some, List, [], ◌∷◌}
use polyseat.Prelude.Text.{codes}
use polyseat.Seat.Manager.Lanes.{
  LaneName, sweep, apps, asking, free, reading, working, waiting, Runtime, Event, lock, look, begin,
  stop, wait, lane_of, run, fresh,
}
use polyseat.Seat.Manager.Lanes.Apart.{is_reading}
use polyseat.Seat.Manager.Lanes.Steps.{readings_apart}
use polyseat.Seat.Manager.Lanes.Going.{going}
use polyseat.Seat.Manager.Lanes.Left.{steps_left}
use polyseat.Seat.Manager.Lanes.Ends.{claimed_works}

-- A reading of the apps runs when somebody stops the seat, and the sweep comes too late.
abbrev late : List Event
late =
    lock apps
    ∷ look apps
    ∷ lock sweep
    ∷ begin (codes "stopping")
    ∷ look sweep
    ∷ stop
    ∷ stop
    ∷ wait
    ∷ []

abbrev seat : Runtime
seat = record {
  busy = some (codes "stopping");
  is_stopping = false;
  operation = waiting (apps ∷ asking ∷ []);
  sweep_lane = record { phase = free; has_cancel = false; is_cancelled = false };
  apps_lane = record { phase = reading; has_cancel = true; is_cancelled = true };
  asking_lane = record { phase = free; has_cancel = false; is_cancelled = false };
}

run-late : run late fresh ≡ some seat
unfolding run
run-late = refl

-- The operation waits for the lane.
waits_for_apps : run (wait ∷ []) seat ≡ none
unfolding run
waits_for_apps = refl

readings_apart_example :
    (seat.operation ≡ working → (l : LaneName) → is_reading (lane_of l seat).phase ≡ false)
    × ((ls : List LaneName)
        → seat.operation ≡ waiting ls
        → (l : LaneName) → is_reading (lane_of l seat).phase ≡ true
        → (lane_of l seat).is_cancelled ≡ true)
readings_apart_example = readings_apart late seat run-late

claimed_works_example :
    ((more : List Event) × (t : Runtime) × (going more seat ≡ some t) × (t.operation ≡ working))
    × ((more : List Event) (t : Runtime) → going more seat ≡ some t → length more ≤ steps_left seat)
claimed_works_example = claimed_works late seat run-late refl
