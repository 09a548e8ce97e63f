-- ===== src/Seat/Manager/Lanes.antt =====
-- internal/seat/manager.go: readings of a seat and the operations that exclude them. A step is what
-- one goroutine does while it holds Manager.mu, or one call on a lane's lock, so that a list of
-- events is an interleaving of the readings, the operations and the rest.
pub mod Apart
pub mod Steps
pub mod Going
pub mod Left
pub mod Ends
mod Tests
use polyseat.Prelude.{
  Bool, true, false, ◌&&◌, ◌||◌, not, Option, none, some, List, [], ◌∷◌, if◌then◌else◌,
}
use polyseat.Prelude.Text.{Text}

pub data LaneName : Type 0 where
  sweep apps asking : LaneName

-- Where the goroutine that has a lane's lock stands in `enter` and `end`: it has the lock and has not
-- looked, it reads, or it has put its cancel back and still has the lock.
pub data Phase : Type 0 where
  free entering reading ending : Phase

-- `lane`: the lock with its holder, whether there is a cancel, and whether it was called.
pub record Lane : Type 0 where
  pub phase : Phase
  pub has_cancel : Bool
  pub is_cancelled : Bool

-- Where the operation stands: it calls the cancels that `claim` found, it waits for the lanes in
-- `quiesce`, or it works.
pub data Operation : Type 0 where
  idle working : Operation
  stopping waiting : List LaneName → Operation

-- `runtime`, where `busy` is none for the empty label.
pub record Runtime : Type 0 where
  pub busy : Option Text
  pub is_stopping : Bool
  pub operation : Operation
  pub sweep_lane : Lane
  pub apps_lane : Lane
  pub asking_lane : Lane

pub data Event : Type 0 where
  lock look finish release : LaneName → Event
  begin : Text → Event
  stop wait leave : Event
  state : Bool → Event

abbrev pub lane_of : LaneName → Runtime → Lane
lane_of sweep s = s.sweep_lane
lane_of apps s = s.apps_lane
lane_of asking s = s.asking_lane

abbrev pub with_lane : LaneName → Lane → Runtime → Runtime
with_lane sweep v s = record s { sweep_lane = v }
with_lane apps v s = record s { apps_lane = v }
with_lane asking v s = record s { asking_lane = v }

abbrev pub lanes : List LaneName
lanes = sweep ∷ apps ∷ asking ∷ []

-- `l.mu.Lock()` and `l.mu.TryLock()`, which another holder keeps from happening.
abbrev pub lock_lane : Lane → Phase → Option Lane
lock_lane v free = some (record v { phase = entering })
lock_lane v entering = none
lock_lane v reading = none
lock_lane v ending = none

-- The look of `enter` at the seat: it gives the lock back, or it makes a context and reads.
abbrev pub look_lane : Bool → Lane → Phase → Option Lane
look_lane true v entering = some (record v { phase = free })
look_lane false v entering =
    some (record { phase = reading; has_cancel = true; is_cancelled = false })
look_lane b v free = none
look_lane b v reading = none
look_lane b v ending = none

-- The first half of `end`.
abbrev pub finish_lane : Lane → Phase → Option Lane
finish_lane v reading = some (record v { phase = ending; has_cancel = false })
finish_lane v free = none
finish_lane v entering = none
finish_lane v ending = none

-- The second.
abbrev pub release_lane : Lane → Phase → Option Lane
release_lane v ending = some (record v { phase = free; is_cancelled = true })
release_lane v free = none
release_lane v entering = none
release_lane v reading = none

abbrev pub cancel_lane : Lane → Lane
cancel_lane v = record v { is_cancelled = true }

abbrev pub is_busy : Option Text → Bool
is_busy none = false
is_busy (some label) = true

abbrev pub is_free : Phase → Bool
is_free free = true
is_free entering = false
is_free reading = false
is_free ending = false

abbrev pub moved : LaneName → Runtime → Option Lane → Option Runtime
moved l s none = none
moved l s (some v) = some (with_lane l v s)

-- The lanes whose readings `claim` stops.
unfoldable pub readings : Runtime → List LaneName → List LaneName
readings s [] = []
readings s (l ∷ ls) =
    let rest = readings s ls in if (lane_of l s).has_cancel then l ∷ rest else rest

abbrev pub claimed : Text → Runtime → List LaneName → Option Text → Option Runtime
claimed label s ls (some other) = some s
claimed label s ls none = some (record s { busy = some label; operation = stopping ls })

abbrev pub stopped : Runtime → Operation → Option Runtime
stopped s (stopping (l ∷ ls)) =
    some (record (with_lane l (cancel_lane (lane_of l s)) s) { operation = stopping ls })
stopped s (stopping []) = some (record s { operation = waiting lanes })
stopped s idle = none
stopped s working = none
stopped s (waiting ls) = none

abbrev pub waited : Runtime → Operation → Option Runtime
waited s (waiting (l ∷ ls)) =
    if is_free (lane_of l s).phase then some (record s { operation = waiting ls }) else none
waited s (waiting []) = some (record s { operation = working })
waited s idle = none
waited s working = none
waited s (stopping ls) = none

abbrev pub left : Runtime → Operation → Option Runtime
left s working = some (record s { busy = none; operation = idle })
left s idle = none
left s (stopping ls) = none
left s (waiting ls) = none

unfoldable pub step : Event → Runtime → Option Runtime
unfolding readings
step (lock l) s = moved l s (lock_lane (lane_of l s) (lane_of l s).phase)
step (look l) s =
    moved l s (look_lane (is_busy s.busy || s.is_stopping) (lane_of l s) (lane_of l s).phase)
step (finish l) s = moved l s (finish_lane (lane_of l s) (lane_of l s).phase)
step (release l) s = moved l s (release_lane (lane_of l s) (lane_of l s).phase)
step (begin label) s = claimed label s (readings s lanes) s.busy
step stop s = stopped s s.operation
step wait s = waited s s.operation
step leave s = left s s.operation
step (state b) s = some (record s { is_stopping = b })

unfoldable pub run : List Event → Runtime → Option Runtime
unfolding step
run [] s = some s
run (e ∷ es) s = elim (step e s) [ none ↦ none | some t ↦ run es t ]

abbrev fresh_lane : Lane
fresh_lane = record { phase = free; has_cancel = false; is_cancelled = false }

-- A runtime that `runtimeOf` has just made.
abbrev pub fresh : Runtime
fresh = record {
  busy = none;
  is_stopping = false;
  operation = idle;
  sweep_lane = fresh_lane;
  apps_lane = fresh_lane;
  asking_lane = fresh_lane;
}
