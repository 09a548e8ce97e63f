-- ===== src/Supervise/Process.antt =====
-- internal/supervise/supervise.go, `Process`: starting, stopping and the supervising goroutines, as
-- the sequence of their critical sections and of what happens to the child.
pub mod Invariant
mod Tests
use polyseat.Prelude.{
  ℕ, ◌+◌, Bool, true, false, ◌&&◌, not, Option, none, some, List, [], ◌∷◌, ◌==◌, if◌then◌else◌,
}
use polyseat.Supervise.Backoff.{next_backoff}

pub data State : Type 0 where
  stopped running restarting failed : State

-- Where a goroutine of `supervise` stands: before the test of its context at the top of the loop;
-- past it; with its child; after the child is gone; past the test that follows; and in its wait.
pub data Phase : Type 0 where
  top entering up gone judging waiting : Phase

-- A goroutine of `supervise`, known by the `done` channel that it closes at its end.
pub record Loop : Type 0 where
  pub done : ℕ
  pub is_cancelled : Bool
  pub phase : Phase

-- A `Stop` that took the handle: before its call of `cancel`, in its wait for `done`, and after it
-- has set the state.
pub data StopPhase : Type 0 where
  taken cancelled settled : StopPhase

pub record Stop : Type 0 where
  pub done : ℕ
  pub phase : StopPhase

-- `handle` is the `done` channel that is kept with `cancel`, and `stopping` is the `Stop` in
-- progress, whose channel of that name is not closed yet.
pub record Process : Type 0 where
  pub state : State
  pub handle : Option ℕ
  pub stopping : Option Stop
  pub backoff : ℕ
  pub loops : List Loop
  pub next_done : ℕ

pub new : Process
new = record {
  state = stopped;
  handle = none;
  stopping = none;
  backoff = 0;
  loops = [];
  next_done = 0;
}

pub data Event : Type 0 where
  -- a round of the loop in `Start`
  starts : Event
  -- `Stop` up to its second unlock, its call of `cancel`, what follows `<-done`, and its end
  takes cancels settles releases : Event
  -- steps of the goroutine that closes a channel
  enters spawns exits judges gives_up wakes returns : ℕ → Event
  -- the child ran for so long, and the process is started again
  restarts : ℕ → ℕ → Event

pub find : ℕ → List Loop → Option Loop
find g [] = none
find g (l ∷ ls) = if l.done == g then some l else find g ls

pub replace : Loop → List Loop → List Loop
replace l [] = []
replace l (k ∷ ls) = if k.done == l.done then l ∷ ls else k ∷ replace l ls

pub remove : ℕ → List Loop → List Loop
remove g [] = []
remove g (l ∷ ls) = if l.done == g then ls else l ∷ remove g ls

-- A goroutine goes on from one phase to the next.
pub move : Process → Loop → Phase → Process
unfolding replace
move p l phase = record p { loops = replace (record l { phase = phase }) p.loops }

-- What a goroutine may do next; `none` where it cannot.
advance : Process → Event → Loop → Phase → Bool → Option Process
unfolding move remove
advance p (enters g) l top false = some (move p l entering)
advance p (spawns g) l entering c = some (move (record p { state = running }) l up)
advance p (exits g) l up c = some (move p l gone)
advance p (judges g) l gone false = some (move p l judging)
advance p (gives_up g) l judging c = some (record p { state = failed; loops = remove g p.loops })
advance p (restarts g uptime) l judging c =
    some (move (record p { state = restarting; backoff = next_backoff uptime p.backoff }) l waiting)
advance p (wakes g) l waiting c = some (move p l top)
advance p (returns g) l top true = some (record p { loops = remove g p.loops })
advance p (returns g) l gone true = some (record p { loops = remove g p.loops })
advance p (returns g) l waiting true = some (record p { loops = remove g p.loops })
advance p e l phase c = none

advances : Process → Event → ℕ → Option Process
unfolding advance find
advances p e g = elim (find g p.loops) [
  | none ↦ none
  | some l ↦ advance p e l l.phase l.is_cancelled
]

start : Process → Option Process
start p = elim p.handle [
  | some g ↦ some p
  | none ↦ elim p.stopping [
    | some g ↦ none
    | none ↦
        let l : Loop = record { done = p.next_done; is_cancelled = false; phase = top } in
        some (record p {
          handle = some p.next_done;
          backoff = 0;
          loops = l ∷ p.loops;
          next_done = p.next_done + 1;
        })
  ]
]

cancel : ℕ → List Loop → List Loop
cancel g [] = []
cancel g (l ∷ ls) = (if l.done == g then record l { is_cancelled = true } else l) ∷ cancel g ls

take_handle : Process → Option Process
take_handle p = elim p.handle [
  | none ↦ none
  | some g ↦ some (record p { handle = none; stopping = some (record { done = g; phase = taken }) })
]

-- The wait for `done` is over when no goroutine is left to close the channel.
settle : Process → Stop → Option Process
unfolding find
settle p s = elim (find s.done p.loops) [
  | some l ↦ none
  | none ↦ some (record p { state = stopped; stopping = some (record s { phase = settled }) })
]

-- The steps of a `Stop` after it has taken the handle.
stop : Process → Event → Stop → StopPhase → Option Process
unfolding cancel settle
stop p cancels s taken = some (record p {
  stopping = some (record s { phase = StopPhase.cancelled });
  loops = cancel s.done p.loops;
})
stop p settles s StopPhase.cancelled = settle p s
stop p releases s settled = some (record p { stopping = none })
stop p e s phase = none

stops : Process → Event → Option Process
unfolding stop
stops p e = elim p.stopping [ none ↦ none | some s ↦ stop p e s s.phase ]

-- One step of the process; `none` where it cannot happen, or has to wait.
pub step : Process → Event → Option Process
unfolding start take_handle stops advances
step p starts = start p
step p takes = take_handle p
step p cancels = stops p cancels
step p settles = stops p settles
step p releases = stops p releases
step p (enters g) = advances p (enters g) g
step p (spawns g) = advances p (spawns g) g
step p (exits g) = advances p (exits g) g
step p (judges g) = advances p (judges g) g
step p (gives_up g) = advances p (gives_up g) g
step p (wakes g) = advances p (wakes g) g
step p (returns g) = advances p (returns g) g
step p (restarts g uptime) = advances p (restarts g uptime) g

pub run : Process → List Event → Option Process
run p [] = some p
run p (e ∷ es) = elim (step p e) [ none ↦ none | some q ↦ run q es ]

-- How many children run, of all that were ever started.
pub children : List Loop → ℕ
children [] = 0
children (l ∷ ls) = (elim l.phase [ up ↦ 1 | _ ↦ 0 ]) + children ls
