-- ===== src/Seat/Manager/Lanes/Left.antt =====
-- internal/seat/manager.go: the steps that an operation and the readings have before them.
use mathlib.Core.Option.{some_inj}
use polyseat.Prelude.{
  ℕ, ◌+◌, ◌<◌, ◌≤◌, length, Bool-cases, Option, none, ◌≡◌, refl, ap, subst, ◌∙◌, inl, inr, Bool,
  true, false, ◌||◌, some, List, [], ◌∷◌, arith,
}
use polyseat.Seat.Manager.Lanes.{
  LaneName, sweep, apps, asking, Phase, free, entering, reading, ending, Lane, Operation, idle,
  working, stopping, waiting, Runtime, Event, lock, look, finish, release, begin, stop, wait, leave,
  state, lane_of, with_lane, lanes, look_lane, finish_lane, release_lane, cancel_lane, is_busy,
  is_free, moved, stopped, waited, step,
}
use polyseat.Seat.Manager.Lanes.Apart.{with_lane-operation}
use polyseat.Seat.Manager.Lanes.Going.{goes_on, going, going-cases}

-- How many such steps a lane has before it, and the operation.
abbrev lane_left : Phase → ℕ
lane_left free = 0
lane_left entering = 3
lane_left reading = 2
lane_left ending = 1

abbrev operation_left : Operation → ℕ
operation_left idle = 0
operation_left working = 0
operation_left (stopping ls) = length ls + 5
operation_left (waiting ls) = length ls + 1

abbrev pub steps_left : Runtime → ℕ
steps_left s =
    operation_left s.operation
    + (lane_left s.sweep_lane.phase + (lane_left s.apps_lane.phase + lane_left s.asking_lane.phase))

with_lane-left :
    (l : LaneName) (v : Lane) (s : Runtime)
    → steps_left (with_lane l v s) + lane_left (lane_of l s).phase
      ≡ steps_left s + lane_left v.phase
with_lane-left sweep v s = omega arith
with_lane-left apps v s = omega arith
with_lane-left asking v s = omega arith

moved-left :
    (l : LaneName) (s t : Runtime) (o : Option Lane)
    → moved l s o ≡ some t
    → ((w : Lane) → o ≡ some w → lane_left w.phase < lane_left (lane_of l s).phase)
    → steps_left t < steps_left s
moved-left l s t none h less = ground arith
moved-left l s t (some w) h less =
    subst (λ u. steps_left u < steps_left s) (some_inj.0 h)
      (omega (arith, with_lane-left l w s, less w refl))

look-left :
    (b : Bool) (v w : Lane) (p : Phase) → look_lane b v p ≡ some w → lane_left w.phase < lane_left p
look-left true v w entering h =
    subst (λ (u : Lane). lane_left u.phase < 3) (some_inj.0 h) (omega arith)
look-left false v w entering h =
    subst (λ (u : Lane). lane_left u.phase < 3) (some_inj.0 h) (omega arith)
look-left b v w free h = ground arith
look-left b v w reading h = ground arith
look-left b v w ending h = ground arith

finish-left : (v w : Lane) (p : Phase) → finish_lane v p ≡ some w → lane_left w.phase < lane_left p
finish-left v w reading h = subst (λ (u : Lane). lane_left u.phase < 2) (some_inj.0 h) (omega arith)
finish-left v w free h = ground arith
finish-left v w entering h = ground arith
finish-left v w ending h = ground arith

release-left :
    (v w : Lane) (p : Phase) → release_lane v p ≡ some w → lane_left w.phase < lane_left p
release-left v w ending h = subst (λ (u : Lane). lane_left u.phase < 1) (some_inj.0 h) (omega arith)
release-left v w free h = ground arith
release-left v w entering h = ground arith
release-left v w reading h = ground arith

-- The operation stands nearer its work, and no lane farther from being free.
operation-left :
    (s : Runtime) (o : Operation)
    → operation_left o < operation_left s.operation
    → steps_left (record s { operation = o }) < steps_left s
operation-left s o less = omega arith

stop-left :
    (s t : Runtime) (o : Operation)
    → s.operation ≡ o
    → stopped s o ≡ some t
    → steps_left t < steps_left s
stop-left s t (stopping (l ∷ ls)) e h =
    let u : Runtime = with_lane l (cancel_lane (lane_of l s)) s in
    subst (λ t. steps_left t < steps_left s) (some_inj.0 h)
      (omega (
        arith,
        with_lane-left l (cancel_lane (lane_of l s)) s,
        operation-left u (stopping ls) (
            omega
              (arith, ap operation_left (with_lane-operation l (cancel_lane (lane_of l s)) s ∙ e))),
      ))
stop-left s t (stopping []) e h =
    subst (λ t. steps_left t < steps_left s) (some_inj.0 h)
      (operation-left s (waiting lanes) (omega (arith, ap operation_left e)))
stop-left s t idle e h = ground arith
stop-left s t working e h = ground arith
stop-left s t (waiting ls) e h = ground arith

wait-left :
    (s t : Runtime) (o : Operation)
    → s.operation ≡ o
    → waited s o ≡ some t
    → steps_left t < steps_left s
wait-left s t (waiting (l ∷ ls)) e h = elim (Bool-cases (is_free (lane_of l s).phase)) [
  | inr f ↦ ground arith
  | inl f ↦
      subst (λ t. steps_left t < steps_left s) {x = record s { operation = waiting ls }} {y = t}
        (some_inj.0 (ground arith))
        (operation-left s (waiting ls) (omega (arith, ap operation_left e)))
]
wait-left s t (waiting []) e h =
    subst (λ t. steps_left t < steps_left s) (some_inj.0 h)
      (operation-left s working (omega (arith, ap operation_left e)))
wait-left s t idle e h = ground arith
wait-left s t working e h = ground arith
wait-left s t (stopping ls) e h = ground arith

step-left :
    (e : Event) (s t : Runtime)
    → goes_on e s ≡ true
    → step e s ≡ some t
    → steps_left t < steps_left s
unfolding step
step-left (look l) s t g h =
    moved-left l s t (look_lane (is_busy s.busy || s.is_stopping) (lane_of l s) (lane_of l s).phase)
      h (λ w k. look-left (is_busy s.busy || s.is_stopping) (lane_of l s) w (lane_of l s).phase k)
step-left (finish l) s t g h =
    moved-left l s t (finish_lane (lane_of l s) (lane_of l s).phase) h
      (λ w k. finish-left (lane_of l s) w (lane_of l s).phase k)
step-left (release l) s t g h =
    moved-left l s t (release_lane (lane_of l s) (lane_of l s).phase) h
      (λ w k. release-left (lane_of l s) w (lane_of l s).phase k)
step-left stop s t g h = stop-left s t s.operation refl h
step-left wait s t g h = wait-left s t s.operation refl h
step-left (lock l) s t g h = ground arith
step-left (begin label) s t g h = ground arith
step-left leave s t g h = ground arith
step-left (state b) s t g h = ground arith

pub going-left : (es : List Event) (s t : Runtime) → going es s ≡ some t → length es ≤ steps_left s
going-left [] s t h = omega arith
going-left (e ∷ es) s t h =
    let (g, (u, k, r)) = going-cases e es s t h in
    omega (arith, step-left e s u g k, going-left es u t r)
