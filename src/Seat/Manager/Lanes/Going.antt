-- ===== src/Seat/Manager/Lanes/Going.antt =====
-- internal/seat/manager.go: the events by which an operation comes to its work.
use mathlib.Core.Option.{some_inj}
use polyseat.Prelude.{
  Bool-cases, Option, none, if◌then◌else◌, ◌≡◌, ap, ◌∙◌, inl, inr, Bool, true, false, some, List,
  [], ◌∷◌, ◌++◌, arith, Option-cases,
}
use polyseat.Seat.Manager.Lanes.{
  Runtime, Event, lock, look, finish, release, begin, stop, wait, leave, state, lane_of, step,
}

-- What goes on without a new reading, a new operation or a change of state; and a reading ends only
-- after its cancel was called.
abbrev pub goes_on : Event → Runtime → Bool
goes_on (look l) s = true
goes_on (finish l) s = (lane_of l s).is_cancelled
goes_on (release l) s = true
goes_on stop s = true
goes_on wait s = true
goes_on (lock l) s = false
goes_on (begin label) s = false
goes_on leave s = false
goes_on (state b) s = false

-- `run` of such events.
unfoldable pub going : List Event → Runtime → Option Runtime
unfolding step
going [] s = some s
going (e ∷ es) s =
    if goes_on e s then elim (step e s) [ none ↦ none | some t ↦ going es t ] else none

pub going-cases :
    (e : Event) (es : List Event) (s t : Runtime)
    → going (e ∷ es) s ≡ some t
    → (goes_on e s ≡ true) × ((u : Runtime) × (step e s ≡ some u) × (going es u ≡ some t))
unfolding going
going-cases e es s t h = elim (Bool-cases (goes_on e s)) [
  | inr g ↦ ground arith
  | inl g ↦ elim (Option-cases (step e s)) [
    | inl k ↦ ground arith
    | inr (u, k) ↦ (g, (u, k, ground arith))
  ]
]

pub going-step :
    (e : Event) (es : List Event) (s u : Runtime)
    → goes_on e s ≡ true
    → step e s ≡ some u
    → going (e ∷ es) s ≡ going es u
unfolding going
going-step e es s u g k = ground arith

pub going-nil : (s t : Runtime) → going [] s ≡ some t → s ≡ t
unfolding going
going-nil s t h = some_inj.0 h

pub going-append :
    (es fs : List Event) (s t : Runtime) → going es s ≡ some t → going (es ++ fs) s ≡ going fs t
going-append [] fs s t h = ap (going fs) (going-nil s t h)
going-append (e ∷ es) fs s t h =
    let (g, (u, k, r)) = going-cases e es s t h in
    going-step e (es ++ fs) s u g k ∙ going-append es fs u t r
