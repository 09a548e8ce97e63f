-- ===== src/Seat/Manager/Lanes/Apart.antt =====
-- internal/seat/manager.go: the readings of a seat while an operation has it.
use mathlib.Core.Option.{some_inj}
use polyseat.Prelude.{
  ◌≡◌, refl, ap, sym, subst, ◌∙◌, inl, inr, Bool, true, false, ◌||◌, not, Option, none, some, List,
  [], ◌∷◌, arith, if◌then◌else◌, Bool-cases,
}
use polyseat.Prelude.Text.{Text}
use polyseat.Seat.Manager.Lanes.{
  LaneName, sweep, apps, asking, Phase, free, entering, reading, ending, Lane, Operation, idle,
  working, stopping, waiting, Runtime, lane_of, with_lane, lanes, lock_lane, look_lane, finish_lane,
  release_lane, is_busy, readings, moved,
}

abbrev pub is_lane : LaneName → LaneName → Bool
is_lane sweep sweep = true
is_lane sweep apps = false
is_lane sweep asking = false
is_lane apps sweep = false
is_lane apps apps = true
is_lane apps asking = false
is_lane asking sweep = false
is_lane asking apps = false
is_lane asking asking = true

abbrev pub among : LaneName → List LaneName → Bool
among l [] = false
among l (k ∷ ls) = is_lane k l || among l ls

-- A reading runs.
abbrev pub is_reading : Phase → Bool
is_reading reading = true
is_reading free = false
is_reading entering = false
is_reading ending = false

-- It runs, or its lock is not given back yet.
abbrev pub is_active : Phase → Bool
is_active reading = true
is_active ending = true
is_active free = false
is_active entering = false

-- The operation has not seen the lane free.
abbrev pub awaits : LaneName → Operation → Bool
awaits l idle = true
awaits l working = false
awaits l (stopping ls) = true
awaits l (waiting ls) = among l ls

-- The operation has not called the lane's cancel.
abbrev pub spares : LaneName → Operation → Bool
spares l idle = true
spares l working = false
spares l (stopping ls) = among l ls
spares l (waiting ls) = false

abbrev pub is_idle : Operation → Bool
is_idle idle = true
is_idle working = false
is_idle (stopping ls) = false
is_idle (waiting ls) = false

-- What holds of a lane while an operation stands somewhere.
abbrev pub IsApart : Bool → Bool → Lane → Type 0
IsApart awaited spared v =
    (v.has_cancel ≡ is_reading v.phase)
    × (awaited ≡ false → is_active v.phase ≡ false)
    × (spared ≡ false → is_reading v.phase ≡ true → v.is_cancelled ≡ true)

abbrev pub Apart : Runtime → Type 0
Apart s =
    (is_busy s.busy ≡ not (is_idle s.operation))
    × ((l : LaneName) → IsApart (awaits l s.operation) (spares l s.operation) (lane_of l s))

pub lane_of-with_lane :
    (k l : LaneName) (v : Lane) (s : Runtime)
    → lane_of k (with_lane l v s) ≡ (if is_lane l k then v else lane_of k s)
lane_of-with_lane sweep sweep v s = refl
lane_of-with_lane sweep apps v s = refl
lane_of-with_lane sweep asking v s = refl
lane_of-with_lane apps sweep v s = refl
lane_of-with_lane apps apps v s = refl
lane_of-with_lane apps asking v s = refl
lane_of-with_lane asking sweep v s = refl
lane_of-with_lane asking apps v s = refl
lane_of-with_lane asking asking v s = refl

pub with_lane-busy : (l : LaneName) (v : Lane) (s : Runtime) → (with_lane l v s).busy ≡ s.busy
with_lane-busy sweep v s = refl
with_lane-busy apps v s = refl
with_lane-busy asking v s = refl

pub with_lane-operation :
    (l : LaneName) (v : Lane) (s : Runtime) → (with_lane l v s).operation ≡ s.operation
with_lane-operation sweep v s = refl
with_lane-operation apps v s = refl
with_lane-operation asking v s = refl

pub is_lane_same : (l k : LaneName) → is_lane l k ≡ true → l ≡ k
is_lane_same sweep sweep h = refl
is_lane_same apps apps h = refl
is_lane_same asking asking h = refl
is_lane_same sweep apps h = ground arith
is_lane_same sweep asking h = ground arith
is_lane_same apps sweep h = ground arith
is_lane_same apps asking h = ground arith
is_lane_same asking sweep h = ground arith
is_lane_same asking apps h = ground arith

-- A step of one lane.
pub with_lane-Apart :
    (l : LaneName) (v : Lane) (s : Runtime)
    → Apart s
    → IsApart (awaits l s.operation) (spares l s.operation) v
    → Apart (with_lane l v s)
with_lane-Apart l v s (own, held) fine = (
  ap is_busy (with_lane-busy l v s)
      ∙ own
      ∙ ap (λ o. not (is_idle o)) (sym (with_lane-operation l v s)),
  λ k. elim (Bool-cases (is_lane l k)) [
    | inl e ↦
        subst (λ o. IsApart (awaits k o) (spares k o) (lane_of k (with_lane l v s)))
          (sym (with_lane-operation l v s))
          (subst (IsApart (awaits k s.operation) (spares k s.operation)) {x = v}
            {y = lane_of k (with_lane l v s)} (sym (ground (arith, lane_of-with_lane k l v s)))
            (subst (λ i. IsApart (awaits i s.operation) (spares i s.operation) v)
              (is_lane_same l k e) fine))
    | inr e ↦
        subst (λ o. IsApart (awaits k o) (spares k o) (lane_of k (with_lane l v s)))
          (sym (with_lane-operation l v s))
          (subst (IsApart (awaits k s.operation) (spares k s.operation)) {x = lane_of k s}
            {y = lane_of k (with_lane l v s)} (sym (ground (arith, lane_of-with_lane k l v s)))
            (held k))
  ],
)

pub among-lanes : (l : LaneName) → ¬ (among l lanes ≡ false)
among-lanes sweep h = ground arith
among-lanes apps h = ground arith
among-lanes asking h = ground arith

module _ (a b : Bool) (v w : Lane) where
  pub lock-IsApart :
      (p : Phase) → v.phase ≡ p → lock_lane v p ≡ some w → IsApart a b v → IsApart a b w
  lock-IsApart free e h (c, q, t) =
      subst (IsApart a b) (some_inj.0 h) (c ∙ ap is_reading e, λ n. refl, λ n m. ground arith)
  lock-IsApart entering e h i = ground arith
  lock-IsApart reading e h i = ground arith
  lock-IsApart ending e h i = ground arith

  pub look-IsApart :
      (blocked : Bool) (p : Phase)
      → v.phase ≡ p
      → look_lane blocked v p ≡ some w
      → (blocked ≡ false → (a ≡ true) × (b ≡ true))
      → IsApart a b v
      → IsApart a b w
  look-IsApart true entering e h spare (c, q, t) =
      subst (IsApart a b) (some_inj.0 h) (c ∙ ap is_reading e, λ n. refl, λ n m. ground arith)
  look-IsApart false entering e h spare (c, q, t) =
      subst (IsApart a b) (some_inj.0 h)
        (refl, λ n. ground (arith, spare refl), λ n m. ground (arith, spare refl))
  look-IsApart blocked free e h spare i = ground arith
  look-IsApart blocked reading e h spare i = ground arith
  look-IsApart blocked ending e h spare i = ground arith

  pub finish-IsApart :
      (p : Phase) → v.phase ≡ p → finish_lane v p ≡ some w → IsApart a b v → IsApart a b w
  finish-IsApart reading e h (c, q, t) =
      subst (IsApart a b) (some_inj.0 h)
        (refl, λ n. ground (arith, q n, ap is_active e), λ n m. ground arith)
  finish-IsApart entering e h i = ground arith
  finish-IsApart free e h i = ground arith
  finish-IsApart ending e h i = ground arith

  pub release-IsApart :
      (p : Phase) → v.phase ≡ p → release_lane v p ≡ some w → IsApart a b v → IsApart a b w
  release-IsApart ending e h (c, q, t) =
      subst (IsApart a b) (some_inj.0 h) (c ∙ ap is_reading e, λ n. refl, λ n m. ground arith)
  release-IsApart entering e h i = ground arith
  release-IsApart free e h i = ground arith
  release-IsApart reading e h i = ground arith

pub idle-awaits :
    (l : LaneName) (o : Operation) → is_idle o ≡ true → (awaits l o ≡ true) × (spares l o ≡ true)
idle-awaits l idle h = (refl, refl)
idle-awaits l working h = ground arith
idle-awaits l (stopping ls) h = ground arith
idle-awaits l (waiting ls) h = ground arith

pub moved-Apart :
    (l : LaneName) (s t : Runtime) (o : Option Lane)
    → moved l s o ≡ some t
    → ((w : Lane) → o ≡ some w → IsApart (awaits l s.operation) (spares l s.operation) w)
    → Apart s
    → Apart t
moved-Apart l s t none h fine a = ground arith
moved-Apart l s t (some w) h fine a =
    subst Apart (some_inj.0 h) (with_lane-Apart l w s a (fine w refl))

-- What the operation does to the seat beside a lane.
abbrev pub with_operation : Option Text → Operation → Runtime → Runtime
with_operation b o s = record s { busy = b; operation = o }

pub lane_of-with_operation :
    (l : LaneName) (b : Option Text) (o : Operation) (s : Runtime)
    → lane_of l (with_operation b o s) ≡ lane_of l s
lane_of-with_operation sweep b o s = refl
lane_of-with_operation apps b o s = refl
lane_of-with_operation asking b o s = refl

pub with_operation-Apart :
    (b : Option Text) (o : Operation) (s : Runtime)
    → is_busy b ≡ not (is_idle o)
    → ((l : LaneName) → IsApart (awaits l o) (spares l o) (lane_of l s))
    → Apart (with_operation b o s)
with_operation-Apart b o s own held = (
  own,
  λ l. subst (IsApart (awaits l o) (spares l o)) (sym (lane_of-with_operation l b o s)) (held l),
)

pub readings-among :
    (l : LaneName) (s : Runtime) → among l (readings s lanes) ≡ (lane_of l s).has_cancel
unfolding readings
readings-among sweep s = ground arith
readings-among apps s = ground arith
readings-among asking s = ground arith
