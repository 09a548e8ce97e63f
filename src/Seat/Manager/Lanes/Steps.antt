-- ===== src/Seat/Manager/Lanes/Steps.antt =====
-- internal/seat/manager.go: the readings and the operation, step by step.
use mathlib.Core.Option.{some_inj}
use polyseat.Prelude.{
  ◌≡◌, refl, ap, sym, subst, ◌∙◌, ◌⊎◌, inl, inr, true, false, ◌||◌, not, Option, none, some, List,
  [], ◌∷◌, arith, Bool-cases, Option-cases,
}
use polyseat.Prelude.Text.{Text}
use polyseat.Seat.Manager.Lanes.{
  LaneName, sweep, apps, asking, Phase, free, entering, reading, ending, Lane, Operation, idle,
  working, stopping, waiting, Runtime, Event, lock, look, finish, release, begin, stop, wait, leave,
  state, lane_of, with_lane, lanes, lock_lane, look_lane, finish_lane, release_lane, cancel_lane,
  is_busy, is_free, readings, claimed, stopped, waited, left, step, run, fresh,
}
use polyseat.Seat.Manager.Lanes.Apart.{
  is_lane, among, is_reading, is_active, awaits, spares, is_idle, IsApart, Apart, with_operation,
  lane_of-with_lane, with_lane-busy, is_lane_same, moved-Apart, idle-awaits, with_operation-Apart,
  readings-among, among-lanes, lock-IsApart, look-IsApart, finish-IsApart, release-IsApart,
}

claim-Apart :
    (label : Text) (s t : Runtime) (b : Option Text)
    → claimed label s (readings s lanes) b ≡ some t
    → Apart s
    → Apart t
claim-Apart label s t (some other) h a = subst Apart (some_inj.0 h) a
claim-Apart label s t none h (own, held) = subst Apart (some_inj.0 h) (
    with_operation-Apart (some label) (stopping (readings s lanes)) s refl (λ l.
      let (c, q, f) = held l in (c, λ n. ground arith, λ n m. ground (arith, readings-among l s))))

stop-Apart :
    (s t : Runtime) (o : Operation) → s.operation ≡ o → stopped s o ≡ some t → Apart s → Apart t
stop-Apart s t (stopping (l ∷ ls)) e h (own, held) = subst Apart (some_inj.0 h) (
    with_operation-Apart (with_lane l v s).busy (stopping ls) (with_lane l v s)
      (ap is_busy (with_lane-busy l v s) ∙ own ∙ ap (λ o. not (is_idle o)) e)
      (λ k. elim (Bool-cases (is_lane l k)) [
        | inl i ↦
            subst (IsApart true (among k ls)) {x = v} {y = lane_of k (with_lane l v s)}
              (sym (ground (arith, lane_of-with_lane k l v s)))
              ((held l).0, λ n. ground arith, λ n m. refl)
        | inr i ↦
            subst (IsApart true (among k ls)) {x = lane_of k s} {y = lane_of k (with_lane l v s)}
              (sym (ground (arith, lane_of-with_lane k l v s)))
              ((held k).0, λ n. ground arith, λ n m. (held k).2 (ap (spares k) e ∙ ground arith) m)
      ]))
  where
    v : Lane
    v = cancel_lane (lane_of l s)
stop-Apart s t (stopping []) e h (own, held) = subst Apart (some_inj.0 h) (
    with_operation-Apart s.busy (waiting lanes) s (own ∙ ap (λ o. not (is_idle o)) e) (λ l.
      let (c, q, f) = held l in (c, λ n. absurd (among-lanes l n), λ n m. f (ap (spares l) e) m)))
stop-Apart s t idle e h a = ground arith
stop-Apart s t working e h a = ground arith
stop-Apart s t (waiting ls) e h a = ground arith

free_lane : (p : Phase) → is_free p ≡ true → is_active p ≡ false
free_lane free h = refl
free_lane entering h = refl
free_lane reading h = ground arith
free_lane ending h = ground arith

wait-Apart :
    (s t : Runtime) (o : Operation) → s.operation ≡ o → waited s o ≡ some t → Apart s → Apart t
wait-Apart s t (waiting (l ∷ ls)) e h (own, held) =
    elim (Bool-cases (is_free (lane_of l s).phase)) [
      | inr f ↦ ground arith
      | inl f ↦ subst Apart {x = with_operation s.busy (waiting ls) s} (some_inj.0 (ground arith)) (
          with_operation-Apart s.busy (waiting ls) s (own ∙ ap (λ o. not (is_idle o)) e) (λ k. (
            (held k).0,
            λ n. seen k n (Bool-cases (is_lane l k)) f,
            λ n m. (held k).2 (ap (spares k) e) m,
          )))
    ]
  where
    seen :
        (k : LaneName)
        → among k ls ≡ false
        → (is_lane l k ≡ true) ⊎ (is_lane l k ≡ false)
        → is_free (lane_of l s).phase ≡ true
        → is_active (lane_of k s).phase ≡ false
    seen k n (inl i) f =
        subst (λ j. is_active (lane_of j s).phase ≡ false) (is_lane_same l k i)
          (free_lane (lane_of l s).phase f)
    seen k n (inr i) f = (held k).1 (ap (awaits k) e ∙ ground arith)
wait-Apart s t (waiting []) e h (own, held) = subst Apart (some_inj.0 h) (
    with_operation-Apart s.busy working s (own ∙ ap (λ o. not (is_idle o)) e)
      (λ l. let (c, q, f) = held l in (c, λ n. q (ap (awaits l) e), λ n m. f (ap (spares l) e) m)))
wait-Apart s t idle e h a = ground arith
wait-Apart s t working e h a = ground arith
wait-Apart s t (stopping ls) e h a = ground arith

leave-Apart :
    (s t : Runtime) (o : Operation) → s.operation ≡ o → left s o ≡ some t → Apart s → Apart t
leave-Apart s t working e h (own, held) = subst Apart (some_inj.0 h) (
    with_operation-Apart none idle s refl
      (λ l. ((held l).0, λ n. ground arith, λ n m. ground arith)))
leave-Apart s t idle e h a = ground arith
leave-Apart s t (stopping ls) e h a = ground arith
leave-Apart s t (waiting ls) e h a = ground arith

pub step-Apart : (e : Event) (s t : Runtime) → step e s ≡ some t → Apart s → Apart t
unfolding step
step-Apart (lock l) s t h a =
    moved-Apart l s t (lock_lane (lane_of l s) (lane_of l s).phase) h
      (λ w k.
        lock-IsApart (awaits l s.operation) (spares l s.operation) (lane_of l s) w
          (lane_of l s).phase refl k (a.1 l))
      a
step-Apart (look l) s t h a =
    moved-Apart l s t
      (look_lane (is_busy s.busy || s.is_stopping) (lane_of l s) (lane_of l s).phase) h
      (λ w k.
        look-IsApart (awaits l s.operation) (spares l s.operation) (lane_of l s) w
          (is_busy s.busy || s.is_stopping) (lane_of l s).phase refl k
          (λ n. idle-awaits l s.operation (ground (arith, a.0))) (a.1 l))
      a
step-Apart (finish l) s t h a =
    moved-Apart l s t (finish_lane (lane_of l s) (lane_of l s).phase) h
      (λ w k.
        finish-IsApart (awaits l s.operation) (spares l s.operation) (lane_of l s) w
          (lane_of l s).phase refl k (a.1 l))
      a
step-Apart (release l) s t h a =
    moved-Apart l s t (release_lane (lane_of l s) (lane_of l s).phase) h
      (λ w k.
        release-IsApart (awaits l s.operation) (spares l s.operation) (lane_of l s) w
          (lane_of l s).phase refl k (a.1 l))
      a
step-Apart (begin label) s t h a = claim-Apart label s t s.busy h a
step-Apart stop s t h a = stop-Apart s t s.operation refl h a
step-Apart wait s t h a = wait-Apart s t s.operation refl h a
step-Apart leave s t h a = leave-Apart s t s.operation refl h a
step-Apart (state b) s t h a =
    subst Apart (some_inj.0 h) (
      a.0,
      λ l. subst (IsApart (awaits l s.operation) (spares l s.operation)) (sym (same l)) (a.1 l),
    )
  where
    same : (l : LaneName) → lane_of l (record s { is_stopping = b }) ≡ lane_of l s
    same sweep = refl
    same apps = refl
    same asking = refl

run-Apart : (es : List Event) (s t : Runtime) → run es s ≡ some t → Apart s → Apart t
unfolding run
run-Apart [] s t h a = subst Apart (some_inj.0 h) a
run-Apart (e ∷ es) s t h a = elim (Option-cases (step e s)) [
  | inl k ↦ ground arith
  | inr (u, k) ↦ run-Apart es u t (ground arith) (step-Apart e s u k a)
]

fresh-Apart : Apart fresh
fresh-Apart = (refl, fine)
  where
    fine : (l : LaneName) → IsApart true true (lane_of l fresh)
    fine sweep = (refl, λ n. ground arith, λ n m. ground arith)
    fine apps = (refl, λ n. ground arith, λ n m. ground arith)
    fine asking = (refl, λ n. ground arith, λ n m. ground arith)

pub reached-Apart : (es : List Event) (s : Runtime) → run es fresh ≡ some s → Apart s
reached-Apart es s h = run-Apart es fresh s h fresh-Apart

-- However the readings of a seat, its operations and its changes of state interleave: while an operation
-- works, no reading of the seat runs; and while it waits for the readings, each that still runs has been
-- told to stop.
pub readings_apart :
    (es : List Event) (s : Runtime)
    → run es fresh ≡ some s
    → (s.operation ≡ working → (l : LaneName) → is_reading (lane_of l s).phase ≡ false)
      × ((ls : List LaneName)
          → s.operation ≡ waiting ls
          → (l : LaneName) → is_reading (lane_of l s).phase ≡ true
          → (lane_of l s).is_cancelled ≡ true)
readings_apart es s h =
    let a = reached-Apart es s h in
    (
      λ w l. active_reading (lane_of l s).phase ((a.1 l).1 (ap (awaits l) w)),
      λ ls w l r. (a.1 l).2 (ap (spares l) w) r,
    )
  where
    active_reading : (p : Phase) → is_active p ≡ false → is_reading p ≡ false
    active_reading free n = refl
    active_reading entering n = refl
    active_reading reading n = ground arith
    active_reading ending n = refl
