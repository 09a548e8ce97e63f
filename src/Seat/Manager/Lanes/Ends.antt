-- ===== src/Seat/Manager/Lanes/Ends.antt =====
-- internal/seat/manager.go: how `quiesce` comes to its end.
use polyseat.Prelude.{
  ◌≤◌, length, ◌≡◌, refl, ap, sym, subst, ◌∙◌, true, false, ◌||◌, some, List, [], ◌∷◌, ◌++◌, arith,
}
use polyseat.Seat.Manager.Lanes.{
  LaneName, sweep, apps, asking, Phase, free, entering, reading, ending, Lane, Operation, idle,
  working, stopping, waiting, Runtime, Event, look, finish, release, stop, wait, lane_of, with_lane,
  lanes, look_lane, finish_lane, release_lane, cancel_lane, is_busy, is_free, moved, stopped,
  waited, step, run, fresh,
}
use polyseat.Seat.Manager.Lanes.Apart.{
  Apart, spares, is_reading, is_lane, is_idle, lane_of-with_lane, with_lane-busy,
  with_lane-operation,
}
use polyseat.Seat.Manager.Lanes.Steps.{reached-Apart, step-Apart}
use polyseat.Seat.Manager.Lanes.Going.{goes_on, going, going-step, going-append}
use polyseat.Seat.Manager.Lanes.Left.{steps_left, going-left}

is_lane_refl : (l : LaneName) → is_lane l l ≡ true
is_lane_refl sweep = refl
is_lane_refl apps = refl
is_lane_refl asking = refl

-- Such events lead to this.
abbrev Leads : Runtime → (Runtime → Type 0) → Type 0
Leads s P = (es : List Event) × (t : Runtime) × (going es s ≡ some t) × Apart t × P t

Leads-trans :
    (s : Runtime) (P Q : Runtime → Type 0)
    → Leads s P
    → ((t : Runtime) → Apart t → P t → Leads t Q)
    → Leads s Q
Leads-trans s P Q (es, t, r, a, p) k =
    let (fs, u, r', b, q) = k t a p in (es ++ fs, u, going-append es fs s t r ∙ r', b, q)

Leads-step :
    (s t : Runtime) (e : Event) (P : Runtime → Type 0)
    → Apart s
    → step e s ≡ some t
    → goes_on e s ≡ true
    → P t
    → Leads s P
unfolding going
Leads-step s t e P a h g p = (e ∷ [], t, going-step e [] s t g h, step-Apart e s t h a, p)

-- The lane is free, and the operation stands where it stood.
abbrev FreeAt : LaneName → Operation → Runtime → Type 0
FreeAt l o t = (is_free (lane_of l t).phase ≡ true) × (t.operation ≡ o) × (is_busy t.busy ≡ true)

freed :
    (l : LaneName) (v : Lane) (s : Runtime)
    → is_free v.phase ≡ true
    → is_busy s.busy ≡ true
    → FreeAt l s.operation (with_lane l v s)
freed l v s f b = (
  subst (λ (w : Lane). is_free w.phase ≡ true) {x = v} {y = lane_of l (with_lane l v s)}
      (sym (ground (arith, lane_of-with_lane l l v s, is_lane_refl l))) f,
  with_lane-operation l v s,
  ap is_busy (with_lane-busy l v s) ∙ b,
)

free_up :
    (l : LaneName) (s : Runtime) (p : Phase)
    → (lane_of l s).phase ≡ p
    → is_busy s.busy ≡ true
    → Apart s
    → (is_reading p ≡ true → (lane_of l s).is_cancelled ≡ true)
    → Leads s (FreeAt l s.operation)
unfolding going step
free_up l s free h b a told = ([], s, refl, a, (ap is_free h, refl, b))
free_up l s entering h b a told =
    Leads-step s (with_lane l (record (lane_of l s) { phase = free }) s) (look l)
      (FreeAt l s.operation) a
      (ap (λ p. moved l s (look_lane (is_busy s.busy || s.is_stopping) (lane_of l s) p)) h
        ∙ ap (λ c. moved l s (look_lane (c || s.is_stopping) (lane_of l s) entering)) b)
      refl (freed l _ s refl b)
free_up l s ending h b a told =
    Leads-step s (with_lane l (record (lane_of l s) { phase = free; is_cancelled = true }) s)
      (release l) (FreeAt l s.operation) a (ap (λ p. moved l s (release_lane (lane_of l s) p)) h)
      refl (freed l _ s refl b)
free_up l s reading h b a told =
    Leads-trans s (λ t. (t ≡ finished)) (FreeAt l s.operation)
      (Leads-step s finished (finish l) (λ t. t ≡ finished) a
        (ap (λ p. moved l s (finish_lane (lane_of l s) p)) h) (told refl) refl)
      (λ t c e.
        subst (λ u. Leads u (FreeAt l s.operation)) (sym e)
          (subst (λ o. Leads finished (FreeAt l o)) (with_lane-operation l v s)
            (Leads-step finished
              (with_lane l (record (lane_of l finished) { phase = free; is_cancelled = true })
                finished)
              (release l) (FreeAt l finished.operation) (subst Apart e c)
              (ap (λ p. moved l finished (release_lane (lane_of l finished) p)) at_end) refl
              (freed l _ finished refl (ap is_busy (with_lane-busy l v s) ∙ b)))))
  where
    v : Lane
    v = record (lane_of l s) { phase = ending; has_cancel = false }

    finished : Runtime
    finished = with_lane l v s

    at_end : (lane_of l finished).phase ≡ ending
    at_end =
        ap (λ (w : Lane). w.phase) {x = lane_of l finished} {y = v}
          (ground (arith, lane_of-with_lane l l v s, is_lane_refl l))

abbrev Works : Runtime → Type 0
Works t = t.operation ≡ working

-- The operation stands here, and has the seat.
abbrev At : Operation → Runtime → Type 0
At o t = (t.operation ≡ o) × (is_busy t.busy ≡ true)

waiting_ends : (ls : List LaneName) (s : Runtime) → Apart s → At (waiting ls) s → Leads s Works
unfolding step
waiting_ends [] s a (h, b) =
    Leads-step s (record s { operation = working }) wait Works a (ap (waited s) h) refl refl
waiting_ends (l ∷ ls) s a (h, b) =
    Leads-trans s (FreeAt l s.operation) Works
      (free_up l s (lane_of l s).phase refl b a (λ r. (a.1 l).2 (ap (spares l) h) r))
      (λ t c (f, o, d).
        Leads-trans t (At (waiting ls)) Works
          (Leads-step t (record t { operation = waiting ls }) wait (At (waiting ls)) c
            (ap (waited t) (o ∙ h) ∙ ground (arith, f)) refl (refl, d))
          (waiting_ends ls))

stopping_ends : (ls : List LaneName) (s : Runtime) → Apart s → At (stopping ls) s → Leads s Works
unfolding step
stopping_ends [] s a (h, b) =
    Leads-trans s (At (waiting lanes)) Works
      (Leads-step s (record s { operation = waiting lanes }) stop (At (waiting lanes)) a
        (ap (stopped s) h) refl (refl, b))
      (waiting_ends lanes)
stopping_ends (l ∷ ls) s a (h, b) =
    Leads-trans s (At (stopping ls)) Works
      (Leads-step s (record (with_lane l (cancel_lane (lane_of l s)) s) { operation = stopping ls })
        stop (At (stopping ls)) a (ap (stopped s) h) refl
        (refl, ap is_busy (with_lane-busy l (cancel_lane (lane_of l s)) s) ∙ b))
      (stopping_ends ls)

operation_ends :
    (s : Runtime) (o : Operation)
    → Apart s
    → s.operation ≡ o
    → is_idle o ≡ false
    → is_busy s.busy ≡ true
    → Leads s Works
unfolding going
operation_ends s idle a h n b = ground arith
operation_ends s working a h n b = ([], s, refl, a, h)
operation_ends s (stopping ls) a h n b = stopping_ends ls s a (h, b)
operation_ends s (waiting ls) a h n b = waiting_ends ls s a (h, b)

-- Wherever an operation that has the seat stands, and whatever the readings of the seat are doing: with
-- no new reading or operation and no change of the seat's state, and with no reading that ends before
-- its cancel was called, there are steps after which the operation works; and every run of such steps
-- is bounded by a number that is known at its start, so that none goes on for ever.
pub claimed_works :
    (es : List Event) (s : Runtime)
    → run es fresh ≡ some s
    → is_busy s.busy ≡ true
    → ((more : List Event) × (t : Runtime) × (going more s ≡ some t) × (t.operation ≡ working))
      × ((more : List Event) (t : Runtime) → going more s ≡ some t → length more ≤ steps_left s)
claimed_works es s h b =
    let a = reached-Apart es s h in
    let (more, t, r, c, w) = operation_ends s s.operation a refl (ground (arith, a.0)) b in
    ((more, t, r, w), λ more t r. going-left more s t r)
