-- ===== src/Supervise/Process/Invariant.antt =====
-- internal/supervise/supervise.go: the handle, the goroutines, the children and the state.
use polyseat.Prelude.{
  ℕ, ◌≤◌, ◌≡◌, refl, Bool, true, false, ◌&&◌, not, Option, none, some, List, [], ◌∷◌, arith, ◌==◌,
  Option-cases, inl, inr, ◌++◌,
}
use polyseat.Supervise.Backoff.{next_backoff}
use polyseat.Supervise.Process.{
  Process, State, Phase, top, entering, up, gone, judging, waiting, stopped, failed, Loop, Stop,
  StopPhase, taken, settled, Event, starts, takes, cancels, settles, releases, enters, spawns,
  exits, judges, gives_up, wakes, returns, restarts, new, step, run, children,
}

-- A goroutine that a `Stop` waits for has been cancelled exactly when the `Stop` is past that call.
abbrev told : Bool → StopPhase → Bool
told false taken = true
told true StopPhase.cancelled = true
told _ _ = false

-- A `Stop` that is past its wait has set the state.
abbrev told_state : State → StopPhase → Bool
told_state stopped settled = true
told_state _ settled = false
told_state _ _ = true

-- How the handle, the `Stop` in progress, the goroutines and the state go together.
abbrev pub consistent : Option ℕ → Option Stop → List Loop → State → Bool
consistent none none [] stopped = true
consistent (some g) none [] failed = true
consistent (some g) none (l ∷ []) s = l.done == g && not l.is_cancelled
consistent none (some t) [] s = told_state s t.phase
consistent none (some t) (l ∷ []) s = l.done == t.done && told l.is_cancelled t.phase
consistent _ _ _ _ = false

abbrev pub IsConsistent : Process → Type 0
IsConsistent p = consistent p.handle p.stopping p.loops p.state ≡ true

step-IsConsistent :
    (p q : Process) (e : Event) → IsConsistent p → step p e ≡ some q → IsConsistent q
unfolding step
step-IsConsistent p q starts v h = ground arith
step-IsConsistent p q takes v h = ground arith
step-IsConsistent p q cancels v h = ground arith
step-IsConsistent p q settles v h = ground arith
step-IsConsistent p q releases v h = ground arith
step-IsConsistent p q (enters g) v h = ground arith
step-IsConsistent p q (spawns g) v h = ground arith
step-IsConsistent p q (exits g) v h = ground arith
step-IsConsistent p q (judges g) v h = ground arith
step-IsConsistent p q (gives_up g) v h = ground arith
step-IsConsistent p q (wakes g) v h = ground arith
step-IsConsistent p q (returns g) v h = ground arith
step-IsConsistent p q (restarts g u) v h = ground arith

run-IsConsistent :
    (p q : Process) (es : List Event) → IsConsistent p → run p es ≡ some q → IsConsistent q
unfolding run
run-IsConsistent p q [] v h = ground arith
run-IsConsistent p q (e ∷ es) v h = elim (Option-cases (step p e)) [
  | inl stuck ↦ absurd (ground arith)
  | inr (r, s) ↦ run-IsConsistent r q es (step-IsConsistent p r e v s) (rw (s, run) at h)
]

-- Whatever calls of `Start` and `Stop` come, and however they and the goroutines interleave, the
-- process stays consistent.
pub new-IsConsistent : (p : Process) (es : List Event) → run new es ≡ some p → IsConsistent p
unfolding new
new-IsConsistent p es h = run-IsConsistent new p es refl h

consistent-children :
    (h : Option ℕ) (t : Option Stop) (ls : List Loop) (s : State)
    → consistent h t ls s ≡ true
    → children ls ≤ 1
unfolding children
consistent-children h t [] s v = omega arith
consistent-children h t (l ∷ []) s v = ground arith
consistent-children none none (l ∷ k ∷ ls) s v = cc
consistent-children none (some t) (l ∷ k ∷ ls) s v = cc
consistent-children (some g) none (l ∷ k ∷ ls) s v = cc
consistent-children (some g) (some t) (l ∷ k ∷ ls) s v = cc

-- There is never more than one child, of all those ever started.
pub children-le : (p : Process) (es : List Event) → run new es ≡ some p → children p.loops ≤ 1
children-le p es h =
    consistent-children p.handle p.stopping p.loops p.state (new-IsConsistent p es h)

-- Between a `Stop` that has ended and the next `Start` that goes through, no goroutine and no child
-- is left, and the state is `stopped`.
pub idle_is_stopped :
    (p : Process) (es : List Event)
    → run new es ≡ some p
    → p.handle ≡ none
    → p.stopping ≡ none
    → (p.loops ≡ []) × (p.state ≡ stopped)
idle_is_stopped p es h free ended = ground (arith, new-IsConsistent p es h)

-- What is left for a goroutine to do once it is cancelled.
abbrev drain : ℕ → Phase → List Event
drain g top = returns g ∷ []
drain g entering = spawns g ∷ exits g ∷ returns g ∷ []
drain g up = exits g ∷ returns g ∷ []
drain g gone = returns g ∷ []
drain g judging = restarts g 0 ∷ returns g ∷ []
drain g waiting = returns g ∷ []

abbrev drain_all : List Loop → List Event
drain_all [] = []
drain_all (l ∷ ls) = drain l.done l.phase

-- What is left for a `Stop` to do.
abbrev pub finish : StopPhase → List Loop → List Event
finish taken ls = cancels ∷ drain_all ls ++ settles ∷ releases ∷ []
finish StopPhase.cancelled ls = drain_all ls ++ settles ∷ releases ∷ []
finish settled ls = releases ∷ []

-- A process at rest, with the wait and the counter that it has.
abbrev pub at_rest : ℕ → ℕ → Process
at_rest b n = record {
  state = stopped;
  handle = none;
  stopping = none;
  backoff = b;
  loops = [];
  next_done = n;
}

-- A process whose `Stop` waits for a goroutine.
abbrev draining : State → ℕ → Phase → ℕ → ℕ → Process
draining s g phase b n = record {
  state = s;
  handle = none;
  stopping = some (record { done = g; phase = StopPhase.cancelled });
  backoff = b;
  loops = record { done = g; is_cancelled = true; phase = phase } ∷ [];
  next_done = n;
}

drain_backoff : ℕ → Phase → ℕ
drain_backoff b judging = next_backoff 0 b
drain_backoff b phase = b

drain-ends :
    (s : State) (g : ℕ) (phase : Phase) (b n : ℕ)
    → run (draining s g phase b n) (drain g phase ++ settles ∷ releases ∷ [])
      ≡ some (at_rest (drain_backoff b phase) n)
unfolding run step drain_backoff
drain-ends s g top b n = ground arith
drain-ends s g entering b n = ground arith
drain-ends s g up b n = ground arith
drain-ends s g gone b n = ground arith
drain-ends s g judging b n = ground arith
drain-ends s g waiting b n = ground arith

cancels-draining :
    (s : State) (g : ℕ) (phase : Phase) (b n : ℕ)
    → step
        (record {
          state = s;
          handle = none;
          stopping = some (record { done = g; phase = taken });
          backoff = b;
          loops = record { done = g; is_cancelled = false; phase = phase } ∷ [];
          next_done = n;
        })
        cancels
      ≡ some (draining s g phase b n)
unfolding step
cancels-draining s g phase b n = ground arith

finish-ends_one :
    (s : State) (g tg : ℕ) (c : Bool) (phase : Phase) (tp : StopPhase) (b n : ℕ)
    → tg ≡ g
    → told c tp ≡ true
    → run
        (record {
          state = s;
          handle = none;
          stopping = some (record { done = tg; phase = tp });
          backoff = b;
          loops = record { done = g; is_cancelled = c; phase = phase } ∷ [];
          next_done = n;
        })
        (finish tp (record { done = g; is_cancelled = c; phase = phase } ∷ []))
      ≡ some (at_rest (drain_backoff b phase) n)
unfolding run
finish-ends_one s g tg false phase taken b n e h =
    rw (e, cancels-draining s g phase b n, run) (drain-ends s g phase b n)
finish-ends_one s g tg true phase taken b n e h = cc
finish-ends_one s g tg true phase StopPhase.cancelled b n e h = rw e (drain-ends s g phase b n)
finish-ends_one s g tg false phase StopPhase.cancelled b n e h = cc
finish-ends_one s g tg true phase settled b n e h = cc
finish-ends_one s g tg false phase settled b n e h = cc

finish-ends :
    (s : State) (handle : Option ℕ) (t : Stop) (ls : List Loop) (b n : ℕ)
    → consistent handle (some t) ls s ≡ true
    → (b' : ℕ) × (run
          (record {
            state = s;
            handle = handle;
            stopping = some t;
            backoff = b;
            loops = ls;
            next_done = n;
          })
          (finish t.phase ls)
        ≡ some (at_rest b' n))
unfolding run step
finish-ends s (some g) t [] b n v = cc
finish-ends s (some g) t (l ∷ ls) b n v = cc
finish-ends s none t (l ∷ k ∷ ls) b n v = cc
finish-ends s none t [] b n v = (b, ground arith)
finish-ends s none t (l ∷ []) b n v = (
  drain_backoff b l.phase,
  finish-ends_one s l.done t.done l.is_cancelled l.phase t.phase b n (ground arith) (ground arith),
)

-- A `Stop` comes to its end from wherever it and the goroutine stand: there are steps, none of them
-- a call, after which the process is stopped, and nothing is left of it.
pub stop_ends :
    (p : Process) (es : List Event) (t : Stop)
    → run new es ≡ some p
    → p.stopping ≡ some t
    → (b : ℕ) × (run p (finish t.phase p.loops) ≡ some (at_rest b p.next_done))
stop_ends p es t h e =
    let v : consistent p.handle (some t) p.loops p.state ≡ true =
      rw e at (new-IsConsistent p es h) in
    let (b, r) = finish-ends p.state p.handle t p.loops p.backoff p.next_done v in
    (b, rw (← e) at r)
