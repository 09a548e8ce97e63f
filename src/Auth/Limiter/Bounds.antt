-- ===== src/Auth/Limiter/Bounds.antt =====
-- internal/auth/auth.go: the size of the limiter's map.
use polyseat.Prelude.{
  ℕ, String, ◌≢◌, refl, none, List, [], ◌∷◌, arith, eq_iff, inl, inr, if◌then◌else◌, Option-cases,
}
use polyseat.Prelude.Dict.{
  lookup, insert, remove, remove-Distinct, insert-Distinct, lookup-insert, lookup-remove,
  length-remove-le, length-insert-le, length-insert_old,
}
use polyseat.Auth.Limiter.{
  Limiter, Attempts, Call, asks, tries, fails, succeeds, allow, attempt, failed, succeeded,
  make_room, counted, fresh, step, run, is_expired,
}
use polyseat.Auth.Limiter.Room.{IsBounded, make_room-Distinct, make_room-none, length-make_room}

module _ (key : String) (l : Limiter) (v : IsBounded l) where
  remove-IsBounded : IsBounded (remove key l)
  remove-IsBounded = record {
    distinct = remove-Distinct key l v.distinct;
    named = ground (arith, lookup-remove key "" l, v.named);
    fits = omega (arith, length-remove-le key l, v.fits);
  }

  replace-IsBounded : (a : Attempts) → key ≢ "" → lookup key l ≢ none → IsBounded (insert key a l)
  replace-IsBounded a h m = record {
    distinct = insert-Distinct key a l v.distinct;
    named = ground (arith, lookup-insert key "" a l, eq_iff key "", v.named);
    fits = omega (arith, length-insert_old key a l m, v.fits);
  }

  add-IsBounded : (now : ℕ) (a : Attempts) → key ≢ "" → IsBounded (insert key a (make_room now l))
  add-IsBounded now a h = record {
    distinct = insert-Distinct key a (make_room now l) (make_room-Distinct now l v);
    named = ground (
      arith,
      lookup-insert key "" a (make_room now l),
      eq_iff key "",
      make_room-none now l v "" v.named,
    );
    fits = omega (arith, length-insert-le key a (make_room now l), length-make_room now l v);
  }

  failed-IsBounded : (now : ℕ) → key ≢ "" → IsBounded (failed now key l)
  unfolding failed
  failed-IsBounded now h = elim (Option-cases (lookup key l)) [
    | inl e ↦ rw (e, failed) (add-IsBounded now (counted now fresh) h)
    | inr (a, e) ↦
        rw (e, failed)
          (replace-IsBounded (counted now (if is_expired now a then fresh else a)) h (λ n. cc))
  ]

  allow-IsBounded : (now : ℕ) → IsBounded (allow now key l).1
  unfolding allow
  allow-IsBounded now = ground (arith, remove-IsBounded)

abbrev pub source : Call → String
source (asks key) = key
source (tries key) = key
source (fails key) = key
source (succeeds key) = key

attempt-IsBounded :
    (key : String) (l : Limiter) (now : ℕ)
    → IsBounded l
    → key ≢ ""
    → IsBounded (attempt now key l).1
unfolding attempt
attempt-IsBounded key l now v h =
    let v' = allow-IsBounded key l v now in
    ground (arith, v', failed-IsBounded key (allow now key l).1 v' now h)

step-IsBounded :
    (l : Limiter) (now : ℕ) (c : Call) → source c ≢ "" → IsBounded l → IsBounded (step l (now, c))
unfolding step succeeded
step-IsBounded l now (asks key) h v = allow-IsBounded key l v now
step-IsBounded l now (tries key) h v = attempt-IsBounded key l now v h
step-IsBounded l now (fails key) h v = failed-IsBounded key l v now h
step-IsBounded l now (succeeds key) h v = remove-IsBounded key l v

-- Every call names a source.
abbrev pub Named : List (ℕ × Call) → Type 0
Named [] = Unit {0}
Named ((now, c) ∷ cs) = (source c ≢ "") × Named cs

run_from-IsBounded :
    (l : Limiter) (cs : List (ℕ × Call)) → Named cs → IsBounded l → IsBounded (run l cs)
unfolding run
run_from-IsBounded l [] n v = v
run_from-IsBounded l ((now, c) ∷ cs) n v =
    run_from-IsBounded (step l (now, c)) cs n.1 (step-IsBounded l now c n.0 v)

-- Whatever calls arrive, at whatever times and from whatever sources but "", the limiter never
-- holds more than `max_sources` records, and never two for one source.
pub run-IsBounded : (cs : List (ℕ × Call)) → Named cs → IsBounded (run [] cs)
unfolding lookup
run-IsBounded cs n =
    run_from-IsBounded [] cs n (record { distinct = tt; named = refl; fits = omega arith })
