-- ===== src/Auth/Limiter/Pace.antt =====
-- internal/auth/auth.go: the waiting times of a source that guesses.
use polyseat.Prelude.{
  ◌∙◌, ℕ, zero, suc, ◌+◌, ◌-◌, ◌*◌, ◌≤◌, ◌<◌, String, ◌≡◌, refl, ◌⊎◌, inl, inr, true, false, none,
  some, arith, eq_iff, ltb, if◌then◌else◌, Bool-cases,
}
use polyseat.Prelude.Dict.{lookup, insert, lookup-insert}
use polyseat.Auth.Limiter.{
  Limiter, Attempts, second, fail_window, free_attempts, allow, attempt, failed, counted, fresh,
  delay, make_room,
}

-- How long a source waits after its first `n` guesses.
abbrev pub pause : ℕ → ℕ
pause n = if ltb free_attempts n then delay n else 0

-- The least time that `n` guesses take.
unfoldable pub waits : ℕ → ℕ
waits zero = 0
waits (suc n) = waits n + pause n

-- After `n` guesses since `t0`, the last one at `t` at most.
pub record Tracked (key : String) (t0 t n : ℕ) (l : Limiter) : Type 0 where
  pub attempts : Attempts
  pub held : lookup key l ≡ some attempts
  pub counts : attempts.count ≡ n
  pub since : t0 + waits n ≤ attempts.last
  pub before : attempts.last ≤ t
  pub blocks : pause n ≤ attempts.until - attempts.last

module _ (now : ℕ) (key : String) (l : Limiter) where
  attempt-new :
      lookup key l ≡ none
      → attempt now key l
        ≡ (record { allowed = true; wait = 0 }, insert key (counted now fresh) (make_room now l))
  unfolding attempt allow failed
  attempt-new h = ground arith

  attempt-blocked :
      (a : Attempts)
      → lookup key l ≡ some a
      → now - a.last ≤ fail_window
      → now < a.until
      → attempt now key l ≡ (record { allowed = false; wait = a.until - now }, l)
  unfolding attempt allow
  attempt-blocked a h recent blocked = ground arith

  attempt-again :
      (a : Attempts)
      → lookup key l ≡ some a
      → now - a.last ≤ fail_window
      → a.until ≤ now
      → attempt now key l ≡ (record { allowed = true; wait = 0 }, insert key (counted now a) l)
  unfolding attempt allow failed
  attempt-again a h recent free = ground arith

  lookup-counted : (a : Attempts) → lookup key (insert key a l) ≡ some a
  lookup-counted a = ground (arith, eq_iff key key, lookup-insert key key a l)

counted-Tracked :
    (now : ℕ) (key : String) (l : Limiter) (t0 n : ℕ) (a : Attempts)
    → a.count ≡ n
    → t0 + waits (suc n) ≤ now
    → Tracked key t0 now (suc n) (insert key (counted now a) l)
unfolding counted
counted-Tracked now key l t0 n a c h = record {
  attempts = counted now a;
  held = lookup-counted now key l (counted now a);
  counts = omega arith;
  since = h;
  before = omega arith;
  blocks = rw (← c) (ground arith);
}

pub first-Tracked :
    (key : String) (t0 now : ℕ) (l : Limiter)
    → t0 ≤ now
    → lookup key l ≡ none
    → ((attempt now key l).0.allowed ≡ true) × Tracked key t0 now 1 (attempt now key l).1
first-Tracked key t0 now l le h =
    rw (attempt-new now key l h) (
      refl,
      counted-Tracked now key (make_room now l) t0 0 fresh refl (unfold waits in ground arith),
    )

module _ (key : String) (t0 n t : ℕ) (l : Limiter) (w : Tracked key t0 t n l) where
  open w use {attempts as a, held, counts, since, before, blocks}

  -- One more guess is refused and changes nothing, or is let through and counted.
  pub Tracked-attempt :
      (now : ℕ)
      → t ≤ now
      → now ≤ t0 + fail_window
      → (((attempt now key l).0.allowed ≡ false) × Tracked key t0 now n (attempt now key l).1)
        ⊎ (((attempt now key l).0.allowed ≡ true)
            × Tracked key t0 now (suc n) (attempt now key l).1)
  unfolding waits
  Tracked-attempt now later within = elim (Bool-cases (ltb now a.until)) [
    | inl blocked ↦ inl (
        rw (attempt-blocked now key l a held (omega arith) (ground arith)) (
          refl,
          record {
            attempts = a;
            held = held;
            counts = counts;
            since = since;
            before = omega arith;
            blocks = blocks;
          },
        ))
    | inr free ↦
        let over : a.until ≤ now = ground arith in
        inr (
          rw (attempt-again now key l a held (omega arith) over)
            (refl, counted-Tracked now key l t0 n a counts (omega arith)))
  ]

pub Tracked-other :
    (key : String) (t0 t t' n : ℕ) (l m : Limiter)
    → t ≤ t'
    → lookup key m ≡ lookup key l
    → Tracked key t0 t n l
    → Tracked key t0 t' n m
Tracked-other key t0 t t' n l m le same w = record {
  attempts = w.attempts;
  held = same ∙ w.held;
  counts = w.counts;
  since = w.since;
  before = omega (arith, w.before);
  blocks = w.blocks;
}

pub waits-later : (t0 t n to : ℕ) → t0 ≤ t → t + waits n ≤ to → t0 + waits n ≤ to
waits-later t0 t n to le h = omega arith

pub waits-le : (m n : ℕ) → n ≤ m → waits n ≤ waits m
unfolding waits
waits-le zero n h = rw (let e : n ≡ 0 = omega arith in e) (omega arith)
waits-le (suc m) n h = elim (Bool-cases (ltb n (suc m))) [
  | inl less ↦ omega (arith, waits-le m n (ground arith))
  | inr same ↦ rw (let e : n ≡ suc m = ground arith in e) (omega arith)
]

pub waits-25 : waits 25 ≡ 958 * second
unfolding waits delay
waits-25 = refl
