-- ===== src/Auth/Limiter/Others.antt =====
-- internal/auth/auth.go: calls for other sources, and the record of one.
use polyseat.Prelude.{
  Bool, str_eq, ◌&&◌, ◌≢◌, ap, length, Option-cases, ℕ, ◌≤◌, ◌<◌, String, ◌≡◌, refl, ◌⊎◌, inl, inr,
  false, arith, eq_iff, if◌then◌else◌,
}
use polyseat.Prelude.Dict.{lookup, lookup-insert, lookup-remove, length-remove-le}
use polyseat.Auth.Limiter.{
  Limiter, allow, attempt, failed, counted, fresh, make_room, Call, tries, asks, fails, succeeds,
  step, succeeded, is_expired, max_sources,
}

-- Whether a call is a guess of the source that is let through.
unfoldable pub passes : String → ℕ → Call → Limiter → Bool
passes key now (tries k) l = str_eq k key && (attempt now k l).0.allowed
passes key now (asks k) l = false
passes key now (fails k) l = false
passes key now (succeeds k) l = false

-- A guess of the source, or a call for another source, while there is room in the map for one more.
abbrev pub IsApart : String → Limiter → Call → Type 0
IsApart key l (tries k) = (k ≡ key) ⊎ ((k ≢ key) × (length l < max_sources))
IsApart key l (asks k) = k ≢ key
IsApart key l (fails k) = (k ≢ key) × (length l < max_sources)
IsApart key l (succeeds k) = k ≢ key

allow-other :
    (now : ℕ) (k key : String) (l : Limiter) → k ≢ key → lookup key (allow now k l).1 ≡ lookup key l
unfolding allow
allow-other now k key l other = ground (arith, lookup-remove k key l, eq_iff k key)

length-allow : (now : ℕ) (k : String) (l : Limiter) → length (allow now k l).1 ≤ length l
unfolding allow
length-allow now k l = ground (arith, length-remove-le k l)

failed-other :
    (now : ℕ) (k key : String) (l : Limiter)
    → k ≢ key
    → length l < max_sources
    → lookup key (failed now k l) ≡ lookup key l
unfolding failed make_room
failed-other now k key l other room = elim (Option-cases (lookup k l)) [
  | inl h ↦ ground (arith, lookup-insert k key (counted now fresh) l, eq_iff k key)
  | inr (a, h) ↦ ground (
    arith,
    lookup-insert k key (counted now (if is_expired now a then fresh else a)) l,
    eq_iff k key,
  )
]

attempt-other :
    (now : ℕ) (k key : String) (l : Limiter)
    → k ≢ key
    → length l < max_sources
    → lookup key (attempt now k l).1 ≡ lookup key l
unfolding attempt
attempt-other now k key l other room = ground (
  arith,
  allow-other now k key l other,
  failed-other now k key (allow now k l).1 other (omega (arith, length-allow now k l)),
)

-- A call is a guess of the source, or leaves its record as it is and lets no guess of it through.
pub step-cases :
    (key : String) (t : ℕ) (c : Call) (l : Limiter)
    → IsApart key l c
    → (c ≡ tries key) ⊎ ((passes key t c l ≡ false) × (lookup key (step l (t, c)) ≡ lookup key l))
unfolding passes step succeeded
step-cases key t (tries k) l (inl e) = inl (ap tries e)
step-cases key t (tries k) l (inr (other, room)) =
    inr (ground (arith, eq_iff k key), attempt-other t k key l other room)
step-cases key t (asks k) l other = inr (refl, allow-other t k key l other)
step-cases key t (fails k) l (other, room) = inr (refl, failed-other t k key l other room)
step-cases key t (succeeds k) l other =
    inr (refl, ground (arith, lookup-remove k key l, eq_iff k key))
