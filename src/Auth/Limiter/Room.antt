-- ===== src/Auth/Limiter/Room.antt =====
-- internal/auth/auth.go, `makeRoom`: what the loop keeps and which record it finds.
use polyseat.Prelude.{
  ℕ, ◌≤◌, ◌<◌, String, ◌≡◌, ◌≢◌, refl, ◌⊎◌, inl, none, [], ◌∷◌, arith, eq_iff, length,
}
use polyseat.Prelude.Dict.{Distinct, lookup, length-remove-lt, remove-Distinct, lookup-remove}
use polyseat.Auth.Limiter.{Limiter, older, drop_expired, make_room, max_sources}

module _ (now : ℕ) where
  drop_expired-none :
      (k : String) (l : Limiter) (oldest : String × ℕ)
      → lookup k l ≡ none
      → lookup k (drop_expired now l oldest).0 ≡ none
  unfolding drop_expired lookup
  drop_expired-none k [] oldest h = h
  drop_expired-none k ((j, a) ∷ l) oldest h =
      ground (arith, drop_expired-none k l (older now j a oldest))

  drop_expired-Distinct :
      (l : Limiter) (oldest : String × ℕ) → Distinct l → Distinct (drop_expired now l oldest).0
  unfolding drop_expired
  drop_expired-Distinct [] oldest d = d
  drop_expired-Distinct ((j, a) ∷ l) oldest d = ground (
    arith,
    drop_expired-Distinct l (older now j a oldest) d.1,
    drop_expired-none j l (older now j a oldest) d.0,
  )

  length-drop_expired :
      (l : Limiter) (oldest : String × ℕ) → length (drop_expired now l oldest).0 ≤ length l
  unfolding drop_expired
  length-drop_expired [] oldest = omega arith
  length-drop_expired ((j, a) ∷ l) oldest =
      ground (arith, length-drop_expired l (older now j a oldest))

  -- A key that was found stays found, or gives way to another one.
  drop_expired-found :
      (l : Limiter) (oldest : String × ℕ)
      → lookup "" l ≡ none
      → oldest.0 ≢ ""
      → (drop_expired now l oldest).1.0 ≢ ""
  unfolding drop_expired lookup
  drop_expired-found [] oldest n h = h
  drop_expired-found ((j, a) ∷ l) oldest n h =
      ground (arith, eq_iff oldest.0 "", eq_iff j "", drop_expired-found l (older now j a oldest))

  -- What was found is the key at the start, or that of a record that is kept.
  drop_expired-kept :
      (l : Limiter) (oldest : String × ℕ)
      → ((drop_expired now l oldest).1.0 ≡ oldest.0)
        ⊎ (lookup (drop_expired now l oldest).1.0 (drop_expired now l oldest).0 ≢ none)
  unfolding drop_expired lookup
  drop_expired-kept [] oldest = inl refl
  drop_expired-kept ((j, a) ∷ l) oldest = ground (
    arith,
    drop_expired-kept l (older now j a oldest),
    eq_iff j (drop_expired now l (older now j a oldest)).1.0,
  )

  -- A kept record is enough to find a key.
  drop_expired-finds :
      (l : Limiter) (oldest : String × ℕ)
      → lookup "" l ≡ none
      → (drop_expired now l oldest).0 ≢ []
      → (drop_expired now l oldest).1.0 ≢ ""
  unfolding drop_expired lookup
  drop_expired-finds [] oldest n m = absurd (m refl)
  drop_expired-finds ((j, a) ∷ l) oldest n m = ground (
    arith,
    eq_iff oldest.0 "",
    eq_iff j "",
    drop_expired-finds l (older now j a oldest),
    drop_expired-found l (older now j a oldest),
  )

-- What the limiter's map keeps to: one record for a source, none for the source "", and no more
-- than `max_sources` of them.
pub record IsBounded (l : Limiter) : Type 0 where
  pub distinct : Distinct l
  pub named : lookup "" l ≡ none
  pub fits : length l ≤ max_sources

module _ (now : ℕ) (l : Limiter) (v : IsBounded l) where
  open v use {distinct, named, fits}

  abbrev kept : Limiter
  kept = (drop_expired now l ("", 0)).0

  abbrev found : String
  found = (drop_expired now l ("", 0)).1.0

  pub make_room-Distinct : Distinct (make_room now l)
  unfolding make_room
  make_room-Distinct = ground (
    arith,
    drop_expired-Distinct now l ("", 0) distinct,
    remove-Distinct found kept (drop_expired-Distinct now l ("", 0) distinct),
  )

  -- No key is new.
  pub make_room-none : (k : String) → lookup k l ≡ none → lookup k (make_room now l) ≡ none
  unfolding make_room
  make_room-none k h =
      ground (arith, drop_expired-none now k l ("", 0) h, lookup-remove found k kept)

  -- There is room for one more.
  pub length-make_room : length (make_room now l) < max_sources
  unfolding make_room
  length-make_room = ground (
    arith,
    length-drop_expired now l ("", 0),
    drop_expired-finds now l ("", 0) named,
    drop_expired-kept now l ("", 0),
    length-remove-lt found kept,
    eq_iff found "",
  )
