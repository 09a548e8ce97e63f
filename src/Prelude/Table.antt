-- ===== src/Prelude/Table.antt =====
-- A Go map or a directory whose keys are texts, as an association list.
use mathlib.Core.Path.{◌≡◌, refl}
use mathlib.Core.Bool.{Bool, true, false}
use mathlib.Core.List.{List, [], ◌∷◌}
use mathlib.Core.Option.{Option, none, some}
use native.Mathlib.Omega.{arith}
use polyseat.Prelude.Tests.{if◌then◌else◌}
use polyseat.Prelude.Text.{Text, text_eq, text_eq_iff}

abbrev pub Table {ℓ} : Type ℓ → Type ℓ
Table V = List (Text × V)

module _ {ℓ} {V : Type ℓ} where
  unfoldable pub find : Text → Table V → Option V
  find k [] = none
  find k ((j, v) ∷ m) = let rest = find k m in if text_eq j k then some v else rest

  unfoldable pub put : Text → V → Table V → Table V
  put k v [] = (k, v) ∷ []
  put k v ((j, w) ∷ m) = let rest = put k v m in if text_eq j k then (k, v) ∷ m else (j, w) ∷ rest

  unfoldable pub erase : Text → Table V → Table V
  erase k [] = []
  erase k ((j, v) ∷ m) = let rest = erase k m in if text_eq j k then rest else (j, v) ∷ rest

  pub find-put :
      (key k : Text) (v : V) (m : Table V)
      → find k (put key v m) ≡ (if text_eq key k then some v else find k m)
  unfolding find put
  find-put key k v [] = refl
  find-put key k v ((j, w) ∷ m) =
      ground (arith, find-put key k v m, text_eq_iff key k, text_eq_iff j key, text_eq_iff j k)

  pub find-erase :
      (key k : Text) (m : Table V)
      → find k (erase key m) ≡ (if text_eq key k then none else find k m)
  unfolding find erase
  find-erase key k [] = ground arith
  find-erase key k ((j, w) ∷ m) =
      ground (arith, find-erase key k m, text_eq_iff key k, text_eq_iff j key, text_eq_iff j k)

unfoldable pub is_some {ℓ} : {A : Type ℓ} → Option A → Bool
is_some none = false
is_some (some a) = true
