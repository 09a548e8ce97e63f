-- ===== src/Library/Pool/Loops.antt =====
-- internal/library/pool.go: what holds through the loops.
use mathlib.Core.List.{Memᴰ}
use mathlib.Core.List.Memᴰ.{head, tail}
use polyseat.Prelude.{List, [], ◌∷◌, sym, subst, inl, inr, Bool-cases, arith}
use polyseat.Library.Pool.{Done, each, sweep}

module _ {ℓ κ μ} {A : Type ℓ} {S : Type κ} (P : S → Type μ) where
  pub each-keeps :
      (step : A → S → Done S)
      → ((x : A) (s : S) → P s → P (step x s).0)
      → (xs : List A) (s : S) → P s
      → P (each step xs s).0
  unfolding each
  each-keeps step keep [] s p = p
  each-keeps step keep (x ∷ xs) s p = elim (Bool-cases (step x s).1) [
    | inl e ↦ subst P (sym (ground arith)) (keep x s p)
    | inr e ↦ subst P (sym (ground arith)) (each-keeps step keep xs (step x s).0 (keep x s p))
  ]

  pub sweep-keeps :
      (step : A → S → S)
      → ((x : A) (s : S) → P s → P (step x s))
      → (xs : List A) (s : S) → P s
      → P (sweep step xs s)
  unfolding sweep
  sweep-keeps step keep [] s p = p
  sweep-keeps step keep (x ∷ xs) s p = sweep-keeps step keep xs (step x s) (keep x s p)

-- What one round brings about and the others keep, holds after the loop.
pub sweep-reaches {ℓ κ μ ν} :
    {A : Type ℓ} {S : Type κ} (I : S → Type μ) (G : S → Type ν) (step : A → S → S)
    → ((x : A) (s : S) → I s → I (step x s))
    → ((x : A) (s : S) → G s → G (step x s))
    → (a : A) → ((s : S) → I s → G (step a s))
    → (xs : List A) (s : S) → Memᴰ a xs
    → I s
    → G (sweep step xs s)
unfolding sweep
sweep-reaches I G step keep stay a reach [] s m i = elim m [ ]
sweep-reaches I G step keep stay a reach (x ∷ xs) s (head e) i =
    sweep-keeps G step stay xs (step x s) (subst (λ y. G (step y s)) e (reach s i))
sweep-reaches I G step keep stay a reach (x ∷ xs) s (tail m) i =
    sweep-reaches I G step keep stay a reach xs (step x s) m (keep x s i)
