-- ===== src/Prelude/Sort.antt =====
-- Sorting by a test, and the order of strings.
use mathlib.Core.Path.{◌≡◌, refl, sym, subst}
use mathlib.Core.Bool.{Bool, true, false}
use mathlib.Core.List.{List, [], ◌∷◌}
use mathlib.Core.List.{Memᴰ}
use mathlib.Core.List.Memᴰ.{head, tail}
use mathlib.Core.Logic.{◌⊎◌, inl, inr, ◌↔◌}
use native.Mathlib.Omega.{arith}
use polyseat.Prelude.Tests.{◌==◌, ltb, if◌then◌else◌}
use polyseat.Prelude.Text.{Text}

-- `a < b` on strings.
unfoldable pub text_lt : Text → Text → Bool
text_lt [] [] = false
text_lt [] (d ∷ t) = true
text_lt (c ∷ s) [] = false
text_lt (c ∷ s) (d ∷ t) = if c == d then text_lt s t else ltb c d

-- `sort.Slice` by an order in which no two elements are level.
unfoldable pub insert_by {ℓ} : {A : Type ℓ} → (A → A → Bool) → A → List A → List A
insert_by before x [] = x ∷ []
insert_by before x (y ∷ ys) =
    let rest = insert_by before x ys in if before y x then y ∷ rest else x ∷ y ∷ ys

unfoldable pub sort_by {ℓ} : {A : Type ℓ} → (A → A → Bool) → List A → List A
unfolding insert_by
sort_by before [] = []
sort_by before (x ∷ xs) = insert_by before x (sort_by before xs)

module _ {ℓ} {A : Type ℓ} (before : A → A → Bool) where
  insert_by-cases :
      (x y : A) (ys : List A)
      → (insert_by before x (y ∷ ys) ≡ y ∷ insert_by before x ys)
        ⊎ (insert_by before x (y ∷ ys) ≡ x ∷ y ∷ ys)
  unfolding insert_by
  insert_by-cases x y ys = ground arith

  insert_by-mem : {a : A} (x : A) (ys : List A) → Memᴰ a (insert_by before x ys) ↔ Memᴰ a (x ∷ ys)
  unfolding insert_by
  insert_by-mem x [] = (λ m. m, λ m. m)
  insert_by-mem {a} x (y ∷ ys) = elim (insert_by-cases x y ys) [
    | inl e ↦ (
      λ m. swapped (λ r. (insert_by-mem x ys).0 r) (subst (Memᴰ a) e m),
      λ m. subst (Memᴰ a) (sym e) (back (λ r. (insert_by-mem x ys).1 r) m),
    )
    | inr e ↦ (λ m. subst (Memᴰ a) e m, λ m. subst (Memᴰ a) (sym e) m)
  ]
    where
      swapped :
          (Memᴰ a (insert_by before x ys) → Memᴰ a (x ∷ ys))
          → Memᴰ a (y ∷ insert_by before x ys)
          → Memᴰ a (x ∷ y ∷ ys)
      swapped f (head e) = tail (head e)
      swapped f (tail r) = elim (f r) [ head e ↦ head e | tail m ↦ tail (tail m) ]

      back :
          (Memᴰ a (x ∷ ys) → Memᴰ a (insert_by before x ys))
          → Memᴰ a (x ∷ y ∷ ys)
          → Memᴰ a (y ∷ insert_by before x ys)
      back f (head e) = tail (f (head e))
      back f (tail (head e)) = head e
      back f (tail (tail m)) = tail (f (tail m))

  -- Sorting keeps the elements.
  pub sort_by-mem : {a : A} (xs : List A) → Memᴰ a (sort_by before xs) ↔ Memᴰ a xs
  unfolding sort_by
  sort_by-mem [] = (λ m. m, λ m. m)
  sort_by-mem {a} (x ∷ xs) =
      let i = insert_by-mem {a = a} x (sort_by before xs) in
      let r = sort_by-mem {a = a} xs in
      (
        λ m. elim (i.0 m) [ head e ↦ head e | tail n ↦ tail (r.0 n) ],
        λ m. i.1 (elim m [ head e ↦ head e | tail n ↦ tail (r.1 n) ]),
      )

  -- No element stands directly behind one that it goes before.
  abbrev pub InOrder : List A → Type 0
  InOrder [] = Unit {0}
  InOrder (x ∷ []) = Unit {0}
  InOrder (x ∷ y ∷ ys) = (before y x ≡ false) × InOrder (y ∷ ys)

  insert_by-InOrder :
      ((a b : A) → before a b ≡ true → before b a ≡ false)
      → (x : A) (ys : List A) → InOrder ys
      → InOrder (insert_by before x ys)
  unfolding insert_by
  insert_by-InOrder asym x [] o = tt
  insert_by-InOrder asym x (y ∷ []) o = ground (arith, asym y x)
  insert_by-InOrder asym x (y ∷ z ∷ zs) o =
      ground (arith, asym y x, insert_by-InOrder asym x (z ∷ zs) o.1, asym z x)

  -- A sorted list is in order, where the test is asymmetric.
  pub sort_by-InOrder :
      ((a b : A) → before a b ≡ true → before b a ≡ false)
      → (xs : List A) → InOrder (sort_by before xs)
  unfolding sort_by
  sort_by-InOrder asym [] = tt
  sort_by-InOrder asym (x ∷ xs) =
      insert_by-InOrder asym x (sort_by before xs) (sort_by-InOrder asym xs)

pub text_lt-asymm : (s t : Text) → text_lt s t ≡ true → text_lt t s ≡ false
unfolding text_lt
text_lt-asymm [] [] h = refl
text_lt-asymm [] (d ∷ t) h = refl
text_lt-asymm (c ∷ s) [] h = cc
text_lt-asymm (c ∷ s) (d ∷ t) h = ground (arith, text_lt-asymm s t)
