-- ===== src/Seat/Ring.antt =====
-- internal/seat/log.go: the ring of recent lines of a seat. The clock's stamp comes with the call.
mod Tests
use mathlib.Core.List.{append_assoc, append-nil}
use polyseat.Prelude.{
  tests, ℕ, ◌+◌, ◌-◌, ◌≤◌, ◌<◌, ◌≡◌, refl, ◌∙◌, sym, ap, ◌⊎◌, inl, inr, List, [], ◌∷◌, ◌++◌, ltb,
  if◌then◌else◌, length, drop, length-append, length-drop, Bool-cases, arith, true, false,
}
use polyseat.Prelude.Text.{Text, codes}

pub record Log : Type 0 where
  pub lines : List Text
  pub max : ℕ

unfoldable pub new_log : ℕ → Log
new_log max = record { lines = []; max = max }

-- `Add`, at a time that is written as the stamp.
unfoldable pub add : Text → Text → Log → Log
add stamp line l =
    let grown = l.lines ++ ((stamp ++ codes "  " ++ line) ∷ []) in
    if ltb l.max (length grown)
    then record l { lines = drop (length grown - l.max) grown }
    else record l { lines = grown }

unfoldable pub add_all : List (Text × Text) → Log → Log
unfolding add
add_all [] l = l
add_all ((stamp, line) ∷ cs) l = add_all cs (add stamp line l)

-- Everything that was ever added, as it is shown.
unfoldable pub shown : List (Text × Text) → List Text
shown [] = []
shown ((stamp, line) ∷ cs) = (stamp ++ codes "  " ++ line) ∷ shown cs

-- The last so many elements.
unfoldable pub last_of {ℓ} : {A : Type ℓ} → ℕ → List A → List A
last_of n xs = drop (length xs - n) xs

no_less : (k : ℕ) → 0 - k ≡ 0
no_less k = omega arith

less_none : (n : ℕ) → ℕ.suc n - 0 ≡ ℕ.suc n
less_none n = omega arith

less_suc : (n k : ℕ) → ℕ.suc n - ℕ.suc k ≡ n - k
less_suc n k = omega arith

none_more : (m : ℕ) → 0 + m ≡ m
none_more m = omega arith

one_more : (n m : ℕ) → ℕ.suc n + m ≡ ℕ.suc (n + m)
one_more n m = omega arith

module _ {ℓ} {A : Type ℓ} where
  drop_all : (n : ℕ) (xs : List A) → length xs ≤ n → drop n xs ≡ []
  drop_all ℕ.zero [] h = refl
  drop_all ℕ.zero (x ∷ xs) h = absurd (omega (arith, h))
  drop_all (ℕ.suc n) [] h = refl
  drop_all (ℕ.suc n) (x ∷ xs) h = drop_all n xs (omega (arith, h))

  drop-append : (n : ℕ) (xs ys : List A) → drop n (xs ++ ys) ≡ drop n xs ++ drop (n - length xs) ys
  drop-append ℕ.zero xs ys = rw (no_less (length xs)) refl
  drop-append (ℕ.suc n) [] ys = rw (less_none n) refl
  drop-append (ℕ.suc n) (x ∷ xs) ys = rw (less_suc n (length xs)) (drop-append n xs ys)

  drop_first : (n m : ℕ) (xs : List A) → drop m (drop n xs) ≡ drop (n + m) xs
  drop_first ℕ.zero m xs = rw (none_more m) refl
  drop_first (ℕ.suc n) ℕ.zero [] = rw (one_more n 0) refl
  drop_first (ℕ.suc n) (ℕ.suc m) [] = rw (one_more n (ℕ.suc m)) refl
  drop_first (ℕ.suc n) m (x ∷ xs) = rw (one_more n m) (drop_first n m xs)

  last_of-append : (n : ℕ) (xs ys : List A) → last_of n (last_of n xs ++ ys) ≡ last_of n (xs ++ ys)
  unfolding last_of
  last_of-append n xs ys = elim (Bool-cases (ltb n (length xs))) [
    | inl h ↦
        ap (λ t. drop (length (drop (length xs - n) xs ++ ys) - n) t) (kept h)
        ∙ drop_first (length xs - n) (length (drop (length xs - n) xs ++ ys) - n) (xs ++ ys)
        ∙ ap (λ k. drop k (xs ++ ys)) (counted h)
    | inr h ↦ ap (λ k. last_of n (drop k xs ++ ys)) (none_dropped h)
  ]
    where
      within : length xs - n - length xs ≡ 0
      within = omega arith

      none_dropped : ltb n (length xs) ≡ false → length xs - n ≡ 0
      none_dropped h = ground arith

      kept :
          ltb n (length xs) ≡ true → drop (length xs - n) xs ++ ys ≡ drop (length xs - n) (xs ++ ys)
      kept h = sym (
          drop-append (length xs - n) xs ys ∙ ap (λ k. drop (length xs - n) xs ++ drop k ys) within)

      counted :
          ltb n (length xs) ≡ true
          → length xs - n + (length (drop (length xs - n) xs ++ ys) - n) ≡ length (xs ++ ys) - n
      counted h = omega (
        tests,
        length-append (drop (length xs - n) xs) ys,
        length-append xs ys,
        length-drop (length xs - n) xs,
      )

add-lines :
    (stamp line : Text) (l : Log)
    → (add stamp line l).lines ≡ last_of l.max (l.lines ++ ((stamp ++ codes "  " ++ line) ∷ []))
unfolding add last_of
add-lines stamp line l =
    elim (Bool-cases (ltb l.max (length (l.lines ++ ((stamp ++ codes "  " ++ line) ∷ []))))) [
      | inl h ↦ ground arith
      | inr h ↦ ground arith
    ]

add-max : (stamp line : Text) (l : Log) → (add stamp line l).max ≡ l.max
unfolding add
add-max stamp line l = ground arith

length-last_of {ℓ} : {A : Type ℓ} (n : ℕ) (xs : List A) → length (last_of n xs) ≤ n
unfolding last_of
length-last_of n xs = omega (tests, length-drop (length xs - n) xs)

last_of-all {ℓ} : {A : Type ℓ} (n : ℕ) (xs : List A) → length xs ≤ n → last_of n xs ≡ xs
unfolding last_of
last_of-all n xs h = ap (λ k. drop k xs) nothing
  where
    nothing : length xs - n ≡ 0
    nothing = omega arith

add_all-lines :
    (cs : List (Text × Text)) (l : Log)
    → length l.lines ≤ l.max
    → (add_all cs l).lines ≡ last_of l.max (l.lines ++ shown cs)
unfolding add_all shown
add_all-lines [] l w = sym (ap (last_of l.max) (append-nil l.lines) ∙ last_of-all l.max l.lines w)
add_all-lines ((stamp, line) ∷ cs) l w =
    add_all-lines cs (add stamp line l) within
    ∙ ap (λ m. last_of m ((add stamp line l).lines ++ shown cs)) (add-max stamp line l)
    ∙ ap (λ t. last_of l.max (t ++ shown cs)) (add-lines stamp line l)
    ∙ last_of-append l.max (l.lines ++ (new ∷ [])) (shown cs)
    ∙ ap (last_of l.max) (append_assoc l.lines (new ∷ []) (shown cs))
  where
    new : Text
    new = stamp ++ codes "  " ++ line

    within : length (add stamp line l).lines ≤ (add stamp line l).max
    within =
        rw (add-lines stamp line l, add-max stamp line l)
          (length-last_of l.max (l.lines ++ (new ∷ [])))

-- Whatever was added to a new log, in whatever order, its lines are the last ones that were added, as
-- many as the ring holds, in the order in which they arrived.
pub lines-last :
    (cs : List (Text × Text)) (max : ℕ) → (add_all cs (new_log max)).lines ≡ last_of max (shown cs)
unfolding new_log
lines-last cs max = add_all-lines cs (new_log max) (omega arith)
