-- ===== src/Library/Pool/Uninstall/Refused.antt =====
-- internal/library/pool.go: what `Uninstall` refuses.
use mathlib.Core.List.{Memᴰ}
use mathlib.Core.List.Memᴰ.{head, tail}
use polyseat.Prelude.{
  ◌≡◌, refl, sym, subst, ◌⊎◌, inl, inr, Bool, true, false, Option, some, List, [], ◌∷◌, ◌++◌, arith,
  Result, ok, err, Bool-cases, Option-cases,
}
use polyseat.Prelude.Text.{Text}
use polyseat.Prelude.Table.{Table, find, is_some}
use polyseat.Library.Manifest.{App, is_safe_name}
use polyseat.Library.Pool.{Steam, Home, Member, Move}
use polyseat.Library.Pool.Sync.{World, home_of}
use polyseat.Library.Pool.Uninstall.{
  Faults, Refusal, Search, source_with, search, found, after_search, uninstall, manifest_name,
  start,
}

abbrev pub has_any : List Text → Bool
has_any [] = false
has_any (t ∷ ts) = true

has_any-append : (ts : List Text) (t : Text) → has_any (ts ++ t ∷ []) ≡ true
has_any-append [] t = refl
has_any-append (s ∷ ts) t = refl

-- What is found in use stays found.
found-busy :
    (m : Member) (app : App) (s : Search)
    → has_any s.busy ≡ true
    → has_any (found m app s).busy ≡ true
found-busy m app s h = elim (Bool-cases m.is_updatable) [
  | inl u ↦ ground arith
  | inr u ↦ ground (arith, has_any-append s.busy m.name)
]

search-busy :
    (id : Text) (homes : Table Home) (ms : List Member) (s r : Search)
    → search id homes ms s ≡ ok r
    → has_any s.busy ≡ true
    → has_any r.busy ≡ true
unfolding search
search-busy id homes [] s r h b = ground arith
search-busy id homes (m ∷ ms) s r h b = elim (Option-cases (home_of m.name homes).steam) [
  | inl k ↦ ground arith
  | inr (lib, k) ↦ elim (Option-cases (find id lib.manifests)) [
    | inl j ↦ search-busy id homes ms s r (ground arith) b
    | inr (app, j) ↦ elim (Bool-cases (is_safe_name app.fields.install_dir)) [
      | inl i ↦ search-busy id homes ms (found m app s) r (ground arith) (found-busy m app s b)
      | inr i ↦ ground arith
    ]
  ]
]

-- The member has the title and is using it.
abbrev pub InUse : Text → Table Home → Member → Type 0
InUse id homes m =
    (m.is_updatable ≡ false)
    × ((lib : Steam) × ((home_of m.name homes).steam ≡ some lib)
        × ((app : App) × (find id lib.manifests ≡ some app)))

search-here :
    (id : Text) (homes : Table Home) (m : Member) (ms : List Member) (s r : Search) (lib : Steam)
    (app : App)
    → search id homes (m ∷ ms) s ≡ ok r
    → m.is_updatable ≡ false
    → (home_of m.name homes).steam ≡ some lib
    → find id lib.manifests ≡ some app
    → has_any r.busy ≡ true
unfolding search
search-here id homes m ms s r lib app h off k j =
    elim (Bool-cases (is_safe_name app.fields.install_dir)) [
      | inl i ↦
          search-busy id homes ms (found m app s) r (ground arith)
            (ground (arith, has_any-append s.busy m.name))
      | inr i ↦ ground arith
    ]

search-InUse :
    (id : Text) (homes : Table Home) (ms : List Member) (s r : Search) (m : Member)
    → search id homes ms s ≡ ok r
    → Memᴰ m ms
    → InUse id homes m
    → has_any r.busy ≡ true
unfolding search
search-InUse id homes [] s r m h mem u = elim mem [ ]
search-InUse id homes (x ∷ ms) s r m h (head e) u =
    let (off, (lib, k, (app, j))) = subst (InUse id homes) e u in
    search-here id homes x ms s r lib app h off k j
search-InUse id homes (x ∷ ms) s r m h (tail t) u =
    elim (Option-cases (home_of x.name homes).steam) [
      | inl k ↦ ground arith
      | inr (lib, k) ↦ elim (Option-cases (find id lib.manifests)) [
        | inl j ↦ search-InUse id homes ms s r m (ground arith) t u
        | inr (app, j) ↦ elim (Bool-cases (is_safe_name app.fields.install_dir)) [
          | inl i ↦ search-InUse id homes ms (found x app s) r m (ground arith) t u
          | inr i ↦ ground arith
        ]
      ]
    ]

-- Nothing is changed, and the answer is an error.
abbrev pub IsRefused : World → World × List Move × Option Refusal → Type 0
IsRefused w a = (a.0 ≡ w) × (is_some a.2 ≡ true)

pub busy-cases :
    (ts : List Text) → has_any ts ≡ true → (b : Text) × ((bs : List Text) × (ts ≡ b ∷ bs))
busy-cases [] h = ground arith
busy-cases (b ∷ bs) h = (b, (bs, refl))

after_search-IsRefused :
    (f : Faults) (id : Text) (w : World) (s : Search)
    → has_any s.busy ≡ true
    → IsRefused w (after_search f id w s)
unfolding after_search is_some
after_search-IsRefused f id w s h =
    let (b, (bs, e)) = busy-cases s.busy h in (ground arith, ground arith)

pub Result-cases {ℓ} :
    {E A : Type ℓ} (r : Result E A) → ((a : A) × (r ≡ ok a)) ⊎ ((e : E) × (r ≡ err e))
Result-cases (ok a) = inl (a, refl)
Result-cases (err e) = inr (e, refl)

-- If a member is using its copy of the title, an uninstall is refused and nothing is changed in any
-- library, in the pool or in what is remembered.
pub uninstall-InUse :
    (f : Faults) (id : Text) (members : List Member) (w : World) (m : Member)
    → Memᴰ m members
    → InUse id w.homes m
    → IsRefused w (uninstall f id members w)
unfolding uninstall is_some
uninstall-InUse f id members w m h u = elim (Bool-cases (is_safe_name (manifest_name id))) [
  | inr n ↦ (ground arith, ground arith)
  | inl n ↦ elim (Option-cases (source_with id members w.libraries w.pool.state.sources)) [
    | inr (source, k) ↦ (ground arith, ground arith)
    | inl k ↦ elim (Result-cases (search id w.homes members (start id))) [
      | inr (r, j) ↦ (ground arith, ground arith)
      | inl (s, j) ↦
          subst (IsRefused w) {x = after_search f id w s} {y = uninstall f id members w}
            (sym (ground arith))
            (after_search-IsRefused f id w s (search-InUse id w.homes members (start id) s m j h u))
    ]
  ]
]
