-- ===== src/Library/Pool/Keyed.antt =====
-- internal/library/pool.go: manifests that stand under their own ids.
use mathlib.Core.List.{Memᴰ}
use mathlib.Core.List.Memᴰ.{head, tail}
use mathlib.Core.Option.{some_inj}
use polyseat.Prelude.{
  ℕ, ◌≡◌, ap, sym, subst, ◌∙◌, inl, inr, true, some, List, [], ◌∷◌, arith, Bool-cases, Option-cases,
}
use polyseat.Prelude.Text.{Text, text_eq, text_eq_iff, text_eq_refl}
use polyseat.Prelude.Sort.{sort_by-mem}
use polyseat.Prelude.Table.{Table, find, put, is_some}
use polyseat.Library.Manifest.{App}
use polyseat.Library.Pool.{read_apps, copy_of}
use polyseat.Library.Pool.Distribute.{present}
use polyseat.Library.Pool.Lacks.{map-mem, put-mem}

-- Each manifest stands under its own app id.
abbrev pub IsKeyed : Table App → Type 0
IsKeyed ms = (x : Text × App) → Memᴰ x ms → text_eq x.1.fields.app_id x.0 ≡ true

pub IsKeyed-put :
    (now : ℕ) (app : App) (ms : Table App)
    → IsKeyed ms
    → IsKeyed (put app.fields.app_id (copy_of now app) ms)
unfolding copy_of
IsKeyed-put now app ms keyed x m = elim (put-mem app.fields.app_id (copy_of now app) ms x m) [
  | inl e ↦
      subst (λ (y : Text × App). text_eq y.1.fields.app_id y.0 ≡ true) (sym e)
        (text_eq_refl app.fields.app_id)
  | inr r ↦ keyed x r
]

pub find-mem {ℓ} :
    {V : Type ℓ} (x : Text × V) (m : Table V) → Memᴰ x m → is_some (find x.0 m) ≡ true
unfolding find is_some
find-mem x [] h = elim h [ ]
find-mem x ((k, v) ∷ m) (head e) = ground (arith, text_eq_refl x.0, ap (λ (y : Text × _). y.0) e)
find-mem x ((k, v) ∷ m) (tail r) = ground (arith, find-mem x m r)

present-mem :
    (id : Text) (apps : List App) (a : App)
    → present id apps ≡ some a
    → Memᴰ a apps × (text_eq a.fields.app_id id ≡ true)
unfolding present
present-mem id [] a h = ground arith
present-mem id (app ∷ apps) a h = elim (Option-cases (present id apps)) [
  | inr (b, k) ↦ let (m, e) = present-mem id apps a (ground arith) in (tail m, e)
  | inl k ↦ elim (Bool-cases (text_eq app.fields.app_id id)) [
    | inl e ↦
        let same : app ≡ a = some_inj.0 (ground arith) in
        (head (sym same), subst (λ (b : App). text_eq b.fields.app_id id ≡ true) same e)
    | inr e ↦ ground arith
  ]
]

-- What the read list has, stands in the directory under its id.
pub present-found :
    (id : Text) (ms : Table App) (a : App)
    → IsKeyed ms
    → present id (read_apps ms) ≡ some a
    → is_some (find id ms) ≡ true
unfolding read_apps
present-found id ms a keyed h =
    let (m, e) = present-mem id (read_apps ms) a h in
    let (x, n, same) = map-mem ms a ((sort_by-mem _ _).0 m) in
    let key = (text_eq_iff x.1.fields.app_id x.0).0 (keyed x n) in
    let own = (text_eq_iff a.fields.app_id id).0 e in
    subst (λ k. is_some (find k ms) ≡ true)
      (sym key ∙ ap (λ (b : App). b.fields.app_id) (sym same) ∙ own) (find-mem x ms n)
