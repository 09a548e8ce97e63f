-- ===== src/Library/Pool/Sound.antt =====
-- internal/library/pool.go: what is asked of each title in the pool.
use mathlib.Core.List.{Memᴰ}
use mathlib.Core.List.Memᴰ.{head, tail}
use mathlib.Core.Option.{some_inj}
use polyseat.Prelude.{ℕ, ◌≡◌, ap, sym, subst, ◌∙◌, inl, inr, true, some, [], ◌∷◌, arith, Bool-cases}
use polyseat.Prelude.Text.{Text, text_eq, text_eq_iff, text_eq_refl}
use polyseat.Prelude.Table.{Table, find, is_some}
use polyseat.Library.Manifest.{App, is_installed}
use polyseat.Library.Pool.{Tree, Pool, Env, Done, mark, copy_of}
use polyseat.Library.Pool.Harvest.{Pass, harvest_app}
use polyseat.Library.Pool.Ahead.{
  IsWhole, with_tree, taken, is_some-put, is_some-put_same, harvest_app-cases, take_app-cases,
}
use polyseat.Library.Pool.Lacks.{put-mem}
use polyseat.Library.Pool.Sync.Kept.{Keeps}

-- The app is installed, stands under its own id, and has its tree.
abbrev pub IsHeld : Pool → Text → App → Type 0
IsHeld p id a =
    (text_eq a.fields.app_id id ≡ true)
    × (is_installed a.fields ≡ true)
    × (is_some (find a.fields.install_dir p.common) ≡ true)

abbrev pub IsSound : Pool → Type 0
IsSound p = (x : Text × App) → Memᴰ x p.apps → IsHeld p x.0 x.1

with_tree-IsSound : (name : Text) (t : Tree) (p : Pool) → IsSound p → IsSound (with_tree name t p)
with_tree-IsSound name t p sound x h =
    let (own, whole, tree) = sound x h in
    (own, whole, is_some-put name x.1.fields.install_dir t p.common tree)

module _ (app : App) (now : ℕ) (t : Tree) (p : Pool) (whole : is_installed app.fields ≡ true) where
  taken-IsSound : IsSound p → IsSound (taken app now t p)
  unfolding copy_of
  taken-IsSound sound x h = elim (put-mem app.fields.app_id (copy_of now app) p.apps x h) [
    | inl k ↦
        subst (λ (y : Text × App). IsHeld (taken app now t p) y.0 y.1) (sym k)
          (
            text_eq_refl app.fields.app_id,
            whole,
            is_some-put_same app.fields.install_dir t p.common,
          )
    | inr r ↦ with_tree-IsSound app.fields.install_dir t p sound x r
  ]

harvest_app-IsSound :
    (e : Env) (from : Text) (common : Table Tree) (app : App) (s : Pass)
    → IsSound s.pool
    → IsSound (harvest_app e from common app s).0.pool
harvest_app-IsSound e from common app s sound = elim (harvest_app-cases e from common app s) [
  | inl h ↦ subst (λ (t : Pass). IsSound t.pool) (sym h) sound
  | inr (free, old, whole, (tree, h)) ↦
      subst (λ (r : Done Pass). IsSound r.0.pool) (sym h)
        (elim (take_app-cases e from app tree s) [
          | inl k ↦ subst IsSound (sym k) sound
          | inr (inl k) ↦
              subst IsSound (sym k) (with_tree-IsSound app.fields.install_dir tree s.pool sound)
          | inr (inr k) ↦ subst IsSound (sym k) (taken-IsSound app e.now tree s.pool whole sound)
        ])
]

pub IsSound-Keeps : Keeps IsSound
unfolding mark
IsSound-Keeps = record {
  stays = record {
    marks = λ seat key m q sound x h. sound x h;
    shares = λ name t q sound x h. sound x h;
    records = λ name f q sound x h. sound x h;
  };
  takes = harvest_app-IsSound;
}

pub mem-find {ℓ} : {V : Type ℓ} (k : Text) (m : Table V) (v : V) → find k m ≡ some v → Memᴰ (k, v) m
unfolding find
mem-find k [] v h = ground arith
mem-find k ((j, w) ∷ m) v h = elim (Bool-cases (text_eq j k)) [
  | inl e ↦ head (
      ap (λ i. (i, v)) (sym ((text_eq_iff j k).0 e))
      ∙ ap (λ u. (j, u)) {x = v} {y = w} (some_inj.0 (ground arith)))
  | inr e ↦ tail (mem-find k m v (ground arith))
]

pub IsSound-IsWhole : (p : Pool) → IsSound p → IsWhole p
IsSound-IsWhole p sound id a e = (sound (id, a) (mem-find id p.apps a e)).2
