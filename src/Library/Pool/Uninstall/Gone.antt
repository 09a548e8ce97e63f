-- ===== src/Library/Pool/Uninstall/Gone.antt =====
-- internal/library/pool.go: a title that `Uninstall` removed, in later passes.
use mathlib.Core.Bool.{false≢true}
use polyseat.Prelude.{
  ◌≡◌, refl, ap, sym, subst, ◌∙◌, ◌⊎◌, inl, inr, true, false, ◌||◌, not, Option, none, some, List,
  [], ◌∷◌, arith, Bool-cases, Option-cases,
}
use polyseat.Prelude.Text.{Text, text_eq, text_eq_iff, text_eq_refl}
use polyseat.Prelude.Table.{Table, find, erase, find-put, find-erase, is_some}
use polyseat.Library.Manifest.{App, is_safe_name}
use polyseat.Library.Pool.{Tree, State, Pool, Member, Move, Env, Done, mark}
use polyseat.Library.Pool.Harvest.{Pass, harvest_app}
use polyseat.Library.Pool.Ahead.{taken-app, harvest_app-cases, take_app-cases}
use polyseat.Library.Pool.Sync.{World, sync}
use polyseat.Library.Pool.Sync.Kept.{Keeps}
use polyseat.Library.Pool.Sync.Whole.{sync-keeps}
use polyseat.Library.Pool.Uninstall.{
  Faults, Refusal, Search, Dropped, source_with, search, pool_title, drop_all, remove_app, withhold,
  after_drop, after_search, uninstall, manifest_name, start,
}
use polyseat.Library.Pool.Uninstall.Refused.{has_any, busy-cases, Result-cases}

-- The title is not in the pool, and is withheld.
abbrev pub IsGone : Text → Pool → Type 0
IsGone id p = (find id p.apps ≡ none) × (is_some (find id p.state.withheld) ≡ true)

harvest_app-IsGone :
    (id : Text) (e : Env) (from : Text) (common : Table Tree) (app : App) (s : Pass)
    → IsGone id s.pool
    → IsGone id (harvest_app e from common app s).0.pool
harvest_app-IsGone id e from common app s (gone, held) =
    elim (harvest_app-cases e from common app s) [
      | inl h ↦ subst (λ (t : Pass). IsGone id t.pool) (sym h) (gone, held)
      | inr (free, old, whole, (tree, h)) ↦
          subst (λ (r : Done Pass). IsGone id r.0.pool) (sym h)
            (elim (take_app-cases e from app tree s) [
              | inl k ↦ subst (IsGone id) (sym k) (gone, held)
              | inr (inl k) ↦ subst (IsGone id) (sym k) (gone, held)
              | inr (inr k) ↦ subst (IsGone id) (sym k) (
                taken-app app e.now tree s.pool id
                    ∙ ground (arith, gone, other (Bool-cases (text_eq app.fields.app_id id)) free),
                held,
              )
            ])
    ]
  where
    other :
        (text_eq app.fields.app_id id ≡ true) ⊎ (text_eq app.fields.app_id id ≡ false)
        → is_some (find app.fields.app_id s.pool.state.withheld) ≡ false
        → text_eq app.fields.app_id id ≡ false
    other (inr n) free = n
    other (inl k) free = absurd (
        false≢true (
          sym free
          ∙ ap (λ i. is_some (find i s.pool.state.withheld))
              ((text_eq_iff app.fields.app_id id).0 k)
          ∙ held))

IsGone-Keeps : (id : Text) → Keeps (IsGone id)
unfolding mark
IsGone-Keeps id = record {
  stays = record {
    marks = λ seat key m q h. h;
    shares = λ name t q h. h;
    records = λ name f q h. h;
  };
  takes = harvest_app-IsGone id;
}

remove_app-gone :
    (f : Faults) (id : Text) (p : Pool)
    → (remove_app f id p).1 ≡ false
    → find id (remove_app f id p).0.apps ≡ none
unfolding remove_app
remove_app-gone f id p h = elim (Option-cases (find id p.apps)) [
  | inl k ↦ ground arith
  | inr (app, k) ↦
      elim (Bool-cases (not (is_safe_name app.fields.install_dir) || f.pool_files_stay)) [
        | inl i ↦ ground arith
        | inr i ↦ elim (Bool-cases f.pool_manifest_stays) [
          | inl j ↦ ground arith
          | inr j ↦
              ap (λ (q : Pool). find id q.apps) {x = (remove_app f id p).0}
                {y = record p {
                  common = erase app.fields.install_dir p.common;
                  apps = erase id p.apps;
                }}
                (ground arith)
              ∙ ground (arith, find-erase id id p.apps, text_eq_refl id)
        ]
      ]
]

withhold-held :
    (id title : Text) (s : State)
    → text_eq title id ≡ false
    → is_some (find id (withhold id title s).withheld) ≡ true
unfolding withhold is_some
withhold-held id title s h = elim (Option-cases (find id s.withheld)) [
  | inl k ↦ ground (arith, find-put id id title s.withheld, text_eq_refl id)
  | inr (t, k) ↦ ground arith
]

after_drop-IsGone :
    (f : Faults) (id title : Text) (w : World) (d : Dropped)
    → text_eq title id ≡ false
    → (after_drop f id title w d).2 ≡ none
    → IsGone id (after_drop f id title w d).0.pool
unfolding after_drop
after_drop-IsGone f id title w d other h = elim (Option-cases d.failure) [
  | inr (who, k) ↦ elim (Bool-cases f.save_fails) [ inl j ↦ ground arith | inr j ↦ ground arith ]
  | inl k ↦ elim (Bool-cases (remove_app f id w.pool).1) [
    | inl j ↦ ground arith
    | inr j ↦ elim (Bool-cases f.save_fails) [
      | inl i ↦ ground arith
      | inr i ↦
          subst (IsGone id)
            {x = record (remove_app f id w.pool).0 {
              state = withhold id title (remove_app f id w.pool).0.state;
            }}
            {y = (after_drop f id title w d).0.pool} (sym (ground arith))
            (
              remove_app-gone f id w.pool j,
              withhold-held id title (remove_app f id w.pool).0.state other,
            )
    ]
  ]
]

after_search-IsGone :
    (f : Faults) (id : Text) (w : World) (s : Search)
    → text_eq (pool_title (find id w.pool.apps) s.title) id ≡ false
    → (after_search f id w s).2 ≡ none
    → IsGone id (after_search f id w s).0.pool
unfolding after_search
after_search-IsGone f id w s other h = elim (Bool-cases (has_any s.busy)) [
  | inl k ↦ let (b, (bs, e)) = busy-cases s.busy k in ground arith
  | inr k ↦
      let same = unused s (no_busy s.busy k) in
      subst (λ (r : World × List Move × Option Refusal). IsGone id r.0.pool) (sym same)
        (after_drop-IsGone f id (pool_title (find id w.pool.apps) s.title) w (dropped s) other
          (ap (λ (r : World × List Move × Option Refusal). r.2) (sym same) ∙ h))
]
  where
    dropped : Search → Dropped
    dropped s =
        drop_all f id (pool_title (find id w.pool.apps) s.title) s.holdings
          (record { homes = w.homes; gone = []; failure = none })

    unused :
        (s : Search)
        → s.busy ≡ []
        → after_search f id w s
          ≡ after_drop f id (pool_title (find id w.pool.apps) s.title) w (dropped s)
    unused s e = ground arith

    no_busy : (ts : List Text) → has_any ts ≡ false → ts ≡ []
    no_busy [] h = refl
    no_busy (t ∷ ts) h = ground arith

uninstall-IsGone :
    (f : Faults) (id : Text) (members : List Member) (w : World) (app : App)
    → find id w.pool.apps ≡ some app
    → text_eq app.fields.name [] ≡ false
    → text_eq app.fields.name id ≡ false
    → (uninstall f id members w).2 ≡ none
    → IsGone id (uninstall f id members w).0.pool
unfolding uninstall
uninstall-IsGone f id members w app a named other h =
    elim (Bool-cases (is_safe_name (manifest_name id))) [
      | inr n ↦ ground arith
      | inl n ↦ elim (Option-cases (source_with id members w.libraries w.pool.state.sources)) [
        | inr (source, k) ↦ ground arith
        | inl k ↦ elim (Result-cases (search id w.homes members (start id))) [
          | inr (r, j) ↦ ground arith
          | inl (s, j) ↦
              subst (λ (r : World × List Move × Option Refusal). IsGone id r.0.pool)
                {x = after_search f id w s} {y = uninstall f id members w} (sym (ground arith))
                (after_search-IsGone f id w s (ground arith) (ground arith))
        ]
      ]
    ]

-- The passes over the libraries that follow.
unfoldable pub passes : List (Env × List Member) → World → World
unfolding sync
passes [] w = w
passes ((e, members) ∷ es) w = passes es (sync e members w).0

passes-IsGone :
    (id : Text) (es : List (Env × List Member)) (w : World)
    → IsGone id w.pool
    → IsGone id (passes es w).pool
unfolding passes
passes-IsGone id [] w h = h
passes-IsGone id ((e, members) ∷ es) w h =
    passes-IsGone id es (sync e members w).0
      (sync-keeps (IsGone id) (IsGone-Keeps id) e members w h)

-- After an uninstall that reports no error, of a title that the pool had under a name other than its
-- id, no pass over the libraries takes it into the pool again, however many there are, whichever
-- members take part and whatever fails.
pub uninstall-passes :
    (f : Faults) (id : Text) (members : List Member) (w : World) (app : App)
    (es : List (Env × List Member))
    → find id w.pool.apps ≡ some app
    → text_eq app.fields.name [] ≡ false
    → text_eq app.fields.name id ≡ false
    → (uninstall f id members w).2 ≡ none
    → find id (passes es (uninstall f id members w).0).pool.apps ≡ none
uninstall-passes f id members w app es a named other h =
    (passes-IsGone id es (uninstall f id members w).0
      (uninstall-IsGone f id members w app a named other h)).0
