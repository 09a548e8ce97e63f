-- ===== src/Library/Pool/Sync/Shelves.antt =====
-- internal/library/pool.go: what a member's library has, through a pass.
use polyseat.Prelude.{
  ℕ, ap, sym, subst, ◌∙◌, inl, inr, Option, none, some, List, [], arith, Bool-cases, Option-cases,
}
use polyseat.Prelude.Text.{Text, text_eq_iff}
use polyseat.Prelude.Table.{Table, find, put}
use polyseat.Library.Folder.{Folder}
use polyseat.Library.Manifest.{App}
use polyseat.Library.Pool.{Steam, Shared, absent, broken, holds, Home, Member, Env, copy_of, sweep}
use polyseat.Library.Pool.Loops.{sweep-keeps}
use polyseat.Library.Pool.Lacks.{distribute-manifests}
use polyseat.Library.Pool.Distribute.{distribute}
use polyseat.Library.Pool.Harvest.{Pass}
use polyseat.Library.Pool.Sync.{
  World, Round, blank, home_of, ensured, with_common, ready, ensure_member, harvest_member,
  distribute_member, distribute_shared, distribute_member_folders, distribute_both, harvest_source,
  collect,
}
use polyseat.Library.Pool.Sync.Homes.{put_home}

-- There is a library, with these manifests.
abbrev pub Shelf : (Table App → Type 0) → Option Steam → Type 0
Shelf M none = ⊥
Shelf M (some lib) = M lib.manifests

module _ (M : Table App → Type 0) (n : Text) where
  abbrev pub HasShelf : Round → Type 0
  HasShelf r = Shelf M (home_of n r.homes).steam

  with_common-Shelf : (o : Option Steam) → Shelf M o → Shelf M (with_common o)
  with_common-Shelf none had = elim had [ ]
  with_common-Shelf (some lib) had = had

  ensured-Shelf : (m : Member) (h : Home) → Shelf M h.steam → Shelf M (ensured m h).steam
  unfolding ensured
  ensured-Shelf m h had = elim (Option-cases m.external_apps) [
    | inr (apps, k) ↦ subst (Shelf M) (sym (ground arith)) had
    | inl k ↦ subst (Shelf M) (sym (ground arith)) (with_common-Shelf h.steam had)
  ]

  ensure_member-HasShelf :
      (e : Env) (m : Member) (r : Round) → HasShelf r → HasShelf (ensure_member e m r)
  unfolding ensure_member
  ensure_member-HasShelf e m r had = elim (Bool-cases (e.ensure_fails m.name)) [
    | inl h ↦ subst (λ t. Shelf M (home_of n t).steam) (sym (ground arith)) had
    | inr h ↦
        subst (λ t. Shelf M (home_of n t).steam) (sym (ground arith))
          (put_home (λ (h : Home). Shelf M h.steam) n m.name (ensured m (home_of m.name r.homes))
            r.homes
            (λ own. ensured-Shelf m (home_of m.name r.homes) (
              subst (λ k. Shelf M (home_of k r.homes).steam) (sym ((text_eq_iff m.name n).0 own))
                had))
            had)
  ]

  pub collect-HasShelf :
      (e : Env) (members : List Member) (w : World)
      → Shelf M (home_of n w.homes).steam
      → HasShelf (collect e members w)
  unfolding collect harvest_member
  collect-HasShelf e members w had =
      sweep-keeps HasShelf (harvest_member e) (λ m r h. h) (ready e members) _
        (sweep-keeps HasShelf (ensure_member e) (ensure_member-HasShelf e) members
          (record { pass = sourced; homes = w.homes; scans = [] }) had)
    where
      sourced : Pass
      sourced =
          sweep (harvest_source e members w.libraries) w.pool.state.sources
            (record { pool = w.pool; report = blank })

  distribute_shared-HasShelf :
      (e : Env) (before : List Folder) (m : Member) (s : Shared) (r : Round)
      → HasShelf r
      → HasShelf (distribute_shared e before m (home_of m.name r.homes) s r)
  unfolding distribute_shared
  distribute_shared-HasShelf e before m absent r had = had
  distribute_shared-HasShelf e before m broken r had = had
  distribute_shared-HasShelf e before m (holds trees) r had =
      put_home (λ (h : Home). Shelf M h.steam) n m.name _ r.homes
        (λ own.
          subst (λ k. Shelf M (home_of k r.homes).steam) (sym ((text_eq_iff m.name n).0 own)) had)
        had

  pub distribute_member_folders-HasShelf :
      (e : Env) (m : Member) (r : Round) → HasShelf r → HasShelf (distribute_member_folders e m r)
  unfolding distribute_member_folders
  distribute_member_folders-HasShelf e m r had = elim (Option-cases (find m.name r.scans)) [
    | inl h ↦ subst (λ t. Shelf M (home_of n t).steam) (sym (ground arith)) had
    | inr (before, h) ↦
        subst (λ t. Shelf M (home_of n t).steam) (sym (ground arith))
          (distribute_shared-HasShelf e before m (home_of m.name r.homes).shared r had)
  ]

  module _
      (puts : (now : ℕ) (app : App) (ms : Table App)
        → M ms
        → M (put app.fields.app_id (copy_of now app) ms)) where
    distribute_member-HasShelf :
        (e : Env) (pool : List App) (m : Member) (r : Round)
        → HasShelf r
        → HasShelf (distribute_member e pool m r)
    unfolding distribute_member
    distribute_member-HasShelf e pool m r had = elim (Option-cases (home_of m.name r.homes).steam) [
      | inl h ↦ subst (λ t. Shelf M (home_of n t).steam) (sym (ground arith)) had
      | inr (lib, h) ↦
          subst (λ t. Shelf M (home_of n t).steam) (sym (ground arith))
            (put_home (λ (k : Home). Shelf M k.steam) n m.name
              (record (home_of m.name r.homes) {
                steam = some (distribute e m pool lib r.pass).0.home;
              })
              r.homes
              (λ own. distribute-manifests M puts e m pool lib r.pass (
                subst (Shelf M)
                  (ap (λ k. (home_of k r.homes).steam) (sym ((text_eq_iff m.name n).0 own)) ∙ h)
                  had))
              had)
    ]

    pub distribute_both-HasShelf :
        (e : Env) (pool : List App) (m : Member) (r : Round)
        → HasShelf r
        → HasShelf (distribute_both e pool m r)
    unfolding distribute_both
    distribute_both-HasShelf e pool m r had =
        distribute_member_folders-HasShelf e m (distribute_member e pool m r)
          (distribute_member-HasShelf e pool m r had)
