-- ===== src/Library/Pool/Sync/Whole.antt =====
-- internal/library/pool.go: predicates of the pool, through `Sync`.
use polyseat.Prelude.{sym, subst, inl, inr, true, false, List, [], arith, Bool-cases, Option-cases}
use polyseat.Prelude.Text.{Text, codes}
use polyseat.Prelude.Table.{Table, find}
use polyseat.Library.Folder.{Folder}
use polyseat.Library.Manifest.{App}
use polyseat.Library.Pool.{
  Steam, Pool, Shared, absent, broken, holds, Home, Member, Env, read_apps, Done, sweep,
}
use polyseat.Library.Pool.Loops.{sweep-keeps}
use polyseat.Library.Pool.Harvest.{Pass, harvest_from}
use polyseat.Library.Pool.Distribute.{distribute, distribute_folders}
use polyseat.Library.Pool.Sync.{
  World, Round, blank, noting, is_joined, harvest_source, ensure_member, harvest_member,
  harvest_member_folders, distribute_member, distribute_shared, distribute_member_folders,
  distribute_both, collect, hand_out, sync, ready, home_of,
}
use polyseat.Library.Pool.Sync.Kept.{
  Stays, Keeps, harvest_from-keeps, harvest-keeps, harvest_folders-keeps,
}
use polyseat.Library.Pool.Sync.Offered.{distribute-keeps, distribute_folders-keeps}

module _ {μ} (Q : Pool → Type μ) where
  noting-keeps : (who : Text) (d : Done Pass) → Q d.0.pool → Q (noting who d).pool
  noting-keeps who (s, false) q = q
  noting-keeps who (s, true) q = q

  pub ensure_member-keeps :
      (e : Env) (m : Member) (r : Round) → Q r.pass.pool → Q (ensure_member e m r).pass.pool
  unfolding ensure_member
  ensure_member-keeps e m r q = elim (Bool-cases (e.ensure_fails m.name)) [
    | inl h ↦ subst Q (sym (ground arith)) q
    | inr h ↦ subst Q (sym (ground arith)) q
  ]

module _ {μ} (Q : Pool → Type μ) (stays : Stays Q) where
  pub harvest_member_folders-keeps :
      (e : Env) (m : Member) (r : Round)
      → Q r.pass.pool
      → Q (harvest_member_folders e m r).pass.pool
  unfolding harvest_member_folders
  harvest_member_folders-keeps e m r q =
      noting-keeps Q m.name _
        (harvest_folders-keeps Q stays e m (home_of m.name r.homes).shared r.pass q)

  pub distribute_member-keeps :
      (e : Env) (pool : List App) (m : Member) (r : Round)
      → Q r.pass.pool
      → Q (distribute_member e pool m r).pass.pool
  unfolding distribute_member
  distribute_member-keeps e pool m r q = elim (Option-cases (home_of m.name r.homes).steam) [
    | inl h ↦ subst Q (sym (ground arith)) q
    | inr (lib, h) ↦ subst Q (sym (ground arith)) (
        noting-keeps Q m.name
          ((distribute e m pool lib r.pass).0.pass, (distribute e m pool lib r.pass).1)
          (distribute-keeps Q stays.marks e m pool lib r.pass q))
  ]

  distribute_shared-keeps :
      (e : Env) (before : List Folder) (m : Member) (h : Home) (s : Shared) (r : Round)
      → Q r.pass.pool
      → Q (distribute_shared e before m h s r).pass.pool
  unfolding distribute_shared
  distribute_shared-keeps e before m h absent r q = q
  distribute_shared-keeps e before m h broken r q = q
  distribute_shared-keeps e before m h (holds trees) r q =
      noting-keeps Q m.name
        (
          (distribute_folders e m before trees r.pass).0.pass,
          (distribute_folders e m before trees r.pass).1,
        )
        (distribute_folders-keeps Q stays.marks e m before trees r.pass q)

  pub distribute_member_folders-keeps :
      (e : Env) (m : Member) (r : Round)
      → Q r.pass.pool
      → Q (distribute_member_folders e m r).pass.pool
  unfolding distribute_member_folders
  distribute_member_folders-keeps e m r q = elim (Option-cases (find m.name r.scans)) [
    | inl h ↦ subst Q (sym (ground arith)) q
    | inr (before, h) ↦ subst Q (sym (ground arith)) (
        distribute_shared-keeps e before m (home_of m.name r.homes) (home_of m.name r.homes).shared
          r q)
  ]

  pub distribute_both-keeps :
      (e : Env) (pool : List App) (m : Member) (r : Round)
      → Q r.pass.pool
      → Q (distribute_both e pool m r).pass.pool
  unfolding distribute_both
  distribute_both-keeps e pool m r q =
      distribute_member_folders-keeps e m (distribute_member e pool m r)
        (distribute_member-keeps e pool m r q)

  pub hand_out-keeps :
      (e : Env) (members : List Member) (pool : List App) (r : Round)
      → Q r.pass.pool
      → Q (hand_out e members pool r).pass.pool
  unfolding hand_out
  hand_out-keeps e members pool r q =
      sweep-keeps (λ (t : Round). Q t.pass.pool) (distribute_both e pool)
        (distribute_both-keeps e pool) members _
        (sweep-keeps (λ (t : Round). Q t.pass.pool) (harvest_member_folders e)
          (harvest_member_folders-keeps e) members r q)

module _ {μ} (Q : Pool → Type μ) (keeps : Keeps Q) where
  pub harvest_source-keeps :
      (e : Env) (members : List Member) (libraries : Table Steam) (source : Text) (s : Pass)
      → Q s.pool
      → Q (harvest_source e members libraries source s).pool
  unfolding harvest_source
  harvest_source-keeps e members libraries source s q =
      elim (Bool-cases (is_joined source members)) [
        | inl h ↦ subst Q (sym (ground arith)) q
        | inr h ↦ elim (Option-cases (find source libraries)) [
          | inl k ↦ subst Q (sym (ground arith)) q
          | inr (lib, k) ↦ subst Q (sym (ground arith)) (
              noting-keeps Q source (harvest_from e (codes "host") lib s)
                (harvest_from-keeps Q keeps e (codes "host") lib s q))
        ]
      ]

  pub harvest_member-keeps :
      (e : Env) (m : Member) (r : Round) → Q r.pass.pool → Q (harvest_member e m r).pass.pool
  unfolding harvest_member
  harvest_member-keeps e m r q =
      noting-keeps Q m.name _ (harvest-keeps Q keeps e m (home_of m.name r.homes).steam r.pass q)

  pub collect-keeps :
      (e : Env) (members : List Member) (w : World) → Q w.pool → Q (collect e members w).pass.pool
  unfolding collect
  collect-keeps e members w q =
      sweep-keeps P (harvest_member e) (harvest_member-keeps e) (ready e members) _ (
        sweep-keeps P (ensure_member e) (ensure_member-keeps Q e) members
          (record { pass = sourced; homes = w.homes; scans = [] })
          (sweep-keeps (λ (s : Pass). Q s.pool) (harvest_source e members w.libraries)
            (harvest_source-keeps e members w.libraries) w.pool.state.sources
            (record { pool = w.pool; report = blank }) q))
    where
      P : Round → Type μ
      P r = Q r.pass.pool

      sourced : Pass
      sourced =
          sweep (harvest_source e members w.libraries) w.pool.state.sources
            (record { pool = w.pool; report = blank })

  pub sync-keeps :
      (e : Env) (members : List Member) (w : World) → Q w.pool → Q (sync e members w).0.pool
  unfolding sync
  sync-keeps e members w q = elim (Bool-cases e.pool_fails) [
    | inl h ↦ subst Q (sym (ground arith)) (collect-keeps e members w q)
    | inr h ↦ subst Q (sym (ground arith)) (
        hand_out-keeps Q keeps.stays e (ready e members)
          (read_apps (collect e members w).pass.pool.apps) (collect e members w)
          (collect-keeps e members w q))
  ]
