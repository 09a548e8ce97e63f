-- ===== src/Library/Pool/Sync/Declined.antt =====
-- internal/library/pool.go: a title that a member declined.
use polyseat.Prelude.{
  ◌≡◌, refl, ap, sym, subst, ◌∙◌, inl, inr, true, false, none, some, List, [], arith, Bool-cases,
  Option-cases,
}
use polyseat.Prelude.Text.{Text, text_eq, text_eq_iff}
use polyseat.Prelude.Table.{find}
use polyseat.Library.Folder.{Folder}
use polyseat.Library.Manifest.{App}
use polyseat.Library.Pool.{
  declined, Steam, Pool, Shared, absent, broken, holds, Member, Env, status, mark, read_apps,
  copy_of, sweep,
}
use polyseat.Library.Pool.Loops.{each-keeps, sweep-keeps}
use polyseat.Library.Pool.Ahead.{harvest_app-state}
use polyseat.Library.Pool.Lacks.{
  Lacks, Lacks-put, Lacks-present, declined-mark, declined-verdict, distribute_app-manifests,
}
use polyseat.Library.Pool.Harvest.{Pass}
use polyseat.Library.Pool.Distribute.{
  Giving, give, app_verdict, present, distribute_app, distribute,
}
use polyseat.Library.Pool.Sync.{
  World, Round, ensured, ensure_member, harvest_member, harvest_member_folders, distribute_member,
  distribute_shared, distribute_member_folders, distribute_both, collect, hand_out, sync, ready,
  home_of, harvest_source, blank,
}
use polyseat.Library.Pool.Sync.Homes.{
  manifests_of, HomeLacks, ensured-manifests, put_home, same_home,
}
use polyseat.Library.Pool.Sync.Kept.{Keeps}
use polyseat.Library.Pool.Sync.Offered.{distribute_app-keeps}
use polyseat.Library.Pool.Sync.Whole.{
  harvest_member-keeps, harvest_source-keeps, harvest_member_folders-keeps, distribute_member-keeps,
  distribute_member_folders-keeps, ensure_member-keeps, sync-keeps,
}

module _ (n id : Text) where
  abbrev Says : Pool → Type 0
  Says p = status n id p.state ≡ some declined

  Says-Keeps : Keeps Says
  unfolding mark status
  Says-Keeps = record {
    stays = record {
      marks = λ seat key m q h. declined-mark n id seat key m q.state h;
      shares = λ name t q h. h;
      records = λ name f q h. h;
    };
    takes = λ e from common app s h. ap (status n id) (harvest_app-state e from common app s) ∙ h;
  }

  abbrev Held : Round → Type 0
  Held r = Says r.pass.pool × HomeLacks id (home_of n r.homes)

  ensure_member-Held : (e : Env) (m : Member) (r : Round) → Held r → Held (ensure_member e m r)
  unfolding ensure_member
  ensure_member-Held e m r (q, lacks) = elim (Bool-cases (e.ensure_fails m.name)) [
    | inl h ↦ (
      ensure_member-keeps Says e m r q,
      subst (λ t. HomeLacks id (home_of n t)) (sym (ground arith)) lacks,
    )
    | inr h ↦ (
      ensure_member-keeps Says e m r q,
      subst (λ t. HomeLacks id (home_of n t)) (sym (ground arith))
          (same_home n id m.name (ensured m (home_of m.name r.homes)) r.homes
            (ensured-manifests m (home_of m.name r.homes)) lacks),
    )
  ]

  module _ (m : Member) (own : text_eq m.name n ≡ true) where
    abbrev Kept : Giving Steam → Type 0
    Kept g = Says g.pass.pool × Lacks id g.home.manifests

    -- A declined title is skipped, so what a round gives is another.
    given-other :
        (before : List App) (app : App) (s : Pass)
        → present id before ≡ none
        → Says s.pool
        → app_verdict m before app s ≡ give
        → text_eq app.fields.app_id id ≡ false
    given-other before app s gone q v = elim (Bool-cases (text_eq app.fields.app_id id)) [
      | inr k ↦ k
      | inl k ↦
          let i = (text_eq_iff app.fields.app_id id).0 k in
          let skipped =
            declined-verdict m before app s (subst (λ t. present t before ≡ none) (sym i) gone) (
              ap (λ t. status t app.fields.app_id s.pool.state) ((text_eq_iff m.name n).0 own)
              ∙ ap (λ t. status n t s.pool.state) i
              ∙ q) in
          ground arith
    ]

    distribute_app-Kept :
        (e : Env) (before : List App) (app : App) (g : Giving Steam)
        → present id before ≡ none
        → Kept g
        → Kept (distribute_app e m before app g).0
    unfolding copy_of
    distribute_app-Kept e before app g gone (q, lacks) = (
      distribute_app-keeps Says Says-Keeps.stays.marks e m before app g q,
      elim (distribute_app-manifests e m before app g) [
        | inl h ↦ subst (Lacks id) (sym h) lacks
        | inr (v, h) ↦ subst (Lacks id) (sym h) (
            Lacks-put id app.fields.app_id (copy_of e.now app) g.home.manifests
              (given-other before app g.pass gone q v) lacks)
      ],
    )

    distribute-Kept :
        (e : Env) (pool : List App) (lib : Steam) (s : Pass)
        → Says s.pool
        → Lacks id lib.manifests
        → Kept (distribute e m pool lib s).0
    unfolding distribute
    distribute-Kept e pool lib s q lacks =
        each-keeps Kept (distribute_app e m (read_apps lib.manifests))
          (λ app g k.
            distribute_app-Kept e (read_apps lib.manifests) app g
              (Lacks-present id lib.manifests lacks) k)
          pool (record { pass = s; home = lib }) (q, lacks)

  distribute_member-Held :
      (e : Env) (pool : List App) (m : Member) (r : Round)
      → Held r
      → Held (distribute_member e pool m r)
  unfolding distribute_member
  distribute_member-Held e pool m r (q, lacks) =
      elim (Option-cases (home_of m.name r.homes).steam) [
        | inl h ↦ (
          distribute_member-keeps Says Says-Keeps.stays e pool m r q,
          subst (λ t. HomeLacks id (home_of n t)) (sym (ground arith)) lacks,
        )
        | inr (lib, h) ↦ (
          distribute_member-keeps Says Says-Keeps.stays e pool m r q,
          subst (λ t. HomeLacks id (home_of n t)) (sym (ground arith))
              (put_home (HomeLacks id) n m.name
                (record (home_of m.name r.homes) {
                  steam = some (distribute e m pool lib r.pass).0.home;
                })
                r.homes
                (λ own.
                  (distribute-Kept m own e pool lib r.pass q (
                    subst (Lacks id)
                      (ap (λ k. manifests_of (home_of k r.homes).steam)
                          (sym ((text_eq_iff m.name n).0 own))
                        ∙ ap manifests_of h)
                      lacks)).1)
                lacks),
        )
      ]

  distribute_shared-homes :
      (e : Env) (before : List Folder) (m : Member) (s : Shared) (r : Round)
      → HomeLacks id (home_of n r.homes)
      → HomeLacks id (home_of n (distribute_shared e before m (home_of m.name r.homes) s r).homes)
  unfolding distribute_shared
  distribute_shared-homes e before m absent r lacks = lacks
  distribute_shared-homes e before m broken r lacks = lacks
  distribute_shared-homes e before m (holds trees) r lacks =
      same_home n id m.name _ r.homes refl lacks

  distribute_member_folders-Held :
      (e : Env) (m : Member) (r : Round) → Held r → Held (distribute_member_folders e m r)
  unfolding distribute_member_folders
  distribute_member_folders-Held e m r (q, lacks) = (
    distribute_member_folders-keeps Says Says-Keeps.stays e m r q,
    elim (Option-cases (find m.name r.scans)) [
      | inl h ↦ subst (λ t. HomeLacks id (home_of n t)) (sym (ground arith)) lacks
      | inr (before, h) ↦
          subst (λ t. HomeLacks id (home_of n t)) (sym (ground arith))
            (distribute_shared-homes e before m (home_of m.name r.homes).shared r lacks)
    ],
  )

  distribute_both-Held :
      (e : Env) (pool : List App) (m : Member) (r : Round)
      → Held r
      → Held (distribute_both e pool m r)
  unfolding distribute_both
  distribute_both-Held e pool m r h =
      distribute_member_folders-Held e m (distribute_member e pool m r)
        (distribute_member-Held e pool m r h)

  harvest_member-Held : (e : Env) (m : Member) (r : Round) → Held r → Held (harvest_member e m r)
  unfolding harvest_member
  harvest_member-Held e m r (q, lacks) = (harvest_member-keeps Says Says-Keeps e m r q, lacks)

  harvest_member_folders-Held :
      (e : Env) (m : Member) (r : Round) → Held r → Held (harvest_member_folders e m r)
  unfolding harvest_member_folders
  harvest_member_folders-Held e m r (q, lacks) =
      (harvest_member_folders-keeps Says Says-Keeps.stays e m r q, lacks)

  collect-Held :
      (e : Env) (members : List Member) (w : World)
      → Says w.pool
      → HomeLacks id (home_of n w.homes)
      → Held (collect e members w)
  unfolding collect
  collect-Held e members w q lacks =
      sweep-keeps Held (harvest_member e) (harvest_member-Held e) (ready e members) _ (
        sweep-keeps Held (ensure_member e) (ensure_member-Held e) members
          (record { pass = sourced; homes = w.homes; scans = [] })
          (
            sweep-keeps (λ (s : Pass). Says s.pool) (harvest_source e members w.libraries)
                (harvest_source-keeps Says Says-Keeps e members w.libraries) w.pool.state.sources
                (record { pool = w.pool; report = blank }) q,
            lacks,
          ))
    where
      sourced : Pass
      sourced =
          sweep (harvest_source e members w.libraries) w.pool.state.sources
            (record { pool = w.pool; report = blank })

  hand_out-Held :
      (e : Env) (members : List Member) (pool : List App) (r : Round)
      → Held r
      → Held (hand_out e members pool r)
  unfolding hand_out
  hand_out-Held e members pool r h =
      sweep-keeps Held (distribute_both e pool) (distribute_both-Held e pool) members _
        (sweep-keeps Held (harvest_member_folders e) (harvest_member_folders-Held e) members r h)

-- A title that a member declined, and that no manifest of its library is for, is neither given to it
-- again nor forgotten as declined by a pass over the libraries, whatever else the pass does and
-- whatever fails in it.
pub sync-declined :
    (e : Env) (members : List Member) (w : World) (n id : Text)
    → status n id w.pool.state ≡ some declined
    → HomeLacks id (home_of n w.homes)
    → (status n id (sync e members w).0.pool.state ≡ some declined)
      × HomeLacks id (home_of n (sync e members w).0.homes)
unfolding sync
sync-declined e members w n id q lacks =
    let c = collect-Held n id e members w q lacks in
    (
      sync-keeps (Says n id) (Says-Keeps n id) e members w q,
      elim (Bool-cases e.pool_fails) [
        | inl h ↦ subst (λ t. HomeLacks id (home_of n t)) (sym (ground arith)) c.1
        | inr h ↦
            subst (λ t. HomeLacks id (home_of n t)) (sym (ground arith))
              (hand_out-Held n id e (ready e members)
                (read_apps (collect e members w).pass.pool.apps) (collect e members w) c).1
      ],
    )
