-- ===== src/Library/Pool/Sync/Served.antt =====
-- internal/library/pool.go: the members' libraries after a pass.
use mathlib.Core.List.{Memᴰ}
use mathlib.Core.List.Memᴰ.{head, tail}
use polyseat.Prelude.{
  ◌≡◌, refl, ap, sym, subst, ◌∙◌, inl, inr, false, some, List, [], ◌∷◌, arith, map, Bool-cases,
}
use polyseat.Prelude.Text.{Text, text_eq_iff}
use polyseat.Prelude.Sort.{sort_by-mem}
use polyseat.Prelude.Table.{Table, find}
use polyseat.Library.Manifest.{App}
use polyseat.Library.Pool.{Pool, Member, Env, read_apps}
use polyseat.Library.Pool.Lacks.{map-mem}
use polyseat.Library.Pool.Sound.{IsSound, IsSound-Keeps, mem-find}
use polyseat.Library.Pool.Keyed.{IsKeyed}
use polyseat.Library.Pool.Offers.{IsCalm, CanGive}
use polyseat.Library.Pool.Sync.{World, Round, home_of, ready, collect, hand_out, sync}
use polyseat.Library.Pool.Sync.Shelves.{Shelf, collect-HasShelf}
use polyseat.Library.Pool.Sync.Whole.{sync-keeps, collect-keeps, hand_out-keeps}
use polyseat.Library.Pool.Sync.Serving.{IsStock, IsStock-Stays, Served, hand_out-serves}

ready-mem :
    (e : Env) (m : Member) (members : List Member)
    → Memᴰ m members
    → e.ensure_fails m.name ≡ false
    → Memᴰ m (ready e members)
unfolding ready
ready-mem e m [] h f = elim h [ ]
ready-mem e m (x ∷ ms) (head k) f =
    subst (Memᴰ m) {x = x ∷ ready e ms}
      (sym (ground (arith, ap (λ (y : Member). e.ensure_fails y.name) k))) (head k)
ready-mem e m (x ∷ ms) (tail r) f = elim (Bool-cases (e.ensure_fails x.name)) [
  | inl k ↦ subst (Memᴰ m) {x = ready e ms} (sym (ground arith)) (ready-mem e m ms r f)
  | inr k ↦ subst (Memᴰ m) {x = x ∷ ready e ms} (sym (ground arith)) (tail (ready-mem e m ms r f))
]

read_apps-mem :
    (id : Text) (a : App) (apps : Table App) → Memᴰ (id, a) apps → Memᴰ a (read_apps apps)
unfolding read_apps
read_apps-mem id a apps h = (sort_by-mem _ _).1 (mem-map apps h)
  where
    mem-map : (ms : Table App) → Memᴰ (id, a) ms → Memᴰ a (map (λ (x : Text × App). x.1) ms)
    mem-map [] m = elim m [ ]
    mem-map (x ∷ ms) (head k) = head (ap (λ (y : Text × App). y.1) k)
    mem-map (x ∷ ms) (tail r) = tail (mem-map ms r)

IsSound-CanGive :
    (p : Pool) → IsSound p → (app : App) → Memᴰ app (read_apps p.apps) → CanGive p.common app
unfolding read_apps
IsSound-CanGive p sound app h =
    let (x, m, same) = map-mem p.apps app ((sort_by-mem _ _).0 h) in
    let (own, whole, tree) = sound x m in subst (CanGive p.common) (sym same) (whole, tree)

module _ (e : Env) (members : List Member) (w : World) (reads : e.pool_fails ≡ false) where
  abbrev last_round : Round
  last_round =
      hand_out e (ready e members) (read_apps (collect e members w).pass.pool.apps)
        (collect e members w)

  sync-pool : (sync e members w).0.pool ≡ last_round.pass.pool
  unfolding sync
  sync-pool = ground arith

  sync-homes : (sync e members w).0.homes ≡ last_round.homes
  unfolding sync
  sync-homes = ground arith

-- After a pass in which no copy, no directory and not the reading of the pool fails, each title of the
-- pool is in the library of each member that has one and could be prepared, unless the member declined
-- the title. The pool starts with titles that are installed, stand under their own ids and have their
-- trees, and the manifests of the member's library stand under their own ids.
pub sync-serves :
    (e : Env) (members : List Member) (w : World) (m : Member) (id : Text) (a : App)
    → IsCalm e
    → e.pool_fails ≡ false
    → e.ensure_fails m.name ≡ false
    → IsSound w.pool
    → Memᴰ m members
    → Shelf IsKeyed (home_of m.name w.homes).steam
    → find id (sync e members w).0.pool.apps ≡ some a
    → Served m.name id (home_of m.name (sync e members w).0.homes) (sync e members w).0.pool
sync-serves e members w m id a calm reads prepared sound joined shelf h =
    let at_hand : Memᴰ (id, a) c.pass.pool.apps =
      subst (λ t. Memᴰ (id, a) t) stocked.0
        (mem-find id last.pass.pool.apps a
          (ap (λ (p : Pool). find id p.apps) (sym (sync-pool e members w reads)) ∙ h)) in
    subst (λ p. Served m.name id (home_of m.name (sync e members w).0.homes) p)
      (sym (sync-pool e members w reads))
      (subst (λ t. Served m.name id (home_of m.name t) last.pass.pool)
        (sym (sync-homes e members w reads))
        (subst (λ i. Served m.name i (home_of m.name last.homes) last.pass.pool)
          ((text_eq_iff a.fields.app_id id).0 (whole (id, a) at_hand).0)
          (hand_out-serves e c.pass.pool.apps c.pass.pool.common (IsSound-CanGive c.pass.pool whole)
            calm (ready e members) m a c (ready-mem e m members joined prepared)
            (read_apps-mem id a c.pass.pool.apps at_hand)
            (collect-HasShelf IsKeyed m.name e members w shelf, (refl, refl)))))
  where
    c : Round
    c = collect e members w

    last : Round
    last = hand_out e (ready e members) (read_apps c.pass.pool.apps) c

    whole : IsSound c.pass.pool
    whole = collect-keeps IsSound IsSound-Keeps e members w sound

    stocked : IsStock c.pass.pool.apps c.pass.pool.common last.pass.pool
    stocked =
        hand_out-keeps (IsStock c.pass.pool.apps c.pass.pool.common)
          (IsStock-Stays c.pass.pool.apps c.pass.pool.common) e (ready e members)
          (read_apps c.pass.pool.apps) c (refl, refl)

-- A pass, whatever fails in it, leaves a pool in which each title is installed, stands under its own id
-- and has its tree, where it found such a pool.
pub sync-IsSound :
    (e : Env) (members : List Member) (w : World)
    → IsSound w.pool
    → IsSound (sync e members w).0.pool
sync-IsSound e members w sound = sync-keeps IsSound IsSound-Keeps e members w sound
