-- ===== src/Library/Pool/Sync/Serving.antt =====
-- internal/library/pool.go: the rounds of a member in which nothing fails.
use mathlib.Core.List.{Memᴰ}
use polyseat.Prelude.{
  ℕ, ◌≡◌, sym, subst, ◌⊎◌, inl, inr, Bool, true, false, some, List, arith, Option-cases,
}
use polyseat.Prelude.Text.{Text, text_eq_refl}
use polyseat.Prelude.Table.{Table, find, put, is_some}
use polyseat.Library.Manifest.{App}
use polyseat.Library.Pool.{
  Tree, declined, Steam, Pool, Home, Member, Env, status, mark, read_apps, copy_of,
}
use polyseat.Library.Pool.Loops.{sweep-keeps, sweep-reaches}
use polyseat.Library.Pool.Ahead.{is_some-put}
use polyseat.Library.Pool.Lacks.{declined-mark}
use polyseat.Library.Pool.Keyed.{IsKeyed, IsKeyed-put}
use polyseat.Library.Pool.Offers.{IsCalm, CanGive, distribute-offers}
use polyseat.Library.Pool.Distribute.{Giving, distribute}
use polyseat.Library.Pool.Sync.{
  Round, home_of, noting, harvest_member_folders, distribute_member, distribute_member_folders,
  distribute_both, hand_out,
}
use polyseat.Library.Pool.Sync.Homes.{home_of-put}
use polyseat.Library.Pool.Sync.Kept.{Stays}
use polyseat.Library.Pool.Sync.Shelves.{
  Shelf, HasShelf, distribute_both-HasShelf, distribute_member_folders-HasShelf,
}
use polyseat.Library.Pool.Sync.Whole.{
  harvest_member_folders-keeps, distribute_member_folders-keeps, distribute_both-keeps,
}

-- A library has the title.
abbrev pub Owns : Text → Table App → Type 0
Owns id ms = is_some (find id ms) ≡ true

Owns-put :
    (id : Text) (now : ℕ) (app : App) (ms : Table App)
    → Owns id ms
    → Owns id (put app.fields.app_id (copy_of now app) ms)
Owns-put id now app ms h = is_some-put app.fields.app_id id (copy_of now app) ms h

abbrev Says : Text → Text → Pool → Type 0
Says n id p = status n id p.state ≡ some declined

Says-Stays : (n id : Text) → Stays (Says n id)
unfolding mark status
Says-Stays n id = record {
  marks = λ seat key m q h. declined-mark n id seat key m q.state h;
  shares = λ name t q h. h;
  records = λ name f q h. h;
}

-- The pool's titles and trees are these.
abbrev pub IsStock : Table App → Table Tree → Pool → Type 0
IsStock apps common p = (p.apps ≡ apps) × (p.common ≡ common)

pub IsStock-Stays : (apps : Table App) (common : Table Tree) → Stays (IsStock apps common)
unfolding mark
IsStock-Stays apps common = record {
  marks = λ seat key m q h. h;
  shares = λ name t q h. h;
  records = λ name f q h. h;
}

-- The member has the title in its library, or declined it.
abbrev pub Served : Text → Text → Home → Pool → Type 0
Served n id h p = Shelf (Owns id) h.steam ⊎ (status n id p.state ≡ some declined)

module _ (e : Env) (apps : Table App) (common : Table Tree)
    (sound : (app : App) → Memᴰ app (read_apps apps) → CanGive common app) where
  abbrev Open : Text → Round → Type 0
  Open n r = HasShelf IsKeyed n r × IsStock apps common r.pass.pool

  abbrev Fine : Text → Text → Round → Type 0
  Fine n id r = Served n id (home_of n r.homes) r.pass.pool

  distribute_both-Open :
      (n : Text) (m : Member) (r : Round)
      → Open n r
      → Open n (distribute_both e (read_apps apps) m r)
  distribute_both-Open n m r (had, stock) = (
    distribute_both-HasShelf IsKeyed n IsKeyed-put e (read_apps apps) m r had,
    distribute_both-keeps (IsStock apps common) (IsStock-Stays apps common) e (read_apps apps) m r
        stock,
  )

  distribute_both-Fine :
      (n id : Text) (m : Member) (r : Round)
      → Fine n id r
      → Fine n id (distribute_both e (read_apps apps) m r)
  distribute_both-Fine n id m r (inl h) =
      inl (distribute_both-HasShelf (Owns id) n (Owns-put id) e (read_apps apps) m r h)
  distribute_both-Fine n id m r (inr d) =
      inr (distribute_both-keeps (Says n id) (Says-Stays n id) e (read_apps apps) m r d)

  distribute_member_folders-Fine :
      (n id : Text) (m : Member) (r : Round)
      → Fine n id r
      → Fine n id (distribute_member_folders e m r)
  distribute_member_folders-Fine n id m r (inl h) =
      inl (distribute_member_folders-HasShelf (Owns id) n e m r h)
  distribute_member_folders-Fine n id m r (inr d) =
      inr (distribute_member_folders-keeps (Says n id) (Says-Stays n id) e m r d)

  noting-Says :
      (n id who : Text) (s : Giving Steam) (b : Bool)
      → Says n id s.pass.pool
      → Says n id (noting who (s.pass, b)).pool
  noting-Says n id who s false h = h
  noting-Says n id who s true h = h

  own_home :
      (n : Text) (h : Home) (homes : Table Home) (P : Home → Type 0)
      → P h
      → P (home_of n (put n h homes))
  own_home n h homes P p =
      subst P {x = h} {y = home_of n (put n h homes)}
        (sym (ground (arith, home_of-put n n h homes, text_eq_refl n))) p

  -- The member's own round offers it every title of the pool.
  distribute_member-Fine :
      (calm : IsCalm e) (m : Member) (app : App) (r : Round)
      → Memᴰ app (read_apps apps)
      → Open m.name r
      → Fine m.name app.fields.app_id (distribute_member e (read_apps apps) m r)
  unfolding distribute_member
  distribute_member-Fine calm m app r h (had, (stock, trees)) =
      elim (Option-cases (home_of m.name r.homes).steam) [
        | inl k ↦ elim (subst (Shelf IsKeyed) k had) [ ]
        | inr (lib, k) ↦
            elim (distribute-offers e m lib common calm (subst (Shelf IsKeyed) k had)
              (read_apps apps) r.pass sound trees app h) [
                | inl o ↦
                    let kept : Home = record (home_of m.name r.homes) {
                      steam = some (distribute e m (read_apps apps) lib r.pass).0.home;
                    } in
                    inl (
                      subst (λ t. Shelf (Owns app.fields.app_id) (home_of m.name t).steam)
                        {x = put m.name kept r.homes} (sym (ground arith))
                        (own_home m.name kept r.homes (λ t. Shelf (Owns app.fields.app_id) t.steam)
                          o))
                | inr d ↦ inr (
                    subst (Says m.name app.fields.app_id)
                      {x = (noting m.name (
                        (distribute e m (read_apps apps) lib r.pass).0.pass,
                        (distribute e m (read_apps apps) lib r.pass).1,
                      )).pool}
                      {y = (distribute_member e (read_apps apps) m r).pass.pool}
                      (sym (ground arith))
                      (noting-Says m.name app.fields.app_id m.name
                        (distribute e m (read_apps apps) lib r.pass).0
                        (distribute e m (read_apps apps) lib r.pass).1 d))
              ]
      ]

  distribute_both-serves :
      (calm : IsCalm e) (m : Member) (app : App) (r : Round)
      → Memᴰ app (read_apps apps)
      → Open m.name r
      → Fine m.name app.fields.app_id (distribute_both e (read_apps apps) m r)
  unfolding distribute_both
  distribute_both-serves calm m app r h going =
      distribute_member_folders-Fine m.name app.fields.app_id m
        (distribute_member e (read_apps apps) m r) (distribute_member-Fine calm m app r h going)

  harvest_member_folders-Open :
      (n : Text) (m : Member) (r : Round) → Open n r → Open n (harvest_member_folders e m r)
  unfolding harvest_member_folders
  harvest_member_folders-Open n m r (had, stock) = (
    had,
    harvest_member_folders-keeps (IsStock apps common) (IsStock-Stays apps common) e m r stock,
  )

  pub hand_out-serves :
      (calm : IsCalm e) (members : List Member) (m : Member) (app : App) (r : Round)
      → Memᴰ m members
      → Memᴰ app (read_apps apps)
      → Open m.name r
      → Fine m.name app.fields.app_id (hand_out e members (read_apps apps) r)
  unfolding hand_out
  hand_out-serves calm members m app r joined h going =
      sweep-reaches (Open m.name) (Fine m.name app.fields.app_id)
        (distribute_both e (read_apps apps)) (distribute_both-Open m.name)
        (distribute_both-Fine m.name app.fields.app_id) m
        (λ s i. distribute_both-serves calm m app s h i) members _ joined
        (sweep-keeps (Open m.name) (harvest_member_folders e) (harvest_member_folders-Open m.name)
          members r going)
