-- ===== src/Library/Pool/Sources/Apart.antt =====
-- internal/library/pool.go: the tracked libraries and those left alone.
use polyseat.Prelude.{
  ◌≡◌, refl, ap, sym, subst, inl, inr, true, false, ◌&&◌, ◌||◌, not, Option, none, some, List, [],
  ◌∷◌, ◌++◌, arith, Bool-cases, Option-cases,
}
use polyseat.Prelude.Text.{Text, codes, text_eq, text_eq_iff}
use polyseat.Prelude.Sort.{insert_by, sort_by, text_lt}
use polyseat.Prelude.Table.{find, erase, is_some}
use polyseat.Library.Pool.{State, Pool, Env, Done, mark}
use polyseat.Library.Pool.Harvest.{Pass, harvest_from}
use polyseat.Library.Pool.Ahead.{harvest_app-state}
use polyseat.Library.Pool.Sync.{World, blank}
use polyseat.Library.Pool.Sync.Kept.{Keeps, harvest_from-keeps}
use polyseat.Library.Pool.Sources.{
  has, drop_text, add_sorted, is_inside, with_state, saved, tracked, harvest_library, harvested,
  add_source, remove_source, readmit, offer, forget,
}

has-insert_by :
    (x y : Text) (ys : List Text) → has x (insert_by text_lt y ys) ≡ (text_eq y x || has x ys)
unfolding has insert_by
has-insert_by x y [] = refl
has-insert_by x y (z ∷ ys) = ground (arith, has-insert_by x y ys)

has-sort_by : (x : Text) (ys : List Text) → has x (sort_by text_lt ys) ≡ has x ys
unfolding has sort_by
has-sort_by x [] = refl
has-sort_by x (y ∷ ys) = ground (arith, has-insert_by x y (sort_by text_lt ys), has-sort_by x ys)

has-append :
    (x : Text) (ys : List Text) (y : Text) → has x (ys ++ y ∷ []) ≡ (has x ys || text_eq y x)
unfolding has
has-append x [] y = ground arith
has-append x (z ∷ ys) y = ground (arith, has-append x ys y)

has-drop_text :
    (x y : Text) (ys : List Text) → has x (drop_text y ys) ≡ (has x ys && not (text_eq y x))
unfolding has drop_text
has-drop_text x y [] = refl
has-drop_text x y (z ∷ ys) =
    ground (arith, has-drop_text x y ys, text_eq_iff z y, text_eq_iff y x, text_eq_iff z x)

has-add_sorted : (x y : Text) (ys : List Text) → has x (add_sorted y ys) ≡ (has x ys || text_eq y x)
unfolding add_sorted
has-add_sorted x y ys = elim (Bool-cases (has y ys)) [
  | inl h ↦ ground (arith, text_eq_iff y x, ap (λ t. has t ys) {x = y} {y = x})
  | inr h ↦ ground (arith, has-sort_by x (ys ++ y ∷ []), has-append x ys y)
]

-- No library is both tracked and left alone.
abbrev pub IsDisjoint : State → Type 0
IsDisjoint s = (x : Text) → (has x s.sources && has x s.unwatched) ≡ false

tracked-IsDisjoint : (path : Text) (s : State) → IsDisjoint s → IsDisjoint (tracked path s)
tracked-IsDisjoint path s d x =
    ground (arith, has-add_sorted x path s.sources, has-drop_text x path s.unwatched, d x)

IsDisjoint-Keeps : Keeps (λ (p : Pool). IsDisjoint p.state)
unfolding mark
IsDisjoint-Keeps = record {
  stays = record {
    marks = λ seat key m q d. d;
    shares = λ name t q d. d;
    records = λ name f q d. d;
  };
  takes = λ e from common app s d. subst IsDisjoint (sym (harvest_app-state e from common app s)) d;
}

harvest_library-IsDisjoint :
    (e : Env) (path : Text) (w : World)
    → IsDisjoint w.pool.state
    → IsDisjoint (harvest_library e path w).0.pool.state
unfolding harvest_library
harvest_library-IsDisjoint e path w d = elim (Option-cases (find path w.libraries)) [
  | inl h ↦
      subst IsDisjoint {x = w.pool.state} {y = (harvest_library e path w).0.pool.state}
        (sym (ground arith)) d
  | inr (lib, h) ↦
      subst (λ (p : Pool). IsDisjoint p.state)
        {x = (harvest_from e (codes "host") lib (record { pool = w.pool; report = blank })).0.pool}
        {y = (harvest_library e path w).0.pool} (sym (ground arith))
        (harvest_from-keeps (λ (p : Pool). IsDisjoint p.state) IsDisjoint-Keeps e (codes "host") lib
          (record { pool = w.pool; report = blank }) d)
]

saved-IsDisjoint :
    (e : Env) (w : World) → IsDisjoint w.pool.state → IsDisjoint (saved e w).0.pool.state
saved-IsDisjoint e w d = elim (Bool-cases e.save_fails) [
  | inl h ↦
      subst IsDisjoint {x = w.pool.state} {y = (saved e w).0.pool.state} (sym (ground arith)) d
  | inr h ↦
      subst IsDisjoint {x = w.pool.state} {y = (saved e w).0.pool.state} (sym (ground arith)) d
]

harvested-IsDisjoint :
    (e : Env) (w : World) (r : Done Pass)
    → IsDisjoint r.0.pool.state
    → IsDisjoint (harvested e w r).0.pool.state
harvested-IsDisjoint e w (s, true) d = d
harvested-IsDisjoint e w (s, false) d = saved-IsDisjoint e (record w { pool = s.pool }) d

add_source-IsDisjoint :
    (e : Env) (root : Text) (path : Option Text) (w : World)
    → IsDisjoint w.pool.state
    → IsDisjoint (add_source e root path w).0.pool.state
unfolding add_source
add_source-IsDisjoint e root none w d = d
add_source-IsDisjoint e root (some path) w d = elim (Bool-cases (is_inside root path)) [
  | inl h ↦
      subst IsDisjoint {x = w.pool.state} {y = (add_source e root (some path) w).0.pool.state}
        (sym (ground arith)) d
  | inr h ↦
      subst IsDisjoint {x = (harvested e t (harvest_library e path t)).0.pool.state}
        {y = (add_source e root (some path) w).0.pool.state} (sym (ground arith))
        (harvested-IsDisjoint e t (harvest_library e path t)
          (harvest_library-IsDisjoint e path t (tracked-IsDisjoint path w.pool.state d)))
]
  where
    t : World
    t = with_state (tracked path w.pool.state) w

remove_source-IsDisjoint :
    (e : Env) (path : Text) (w : World)
    → IsDisjoint w.pool.state
    → IsDisjoint (remove_source e path w).0.pool.state
unfolding remove_source
remove_source-IsDisjoint e path w d = saved-IsDisjoint e _ (λ x. ground (
  arith,
  has-drop_text x path w.pool.state.sources,
  has-add_sorted x path w.pool.state.unwatched,
  d x,
))

readmit-IsDisjoint :
    (e : Env) (id : Text) (w : World)
    → IsDisjoint w.pool.state
    → IsDisjoint (readmit e id w).0.pool.state
unfolding readmit
readmit-IsDisjoint e id w d = elim (Bool-cases (is_some (find id w.pool.state.withheld))) [
  | inr h ↦
      subst IsDisjoint {x = w.pool.state} {y = (readmit e id w).0.pool.state} (sym (ground arith)) d
  | inl h ↦
      subst IsDisjoint {x = (saved e freed).0.pool.state} {y = (readmit e id w).0.pool.state}
        (sym (ground arith)) (saved-IsDisjoint e freed d)
]
  where
    freed : World
    freed = with_state (record w.pool.state { withheld = erase id w.pool.state.withheld }) w

forget-IsDisjoint :
    (e : Env) (seat : Text) (w : World)
    → IsDisjoint w.pool.state
    → IsDisjoint (forget e seat w).0.pool.state
unfolding forget
forget-IsDisjoint e seat w d = saved-IsDisjoint e _ d

offer-IsDisjoint :
    (e : Env) (seat id : Text) (w : World)
    → IsDisjoint w.pool.state
    → IsDisjoint (offer e seat id w).0.pool.state
unfolding offer
offer-IsDisjoint e seat id w d = saved-IsDisjoint e _ d

-- What somebody asks of the pool about its libraries, titles and seats.
pub data Request : Type 0 where
  add : Env → Option Text → Request
  remove readmits forgets : Env → Text → Request
  offers : Env → Text → Text → Request

unfoldable pub request : Text → Request → World → World
unfolding add_source remove_source readmit offer forget
request root (add e path) w = (add_source e root path w).0
request root (remove e path) w = (remove_source e path w).0
request root (readmits e id) w = (readmit e id w).0
request root (forgets e seat) w = (forget e seat w).0
request root (offers e seat id) w = (offer e seat id w).0

unfoldable pub requests : Text → List Request → World → World
unfolding request
requests root [] w = w
requests root (r ∷ rs) w = requests root rs (request root r w)

request-IsDisjoint :
    (root : Text) (r : Request) (w : World)
    → IsDisjoint w.pool.state
    → IsDisjoint (request root r w).pool.state
unfolding request
request-IsDisjoint root (add e path) w d = add_source-IsDisjoint e root path w d
request-IsDisjoint root (remove e path) w d = remove_source-IsDisjoint e path w d
request-IsDisjoint root (readmits e id) w d = readmit-IsDisjoint e id w d
request-IsDisjoint root (forgets e seat) w d = forget-IsDisjoint e seat w d
request-IsDisjoint root (offers e seat id) w d = offer-IsDisjoint e seat id w d

-- However libraries are added and removed, titles readmitted and offered and seats forgotten, and
-- whatever fails, no library is ever both tracked and
-- remembered as one that somebody stopped watching, where the state starts so.
pub requests-IsDisjoint :
    (root : Text) (rs : List Request) (w : World)
    → IsDisjoint w.pool.state
    → IsDisjoint (requests root rs w).pool.state
unfolding requests
requests-IsDisjoint root [] w d = d
requests-IsDisjoint root (r ∷ rs) w d =
    requests-IsDisjoint root rs (request root r w) (request-IsDisjoint root r w d)
