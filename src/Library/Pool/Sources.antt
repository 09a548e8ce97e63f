-- ===== src/Library/Pool/Sources.antt =====
-- internal/library/pool.go: the libraries outside the seats that the pool tracks, `AddSource` and
-- `RemoveSource`, and what is remembered of the seats and titles, `Readmit`, `Offer` and `Forget`.
pub mod Apart
mod Tests
use polyseat.Prelude.{
  Bool, true, false, ◌&&◌, ◌||◌, not, Option, none, some, List, [], ◌∷◌, ◌++◌, if◌then◌else◌,
}
use polyseat.Prelude.Text.{Text, codes, text_eq, cut_prefix}
use polyseat.Prelude.Sort.{sort_by, text_lt}
use polyseat.Prelude.Table.{Table, find, put, erase, is_some}
use polyseat.Library.Pool.{Steam, State, Pool, Report, Env, Done}
use polyseat.Library.Pool.Harvest.{Pass, harvest_from}
use polyseat.Library.Pool.Sync.{World, blank}

unfoldable pub has : Text → List Text → Bool
has x [] = false
has x (y ∷ ys) = let rest = has x ys in text_eq y x || rest

-- `slices.DeleteFunc` with the test for one text.
unfoldable pub drop_text : Text → List Text → List Text
drop_text x [] = []
drop_text x (y ∷ ys) = let rest = drop_text x ys in if text_eq y x then rest else y ∷ rest

-- A text is added at its place where it is missing.
unfoldable pub add_sorted : Text → List Text → List Text
unfolding has sort_by text_lt
add_sorted x xs = if has x xs then xs else sort_by text_lt (xs ++ x ∷ [])

unfoldable pub is_inside : Text → Text → Bool
unfolding cut_prefix is_some
is_inside root path = is_some (cut_prefix (root ++ codes "/") (path ++ codes "/"))

abbrev pub with_state : State → World → World
with_state s w = record w { pool = record w.pool { state = s } }

-- `save`, with whether it fails.
abbrev pub saved : Env → World → World × Bool
saved e w = if e.save_fails then (w, true) else (record w { file = some w.pool.state }, false)

abbrev pub tracked : Text → State → State
tracked path s = record s {
  sources = add_sorted path s.sources;
  unwatched = drop_text path s.unwatched;
}

-- `harvestSource`, where the library can be read.
unfoldable pub harvest_library : Env → Text → World → Done Pass
unfolding find harvest_from
harvest_library e path w = elim (find path w.libraries) [
  | none ↦ (record { pool = w.pool; report = blank }, true)
  | some lib ↦ harvest_from e (codes "host") lib (record { pool = w.pool; report = blank })
]

abbrev pub harvested : Env → World → Done Pass → World × Bool
harvested e w (s, true) = (record w { pool = s.pool }, true)
harvested e w (s, false) = saved e (record w { pool = s.pool })

-- `AddSource` under a root, with the path after its links are followed, if they can be, and whether it
-- returns an error.
unfoldable pub add_source : Env → Text → Option Text → World → World × Bool
unfolding is_inside add_sorted drop_text harvest_library
add_source e root none w = (w, true)
add_source e root (some path) w =
    if is_inside root path
    then (w, true)
    else let t = with_state (tracked path w.pool.state) w in
      harvested e t (harvest_library e path t)

-- `RemoveSource`
unfoldable pub remove_source : Env → Text → World → World × Bool
unfolding add_sorted drop_text
remove_source e path w = saved e (
    with_state
      (record w.pool.state {
        sources = drop_text path w.pool.state.sources;
        unwatched = add_sorted path w.pool.state.unwatched;
      })
      w)

-- `Readmit`
unfoldable pub readmit : Env → Text → World → World × Bool
unfolding find erase is_some
readmit e id w =
    if is_some (find id w.pool.state.withheld)
    then saved e (with_state (record w.pool.state { withheld = erase id w.pool.state.withheld }) w)
    else (w, true)

-- `Offer`
unfoldable pub offer : Env → Text → Text → World → World × Bool
unfolding find put erase
offer e seat id w = saved e (
    with_state
      (record w.pool.state {
        delivered = elim (find seat w.pool.state.delivered) [
          | none ↦ w.pool.state.delivered
          | some marks ↦ put seat (erase id marks) w.pool.state.delivered
        ];
      })
      w)

-- `Forget`
unfoldable pub forget : Env → Text → World → World × Bool
unfolding erase
forget e seat w =
    saved e (with_state (record w.pool.state { delivered = erase seat w.pool.state.delivered }) w)
