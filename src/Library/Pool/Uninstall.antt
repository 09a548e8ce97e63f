-- ===== src/Library/Pool/Uninstall.antt =====
-- internal/library/pool.go, `Uninstall` of a Steam title. Shared folders go by the same function, but
-- are not modelled.
pub mod Refused
pub mod Gone
mod Tests
use polyseat.Prelude.{
  Bool, true, false, ◌&&◌, ◌||◌, not, Option, none, some, List, [], ◌∷◌, ◌++◌, Result, ok, err,
  if◌then◌else◌, map,
}
use polyseat.Prelude.Text.{Text, codes, text_eq}
use polyseat.Prelude.Table.{Table, find, put, erase, is_some}
use polyseat.Library.Manifest.{App, is_safe_name}
use polyseat.Library.Pool.{Tree, Status, State, Steam, Pool, Home, Member, Move}
use polyseat.Library.Pool.Distribute.{common_of}
use polyseat.Library.Pool.Sync.{World, home_of, is_joined}

-- Whether the pool has a manifest of the title that cannot be read, where it has none that can; which
-- removals fail, for a member or in the pool, and whether the state cannot be written.
pub record Faults : Type 0 where
  pub manifest_stays : Text → Bool
  pub files_stay : Text → Bool
  pub pool_manifest_garbled : Bool
  pub pool_manifest_stays : Bool
  pub pool_files_stay : Bool
  pub save_fails : Bool

pub data Refusal : Type 0 where
  bad_name not_removed not_saved : Refusal
  in_source unreadable bad_install_dir not_dropped : Text → Refusal
  in_use : Text → List Text → Refusal

-- What the loop over the members finds.
pub record Search : Type 0 where
  pub holdings : List (Member × App)
  pub busy : List Text
  pub title : Text

-- What the removals leave: the homes, what is gone so far, and the member where one failed.
pub record Dropped : Type 0 where
  pub homes : Table Home
  pub gone : List Move
  pub failure : Option Text

abbrev pub manifest_name : Text → Text
manifest_name id = codes "appmanifest_" ++ (id ++ codes ".acf")

-- The first tracked library, that is no member's, in which the title is.
unfoldable pub source_with : Text → List Member → Table Steam → List Text → Option Text
unfolding is_joined find
source_with id members libraries [] = none
source_with id members libraries (source ∷ sources) =
    let rest = source_with id members libraries sources in
    if is_joined source members then rest else elim (find source libraries) [
      | none ↦ rest
      | some lib ↦ elim (find id lib.manifests) [ none ↦ rest | some app ↦ some source ]
    ]

abbrev pub found : Member → App → Search → Search
found m app s = record {
  holdings = s.holdings ++ (m, app) ∷ [];
  busy = if m.is_updatable then s.busy else s.busy ++ m.name ∷ [];
  title = app.fields.name;
}

unfoldable pub search : Text → Table Home → List Member → Search → Result Refusal Search
unfolding home_of find is_safe_name
search id homes [] s = ok s
search id homes (m ∷ ms) s = elim (home_of m.name homes).steam [
  | none ↦ err (unreadable m.name)
  | some lib ↦ elim (find id lib.manifests) [
    | none ↦ search id homes ms s
    | some app ↦
        let rest = search id homes ms (found m app s) in
        if is_safe_name app.fields.install_dir then rest else err (bad_install_dir m.name)
  ]
]

-- The name that the pool has for the title, if it has one.
abbrev pub pool_title : Option App → Text → Text
pool_title none title = title
pool_title (some app) title = if text_eq app.fields.name [] then title else app.fields.name

abbrev without_app : Text → Steam → Steam
without_app id lib = record lib { manifests = erase id lib.manifests }

abbrev without_files : Text → Steam → Steam
without_files dir lib = record lib {
  common = elim lib.common [ none ↦ none | some trees ↦ some (erase dir trees) ];
}

-- `dropApp`: the manifest goes first.
unfoldable pub drop_app : Faults → Member → App → Table Home → Table Home × Bool
unfolding home_of put erase
drop_app f m app homes =
    let h = home_of m.name homes in
    elim h.steam [
      | none ↦ (homes, true)
      | some lib ↦
          if f.manifest_stays m.name
          then (homes, true)
          else let bare = without_app app.fields.app_id lib in
            if f.files_stay m.name
            then (put m.name (record h { steam = some bare }) homes, true)
            else (
              put m.name (record h { steam = some (without_files app.fields.install_dir bare) })
                  homes,
              false,
            )
    ]

-- The loop over the holdings, which ends at the first removal that fails.
unfoldable pub drop_all : Faults → Text → Text → List (Member × App) → Dropped → Dropped
unfolding drop_app
drop_all f id title [] d = d
drop_all f id title ((m, app) ∷ hs) d =
    let r = drop_app f m app d.homes in
    let rest = drop_all f id title hs (record {
      homes = r.0;
      gone = d.gone ++ record { app = id; name = title; seat = m.name; bytes = 0 } ∷ [];
      failure = none;
    }) in
    if r.1 then record d { homes = r.0; failure = some m.name } else rest

-- `removeLocked` of a title, which passes over one that is not there.
unfoldable pub remove_app : Faults → Text → Pool → Pool × Bool
unfolding find erase is_safe_name
remove_app f id p = elim (find id p.apps) [
  | none ↦ (p, f.pool_manifest_garbled)
  | some app ↦
      if not (is_safe_name app.fields.install_dir) || f.pool_files_stay
      then (p, true)
      else let bare = record p { common = erase app.fields.install_dir p.common } in
        if f.pool_manifest_stays
        then (bare, true)
        else (record bare { apps = erase id p.apps }, false)
]

abbrev pub unmarked : Text → Table (Table Status) → Table (Table Status)
unfolding erase
unmarked id delivered = map (λ e. (e.0, erase id e.1)) delivered

-- The marks go, and the title is withheld if it was found.
unfoldable pub withhold : Text → Text → State → State
unfolding put is_some find erase
withhold id title s = record s {
  delivered = unmarked id s.delivered;
  withheld =
      if not (text_eq title id) && not (is_some (find id s.withheld))
      then put id title s.withheld
      else s.withheld;
}

abbrev pub saved : Faults → World → List Move → Option Refusal → World × List Move × Option Refusal
saved f w gone r =
    if f.save_fails
    then (w, gone, some not_saved)
    else (record w { file = some w.pool.state }, gone, r)

-- What follows the removals from the members.
unfoldable pub after_drop :
    Faults → Text → Text → World → Dropped → World × List Move × Option Refusal
unfolding remove_app withhold
after_drop f id title w d = elim d.failure [
  | some who ↦ saved f (record w { homes = d.homes }) d.gone (some (not_dropped who))
  | none ↦
      let r = remove_app f id w.pool in
      if r.1
      then (record w { pool = r.0; homes = d.homes }, d.gone, some not_removed)
      else saved f
          (record w { pool = record r.0 { state = withhold id title r.0.state }; homes = d.homes })
          d.gone none
]

-- What follows the search.
unfoldable pub after_search : Faults → Text → World → Search → World × List Move × Option Refusal
unfolding drop_all after_drop find
after_search f id w s =
    let title = pool_title (find id w.pool.apps) s.title in
    elim s.busy [
      | b ∷ bs ↦ (w, [], some (in_use title (b ∷ bs)))
      | [] ↦
          after_drop f id title w
            (drop_all f id title s.holdings (record { homes = w.homes; gone = []; failure = none }))
    ]

abbrev pub start : Text → Search
start id = record { holdings = []; busy = []; title = id }

-- `Uninstall`, with what is gone and the error if there is one.
unfoldable pub uninstall : Faults → Text → List Member → World → World × List Move × Option Refusal
unfolding is_safe_name source_with search after_search
uninstall f id members w =
    if not (is_safe_name (manifest_name id))
    then (w, [], some bad_name)
    else elim (source_with id members w.libraries w.pool.state.sources) [
      | some source ↦ (w, [], some (in_source source))
      | none ↦ elim (search id w.homes members (start id)) [
        | err r ↦ (w, [], some r)
        | ok s ↦ after_search f id w s
      ]
    ]
