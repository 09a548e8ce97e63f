-- ===== src/Library/Pool/Harvest.antt =====
-- internal/library/pool.go: taking finished games out of the libraries and into the pool.
use polyseat.Prelude.{
  Bool, true, false, ◌&&◌, not, Option, none, some, List, [], ◌∷◌, ◌++◌, if◌then◌else◌,
}
use polyseat.Prelude.Text.{Text}
use polyseat.Prelude.Table.{Table, find, put, is_some}
use polyseat.Prelude.Sort.{text_lt, sort_by}
use polyseat.Library.Folder.{Folder, newer_folder, is_settled}
use polyseat.Library.Manifest.{App, is_installed, newer_build, is_safe_name}
use polyseat.Library.Pool.{
  taking, Tree, Status, delivered, Steam, Pool, Shared, absent, broken, holds, Member, full_copy,
  Report, Env, folder_key, mark, read_apps, copy_of, is_settled_app, measure, Done, each,
}

-- What a pass works on.
pub record Pass : Type 0 where
  pub pool : Pool
  pub report : Report

unfoldable pub note_full_copy : Env → Text → Report → Report
note_full_copy e name r =
    if e.is_full_copy name then record r { problems = r.problems ++ full_copy name ∷ [] } else r

-- Whether the pool has a copy that is not older.
unfoldable pub is_current : App → Pool → Bool
unfolding find is_some newer_build
is_current app p = elim (find app.fields.app_id p.apps) [
  | none ↦ false
  | some have ↦
      is_some (find have.fields.install_dir p.common)
      && not (newer_build app.fields.build_id have.fields.build_id)
]

-- The clone and what follows it in one round of `harvestFrom`.
unfoldable pub take_app : Env → Text → App → Tree → Pass → Done Pass
unfolding put note_full_copy copy_of
take_app e from app tree s =
    if e.clone_fails taking from app.fields.install_dir
    then (s, true)
    else let cloned : Pass = record {
      pool = record s.pool { common = put app.fields.install_dir tree s.pool.common };
      report = note_full_copy e app.fields.name s.report;
    } in
      if e.manifest_fails taking from app.fields.app_id then (cloned, true) else (
        record {
          pool = record cloned.pool {
            apps = put app.fields.app_id (copy_of e.now app) s.pool.apps;
          };
          report = record cloned.report {
            harvested =
                cloned.report.harvested
                ++ record {
                  app = app.fields.app_id;
                  name = app.fields.name;
                  seat = from;
                  bytes = tree.bytes;
                }
                  ∷ [];
          };
        },
        false,
      )

-- One round of `harvestFrom`, over a library with this `common`.
unfoldable pub harvest_app : Env → Text → Table Tree → App → Pass → Done Pass
unfolding is_installed is_settled_app is_current take_app find is_some
harvest_app e from common app s =
    if not (is_installed app.fields)
    then (s, false)
    else if not (is_settled_app e app)
    then (s, false)
    else if is_some (find app.fields.app_id s.pool.state.withheld)
    then (s, false)
    else if is_current app s.pool
    then (s, false)
    else elim (find app.fields.install_dir common) [
      | none ↦ (s, false)
      | some tree ↦ take_app e from app tree s
    ]

unfoldable pub harvest_from : Env → Text → Steam → Pass → Done Pass
unfolding read_apps harvest_app each
harvest_from e from lib s = elim lib.common [
  | none ↦ (s, false)
  | some common ↦ each (harvest_app e from common) (read_apps lib.manifests) s
]

unfoldable pub mark_pass : Text → Text → Status → Pass → Pass
unfolding mark
mark_pass seat key m s = record s { pool = record s.pool { state = mark seat key m s.pool.state } }

unfoldable pub mark_all : Text → List App → Pass → Pass
unfolding mark_pass
mark_all seat [] s = s
mark_all seat (app ∷ apps) s = mark_all seat apps (mark_pass seat app.fields.app_id delivered s)

-- `harvest`, over the member's library if it can be opened.
unfoldable pub harvest : Env → Member → Option Steam → Pass → Done Pass
unfolding read_apps mark_all harvest_from
harvest e m none s = (s, true)
harvest e m (some lib) s = harvest_from e m.name lib (mark_all m.name (read_apps lib.manifests) s)

unfoldable pub safe_folders : Table Tree → List Folder
unfolding measure is_safe_name
safe_folders [] = []
safe_folders ((name, t) ∷ trees) =
    if is_safe_name name then measure name t ∷ safe_folders trees else safe_folders trees

-- `scanFoldersAt`, over the trees that can be measured.
unfoldable pub scan_folders : Table Tree → List Folder
unfolding sort_by text_lt safe_folders
scan_folders trees = sort_by (λ a b. text_lt a.name b.name) (safe_folders trees)

unfoldable pub take_folder : Env → Text → Folder → Tree → Pass → Done Pass
unfolding put note_full_copy measure
take_folder e from f tree s =
    if e.clone_fails taking from f.name
    then (s, true)
    else let cloned : Pass = record {
      pool = record s.pool { shared = put f.name tree s.pool.shared };
      report = note_full_copy e f.name s.report;
    } in
      if e.measure_fails f.name then (cloned, true) else (
        record {
          pool = record cloned.pool {
            state = record s.pool.state {
              folders = put f.name (measure f.name tree) s.pool.state.folders;
            };
          };
          report = record cloned.report {
            harvested =
                cloned.report.harvested
                ++ record {
                  app = folder_key f.name;
                  name = f.name;
                  seat = from;
                  bytes = tree.bytes;
                }
                  ∷ [];
          };
        },
        false,
      )

unfoldable pub is_current_folder : Folder → Pool → Bool
unfolding find is_some newer_folder
is_current_folder f p = elim (find f.name p.state.folders) [
  | none ↦ false
  | some have ↦ is_some (find f.name p.shared) && not (newer_folder f have)
]

-- One round of `harvestFolders`.
unfoldable pub harvest_folder : Env → Text → Table Tree → Folder → Pass → Done Pass
unfolding mark_pass is_settled is_current_folder take_folder find
harvest_folder e from trees f s =
    let marked = mark_pass from (folder_key f.name) delivered s in
    if not (is_settled e.now e.settle f)
    then (marked, false)
    else if is_current_folder f marked.pool
    then (marked, false)
    else elim (find f.name trees) [
      | none ↦ (marked, true)
      | some tree ↦ take_folder e from f tree marked
    ]

-- `harvestFolders`, with the folders that were found where the directory was read.
unfoldable pub harvest_folders : Env → Member → Shared → Pass → Done Pass × Option (List Folder)
unfolding scan_folders harvest_folder each
harvest_folders e m absent s = ((s, false), none)
harvest_folders e m broken s = ((s, true), none)
harvest_folders e m (holds trees) s =
    (each (harvest_folder e m.name trees) (scan_folders trees) s, some (scan_folders trees))
