-- ===== src/Library/Pool/Distribute.antt =====
-- internal/library/pool.go: offering what the pool has to one member.
use polyseat.Prelude.{
  ℕ, Bool, true, false, ◌&&◌, not, Option, none, some, List, [], ◌∷◌, ◌++◌, if◌then◌else◌,
}
use polyseat.Prelude.Text.{Text, text_eq}
use polyseat.Prelude.Table.{Table, find, put, is_some}
use polyseat.Prelude.Sort.{text_lt, sort_by}
use polyseat.Library.Folder.{Folder, newer_folder}
use polyseat.Library.Manifest.{App, is_installed, newer_build}
use polyseat.Library.Pool.{
  giving, Tree, Status, delivered, declined, Steam, Member, Env, folder_key, status, read_apps,
  copy_of, Done, each,
}
use polyseat.Library.Pool.Harvest.{Pass, mark_pass}

-- What a round works on beside the pass: the member's library, or its folders.
pub record Giving {ℓ} (L : Type ℓ) : Type ℓ where
  pub pass : Pass
  pub home : L

-- What the switch of a round decides.
pub data Verdict : Type 0 where
  skip wait refuse give : Verdict

-- The switch: whether the member has it, whether the pool's is newer, whether it may be replaced, and
-- the mark.
unfoldable pub verdict : Option Bool → Bool → Option Status → Verdict
verdict (some false) updatable st = skip
verdict (some true) false st = wait
verdict (some true) true st = give
verdict none updatable (some declined) = skip
verdict none updatable (some delivered) = refuse
verdict none updatable none = give

-- What a round that gives nothing leaves.
unfoldable pub settle_verdict : Text → Text → Text → Verdict → Pass → Pass
unfolding mark_pass
settle_verdict seat key name skip s = s
settle_verdict seat key name give s = s
settle_verdict seat key name wait s = record s {
  report = record s.report {
    pending = s.report.pending ++ record { app = key; name = name; seat = seat; bytes = 0 } ∷ [];
  };
}
settle_verdict seat key name refuse s = record (mark_pass seat key declined s) {
  report = record s.report {
    refused = s.report.refused ++ record { app = key; name = name; seat = seat; bytes = 0 } ∷ [];
  };
}

unfoldable pub mark_given : Text → Text → Text → ℕ → Pass → Pass
unfolding mark_pass
mark_given seat key name bytes s = record (mark_pass seat key delivered s) {
  report = record s.report {
    given = s.report.given ++ record { app = key; name = name; seat = seat; bytes = bytes } ∷ [];
  };
}

-- `present[app.AppID]`, where the last of the list counts.
unfoldable pub present : Text → List App → Option App
present id [] = none
present id (app ∷ apps) = elim (present id apps) [
  | some later ↦ some later
  | none ↦ if text_eq app.fields.app_id id then some app else none
]

-- The member's `common`, which is made when the first title is given.
abbrev pub common_of : Option (Table Tree) → Table Tree
common_of none = []
common_of (some trees) = trees

-- The clone and what follows it in one round of `distribute`.
unfoldable pub give_app : Env → Member → App → Tree → Giving Steam → Done (Giving Steam)
unfolding put copy_of mark_given is_some
give_app e m app tree g =
    if not (is_some g.home.common) && e.common_fails m.name
    then (g, true)
    else let common = common_of g.home.common in
      let made : Giving Steam = record g { home = record g.home { common = some common } } in
      if e.clone_fails giving m.name app.fields.install_dir
      then (made, true)
      else let cloned : Giving Steam = record g {
        home = record g.home { common = some (put app.fields.install_dir tree common) };
      } in
        if e.manifest_fails giving m.name app.fields.app_id then (cloned, true) else (
          record {
            pass = mark_given m.name app.fields.app_id app.fields.name tree.bytes g.pass;
            home = record cloned.home {
              manifests = put app.fields.app_id (copy_of e.now app) g.home.manifests;
            };
          },
          false,
        )

abbrev pub app_offer : Option App → App → Option Bool
app_offer none app = none
app_offer (some here) app = some (newer_build app.fields.build_id here.fields.build_id)

unfoldable pub app_verdict : Member → List App → App → Pass → Verdict
unfolding verdict present newer_build status
app_verdict m before app s =
    verdict (app_offer (present app.fields.app_id before) app) m.is_updatable
      (status m.name app.fields.app_id s.pool.state)

abbrev pub carry_out {ℓ} :
    {L : Type ℓ}
    → Verdict
    → Option Tree
    → (Tree → Giving L → Done (Giving L))
    → Pass
    → Giving L
    → Done (Giving L)
carry_out give none act left g = (g, false)
carry_out give (some tree) act left g = act tree g
carry_out skip t act left g = (record g { pass = left }, false)
carry_out wait t act left g = (record g { pass = left }, false)
carry_out refuse t act left g = (record g { pass = left }, false)

-- One round of `distribute`, with the apps that the member had before the first.
unfoldable pub distribute_app : Env → Member → List App → App → Giving Steam → Done (Giving Steam)
unfolding is_installed app_verdict settle_verdict give_app find
distribute_app e m before app g =
    if not (is_installed app.fields)
    then (g, false)
    else let v = app_verdict m before app g.pass in
      carry_out v (find app.fields.install_dir g.pass.pool.common) (give_app e m app)
        (settle_verdict m.name app.fields.app_id app.fields.name v g.pass) g

-- `distribute`, over the pool's apps as they were read once.
unfoldable pub distribute : Env → Member → List App → Steam → Pass → Done (Giving Steam)
unfolding read_apps distribute_app each
distribute e m pool lib s =
    each (distribute_app e m (read_apps lib.manifests)) pool (record { pass = s; home = lib })

unfoldable pub give_folder :
    Env → Member → Text → Tree → Giving (Table Tree) → Done (Giving (Table Tree))
unfolding put mark_given
give_folder e m name tree g = if e.clone_fails giving m.name name then (g, true) else (
  record {
    pass = mark_given m.name (folder_key name) name tree.bytes g.pass;
    home = put name tree g.home;
  },
  false,
)

-- `here[name]`, where the last of the list counts.
unfoldable pub folder_here : Text → List Folder → Option Folder
folder_here name [] = none
folder_here name (f ∷ fs) = elim (folder_here name fs) [
  | some later ↦ some later
  | none ↦ if text_eq f.name name then some f else none
]

abbrev pub folder_offer : Option Folder → Folder → Option Bool
folder_offer none pooled = none
folder_offer (some mine) pooled = some (newer_folder pooled mine)

unfoldable pub folder_verdict : Member → List Folder → Text × Folder → Pass → Verdict
unfolding verdict folder_here newer_folder status
folder_verdict m before (name, pooled) s =
    verdict (folder_offer (folder_here name before) pooled) m.is_updatable
      (status m.name (folder_key name) s.pool.state)

-- One round of `distributeFolders`.
unfoldable pub distribute_folder :
    Env → Member → List Folder → Text × Folder → Giving (Table Tree) → Done (Giving (Table Tree))
unfolding folder_verdict settle_verdict give_folder find
distribute_folder e m before (name, pooled) g = elim (find name g.pass.pool.shared) [
  | none ↦ (g, false)
  | some tree ↦
      let v = folder_verdict m before (name, pooled) g.pass in
      carry_out v (some tree) (give_folder e m name)
        (settle_verdict m.name (folder_key name) name v g.pass) g
]

-- `distributeFolders`, given what was found in the member's directory before.
unfoldable pub distribute_folders :
    Env → Member → List Folder → Table Tree → Pass → Done (Giving (Table Tree))
unfolding distribute_folder each sort_by text_lt
distribute_folders e m before trees s =
    each (distribute_folder e m before) (sort_by (λ a b. text_lt a.0 b.0) s.pool.state.folders)
      (record { pass = s; home = trees })
