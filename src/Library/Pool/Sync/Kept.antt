-- ===== src/Library/Pool/Sync/Kept.antt =====
-- internal/library/pool.go: predicates of the pool, through the steps of a pass.
use polyseat.Prelude.{
  ◌≡◌, sym, subst, ◌⊎◌, inl, inr, Option, none, some, List, [], ◌∷◌, arith, Bool-cases,
  Option-cases,
}
use polyseat.Prelude.Text.{Text}
use polyseat.Prelude.Table.{Table, find, put}
use polyseat.Library.Folder.{Folder, is_settled}
use polyseat.Library.Manifest.{App}
use polyseat.Library.Pool.{
  taking, Tree, Status, delivered, Steam, Pool, Shared, absent, broken, holds, Member, Env,
  folder_key, mark, read_apps, measure, Done,
}
use polyseat.Library.Pool.Loops.{each-keeps}
use polyseat.Library.Pool.Harvest.{
  Pass, mark_pass, harvest_app, harvest_from, mark_all, harvest, take_folder, is_current_folder,
  harvest_folder, harvest_folders, scan_folders,
}

-- The pool with one more mark, folder, or record of a folder.
abbrev pub with_mark : Text → Text → Status → Pool → Pool
unfolding mark
with_mark seat key m q = record q { state = mark seat key m q.state }

abbrev pub with_shared : Text → Tree → Pool → Pool
with_shared name t q = record q { shared = put name t q.shared }

abbrev pub with_record : Text → Folder → Pool → Pool
with_record name f q = record q { state = record q.state { folders = put name f q.state.folders } }

-- What every step but the taking of a title keeps.
pub record Stays {μ} (Q : Pool → Type μ) : Type μ where
  pub marks : (seat key : Text) (m : Status) (q : Pool) → Q q → Q (with_mark seat key m q)
  pub shares : (name : Text) (t : Tree) (q : Pool) → Q q → Q (with_shared name t q)
  pub records : (name : Text) (f : Folder) (q : Pool) → Q q → Q (with_record name f q)

-- What every step that changes a pool keeps.
pub record Keeps {μ} (Q : Pool → Type μ) : Type μ where
  pub stays : Stays Q
  pub takes :
      (e : Env) (from : Text) (common : Table Tree) (app : App) (s : Pass)
      → Q s.pool
      → Q (harvest_app e from common app s).0.pool

harvest_folder-cases :
    (e : Env) (from : Text) (trees : Table Tree) (f : Folder) (s : Pass)
    → ((harvest_folder e from trees f s).0.pool
        ≡ with_mark from (folder_key f.name) delivered s.pool)
      ⊎ ((t : Tree) × (harvest_folder e from trees f s
            ≡ take_folder e from f t (mark_pass from (folder_key f.name) delivered s)))
unfolding harvest_folder mark_pass
harvest_folder-cases e from trees f s = elim (Option-cases (find f.name trees)) [
  | inl h ↦ inl (ground arith)
  | inr (t, h) ↦ elim (Bool-cases (is_settled e.now e.settle f)) [
    | inr k ↦ inl (ground arith)
    | inl k ↦
        elim (Bool-cases
          (is_current_folder f (with_mark from (folder_key f.name) delivered s.pool))) [
            | inl j ↦ inl (ground arith)
            | inr j ↦ inr (t, ground arith)
          ]
  ]
]

module _ {μ} (Q : Pool → Type μ) (stays : Stays Q) where
  mark_all-keeps :
      (seat : Text) (apps : List App) (s : Pass) → Q s.pool → Q (mark_all seat apps s).pool
  unfolding mark_all mark_pass
  mark_all-keeps seat [] s q = q
  mark_all-keeps seat (app ∷ apps) s q =
      mark_all-keeps seat apps (mark_pass seat app.fields.app_id delivered s)
        (stays.marks seat app.fields.app_id delivered s.pool q)

  take_folder-keeps :
      (e : Env) (from : Text) (f : Folder) (t : Tree) (s : Pass)
      → Q s.pool
      → Q (take_folder e from f t s).0.pool
  unfolding take_folder
  take_folder-keeps e from f t s q = elim (Bool-cases (e.clone_fails taking from f.name)) [
    | inl h ↦ subst Q (sym (ground arith)) q
    | inr h ↦ elim (Bool-cases (e.measure_fails f.name)) [
      | inl k ↦ subst Q (sym (ground arith)) (stays.shares f.name t s.pool q)
      | inr k ↦ subst Q (sym (ground arith)) (
          stays.records f.name (measure f.name t) (with_shared f.name t s.pool)
            (stays.shares f.name t s.pool q))
    ]
  ]

  harvest_folder-keeps :
      (e : Env) (from : Text) (trees : Table Tree) (f : Folder) (s : Pass)
      → Q s.pool
      → Q (harvest_folder e from trees f s).0.pool
  unfolding harvest_folder mark_pass
  harvest_folder-keeps e from trees f s q = elim (harvest_folder-cases e from trees f s) [
    | inl h ↦ subst Q (sym h) (stays.marks from (folder_key f.name) delivered s.pool q)
    | inr (t, h) ↦
        subst (λ (r : Done Pass). Q r.0.pool) (sym h)
          (take_folder-keeps e from f t (mark_pass from (folder_key f.name) delivered s)
            (stays.marks from (folder_key f.name) delivered s.pool q))
  ]

  pub harvest_folders-keeps :
      (e : Env) (m : Member) (h : Shared) (s : Pass)
      → Q s.pool
      → Q (harvest_folders e m h s).0.0.pool
  unfolding harvest_folders
  harvest_folders-keeps e m absent s q = q
  harvest_folders-keeps e m broken s q = q
  harvest_folders-keeps e m (holds trees) s q =
      each-keeps (λ (t : Pass). Q t.pool) (harvest_folder e m.name trees)
        (harvest_folder-keeps e m.name trees) (scan_folders trees) s q

module _ {μ} (Q : Pool → Type μ) (keeps : Keeps Q) where
  pub harvest_from-keeps :
      (e : Env) (from : Text) (lib : Steam) (s : Pass)
      → Q s.pool
      → Q (harvest_from e from lib s).0.pool
  unfolding harvest_from
  harvest_from-keeps e from lib s q = elim (Option-cases lib.common) [
    | inl h ↦ subst Q (sym (ground arith)) q
    | inr (common, h) ↦ subst Q (sym (ground arith)) (
        each-keeps (λ (t : Pass). Q t.pool) (harvest_app e from common) (keeps.takes e from common)
          (read_apps lib.manifests) s q)
  ]

  pub harvest-keeps :
      (e : Env) (m : Member) (lib : Option Steam) (s : Pass)
      → Q s.pool
      → Q (harvest e m lib s).0.pool
  unfolding harvest
  harvest-keeps e m none s q = q
  harvest-keeps e m (some lib) s q =
      harvest_from-keeps e m.name lib (mark_all m.name (read_apps lib.manifests) s)
        (mark_all-keeps Q keeps.stays m.name (read_apps lib.manifests) s q)
