-- ===== src/Library/Pool.antt =====
-- internal/library/pool.go: the pool of games. A directory of games is a table from names to trees;
-- a clone puts the whole tree under its name or leaves what was there, and a copy of a manifest
-- likewise; that the rename which puts an old tree back can fail too is left out.
pub mod Loops
pub mod Ahead
pub mod Lacks
pub mod Keyed
pub mod Offers
pub mod Sound
pub mod Harvest
pub mod Distribute
pub mod Sync
pub mod Uninstall
pub mod Sources
mod Tests
use polyseat.Prelude.{
  ℕ, ◌+◌, Bool, true, false, ◌&&◌, not, Option, none, some, List, [], ◌∷◌, ◌++◌, if◌then◌else◌, map,
  leb,
}
use polyseat.Prelude.Text.{Text, codes, text_eq}
use polyseat.Prelude.Table.{Table, find, put, is_some}
use polyseat.Prelude.Sort.{text_lt, sort_by}
use polyseat.Library.Manifest.{App}
use polyseat.Library.Manifest.Rewrite.{rewrite}
use polyseat.Library.Folder.{Folder}

-- A directory tree: what its walk measures, and the rest of it.
pub record Tree : Type 0 where
  pub bytes : ℕ
  pub newest : ℕ
  pub files : Text

pub data Status : Type 0 where
  delivered declined : Status

pub record State : Type 0 where
  pub delivered : Table (Table Status)
  pub folders : Table Folder
  pub sources : List Text
  pub unwatched : List Text
  pub withheld : Table Text

-- A steamapps directory: the manifests by the app id in their file names, those that can be read, and
-- the directory `common`, if there is one.
pub record Steam : Type 0 where
  pub manifests : Table App
  pub common : Option (Table Tree)

-- The pool's own directories, and what the daemon remembers.
pub record Pool : Type 0 where
  pub state : State
  pub apps : Table App
  pub common : Table Tree
  pub shared : Table Tree

-- The directory of a member's folders: there may be none, or it cannot be read.
pub data Shared : Type 0 where
  absent broken : Shared
  holds : Table Tree → Shared

pub record Home : Type 0 where
  pub steam : Option Steam
  pub shared : Shared

pub record Member : Type 0 where
  pub name : Text
  pub is_updatable : Bool
  pub external_apps : Option Text

pub record Move : Type 0 where
  pub app : Text
  pub name : Text
  pub seat : Text
  pub bytes : ℕ

pub data Problem : Type 0 where
  full_copy failed : Text → Problem

pub record Report : Type 0 where
  pub harvested : List Move
  pub given : List Move
  pub refused : List Move
  pub problems : List Problem
  pub pending : List Move

-- Which way a copy goes: out of a library, or into a member's.
pub data Way : Type 0 where
  taking giving : Way

-- What the system does during a pass: the time, which calls fail, and which clones are full
-- copies. The copies and the manifests are told apart by their way, the library and the name.
pub record Env : Type 0 where
  pub now : ℕ
  pub settle : ℕ
  pub clone_fails : Way → Text → Text → Bool
  pub manifest_fails : Way → Text → Text → Bool
  pub measure_fails : Text → Bool
  pub is_full_copy : Text → Bool
  pub common_fails : Text → Bool
  pub ensure_fails : Text → Bool
  pub pool_fails : Bool
  pub save_fails : Bool

-- `folderKey`
abbrev pub folder_key : Text → Text
folder_key name = codes "folder:" ++ name

unfoldable pub status : Text → Text → State → Option Status
unfolding find
status seat key s = elim (find seat s.delivered) [ none ↦ none | some marks ↦ find key marks ]

unfoldable pub marks_of : Text → State → Table Status
unfolding find
marks_of seat s = elim (find seat s.delivered) [ none ↦ [] | some marks ↦ marks ]

-- What is recorded: a declined title stays declined when it is there again.
abbrev pub marked : Option Status → Status → Status
marked (some declined) s = declined
marked (some delivered) s = s
marked none s = s

unfoldable pub mark : Text → Text → Status → State → State
unfolding put marks_of status
mark seat key m s = record s {
  delivered = put seat (put key (marked (status seat key s) m) (marks_of seat s)) s.delivered;
}

-- `readAppsAt`
unfoldable pub read_apps : Table App → List App
unfolding sort_by text_lt
read_apps manifests =
    sort_by (λ a b. text_lt a.fields.name b.fields.name) (map (λ e. e.1) manifests)

-- A manifest as it is written to another library.
unfoldable pub copy_of : ℕ → App → App
unfolding rewrite
copy_of now app = record app { content = rewrite app.content; mod_time = now }

unfoldable pub is_settled_app : Env → App → Bool
is_settled_app e app = leb (app.mod_time + e.settle) e.now

unfoldable pub measure : Text → Tree → Folder
measure name t = record { name = name; bytes = t.bytes; newest = t.newest }

-- Whether a call failed, with what it left.
abbrev pub Done {ℓ} : Type ℓ → Type ℓ
Done S = S × Bool

-- `for … { if err := step(); err != nil { return err } }`
unfoldable pub each {ℓ κ} : {A : Type ℓ} {S : Type κ} → (A → S → Done S) → List A → S → Done S
each step [] s = (s, false)
each step (x ∷ xs) s = let r = step x s in if r.1 then r else each step xs r.0

-- A loop that reports an error and goes on.
unfoldable pub sweep {ℓ κ} : {A : Type ℓ} {S : Type κ} → (A → S → S) → List A → S → S
sweep step [] s = s
sweep step (x ∷ xs) s = sweep step xs (step x s)
