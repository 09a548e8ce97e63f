-- ===== src/Library/Folder.antt =====
-- internal/library/folder.go: the version of a shared folder. The tree is measured by its walk.
use polyseat.Prelude.{ℕ, ◌+◌, Bool, true, false, ◌==◌, ltb, leb, if◌then◌else◌}
use polyseat.Prelude.Text.{Text}

-- Times are numbers.
pub record Folder : Type 0 where
  pub name : Text
  pub bytes : ℕ
  pub newest : ℕ

-- `f.Newer(other)`
unfoldable pub newer_folder : Folder → Folder → Bool
newer_folder f other =
    if ltb other.newest f.newest
    then true
    else if f.newest == other.newest
    then ltb other.bytes f.bytes
    else false

-- `f.Settled(quiet)` at a time.
unfoldable pub is_settled : ℕ → ℕ → Folder → Bool
is_settled now quiet f = leb (f.newest + quiet) now
