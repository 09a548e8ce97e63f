-- ===== src/Library/Manifest/Rewrite.antt =====
-- internal/library/steam.go, `Rewrite`: the copy of a manifest that is handed on.
pub mod Lines
pub mod Whole
use polyseat.Prelude.{
  Bool, true, false, ◌&&◌, ◌||◌, Option, none, some, List, [], ◌∷◌, ◌++◌, if◌then◌else◌, map, ◌==◌,
}
use polyseat.Prelude.Int.{ℤ, pos}
use polyseat.Prelude.Text.{Text, codes, text_eq, to_lower}
use polyseat.Library.Manifest.{
  Kind, opens, closes, other, pair, kind, deeper, shallower, is_top, scan_lines,
}

-- `neutralised`, whose values are all "0".
unfoldable pub is_neutralised : Text → Bool
is_neutralised key = text_eq key (codes "lastowner") || text_eq key (codes "lastplayed")

-- The spaces and tabs that a line starts with.
unfoldable pub indent : Text → Text
indent [] = []
indent (c ∷ s) = let rest = indent s in if c == b' ' || c == b'\t' then c ∷ rest else []

unfoldable pub reset_line : Text → Text → Text
unfolding indent
reset_line line key = indent line ++ (b'"' ∷ key ++ codes "\"\t\t\"0\"")

abbrev pub rewrite_kind : ℤ → Text → Kind → ℤ × Text
rewrite_kind depth line opens = (deeper depth, line)
rewrite_kind depth line closes = (shallower depth, line)
rewrite_kind depth line other = (depth, line)
rewrite_kind depth line (pair key v) =
    (depth, if is_top depth && is_neutralised (map to_lower key) then reset_line line key else line)

unfoldable pub rewrite_line : ℤ → Text → ℤ × Text
unfolding kind is_neutralised to_lower reset_line
rewrite_line depth line = rewrite_kind depth line (kind line)

unfoldable pub rewrite_lines : ℤ → List Text → List Text
unfolding rewrite_line
rewrite_lines depth [] = []
rewrite_lines depth (line ∷ ls) =
    (rewrite_line depth line).1 ∷ rewrite_lines (rewrite_line depth line).0 ls

-- The lines, each with a newline after it.
unfoldable pub unlines : List Text → Text
unlines [] = []
unlines (s ∷ ls) = s ++ (b'\n' ∷ unlines ls)

-- `Rewrite`, which stops at a line that is too long.
unfoldable pub rewrite : Text → Text
unfolding scan_lines rewrite_lines unlines
rewrite content = unlines (rewrite_lines (pos 0) (scan_lines content).0)
