-- ===== src/Library/Manifest/Rewrite/Whole.antt =====
-- internal/library/steam.go, `Rewrite`: what a copy is read as.
use polyseat.Prelude.{◌<◌, List, [], ◌∷◌}
use polyseat.Prelude.Int.{pos}
use polyseat.Prelude.Text.{Text, Free}
use polyseat.Library.Manifest.{byte_count, Map, read_lines, scan_lines, max_token}

-- Each line is short enough for the scanner, and has no newline in it.
abbrev pub AllShort : List Text → Type 0
AllShort [] = Unit {0}
AllShort (s ∷ ls) = (byte_count s < max_token) × AllShort ls

abbrev pub AllFree : List Text → Type 0
AllFree [] = Unit {0}
AllFree (s ∷ ls) = Free b'\n' s × AllFree ls

-- The fields that a manifest has.
unfoldable pub fields_of : Text → Map
unfolding read_lines scan_lines
fields_of content = (read_lines (pos 0, []) (scan_lines content).0).1
