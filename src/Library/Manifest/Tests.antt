-- ===== src/Library/Manifest/Tests.antt =====
-- Tests of the manifests, and the witnesses of their theorems.
use polyseat.Prelude.{◌≡◌, refl, inl, inr, Bool, true, false, List, ◌∷◌, ◌++◌, err, map}
use polyseat.Prelude.Int.{pos}
use polyseat.Prelude.Text.{Text, codes}
use polyseat.Library.Manifest.{Fields, value, newer_build, is_safe_name}
use polyseat.Library.Manifest.Rewrite.{rewrite}
use polyseat.Library.Manifest.Rewrite.Whole.{fields_of}

-- A manifest of a game that somebody has played.
abbrev played : Text
played =
    codes
      "\"AppState\"\n{\n\t\"appid\"\t\t\"7\"\n\t\"name\"\t\t\"A\"\n\t\"installdir\"\t\t\"B\"\n\t\"buildid\"\t\t\"5\"\n\t\"LastOwner\"\t\t\"99\"\n}"

abbrev game : Fields
game = record {
  app_id = codes "7";
  name = codes "A";
  install_dir = codes "B";
  build_id = codes "5";
  state_flags = pos 0;
  size_on_disk = pos 0;
}

no_owner : value (codes "lastowner") (fields_of (rewrite played)) ≡ codes "0"
unfolding value fields_of rewrite
no_owner = refl

newer_by_number : newer_build (codes "10") (codes "9") ≡ true
unfolding newer_build polyseat.Prelude.Decimal.parse_int
newer_by_number = refl

hidden_name : is_safe_name (codes ".steam") ≡ false
unfolding is_safe_name
hidden_name = refl
