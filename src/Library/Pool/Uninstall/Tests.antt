-- ===== src/Library/Pool/Uninstall/Tests.antt =====
-- Tests of uninstalling, and the witnesses of its theorems.
use mathlib.Core.List.Memᴰ.{head}
use polyseat.Prelude.{◌≡◌, refl, Bool, true, false, none, some, [], ◌∷◌}
use polyseat.Prelude.Int.{pos}
use polyseat.Prelude.Text.{codes}
use polyseat.Prelude.Table.{find}
use polyseat.Library.Manifest.{App}
use polyseat.Library.Pool.{Tree, delivered, Steam, absent, Member, Env}
use polyseat.Library.Pool.Sync.{World, home_of}
use polyseat.Library.Pool.Uninstall.{Faults, uninstall}
use polyseat.Library.Pool.Uninstall.Refused.{InUse, IsRefused, uninstall-InUse}
use polyseat.Library.Pool.Uninstall.Gone.{passes, uninstall-passes}

abbrev game : App
game = record {
  fields = record {
    app_id = codes "7";
    name = codes "Game";
    install_dir = codes "game";
    build_id = codes "1";
    state_flags = pos 4;
    size_on_disk = pos 0;
  };
  content = [];
  mod_time = 0;
}

abbrev tree : Tree
tree = record { bytes = 9; newest = 0; files = codes "files" }

abbrev library : Steam
library = record { manifests = (codes "7", game) ∷ []; common = some ((codes "game", tree) ∷ []) }

abbrev world : World
world = record {
  pool = record {
    state = record {
      delivered = (codes "ada", (codes "7", delivered) ∷ []) ∷ [];
      folders = [];
      sources = [];
      unwatched = [];
      withheld = [];
    };
    apps = (codes "7", game) ∷ [];
    common = (codes "game", tree) ∷ [];
    shared = [];
  };
  homes = (codes "ada", record { steam = some library; shared = absent }) ∷ [];
  libraries = [];
  file = none;
}

abbrev ada : Bool → Member
ada updatable = record { name = codes "ada"; is_updatable = updatable; external_apps = none }

abbrev smooth : Faults
smooth = record {
  manifest_stays = λ n. false;
  files_stay = λ n. false;
  pool_manifest_garbled = false;
  pool_manifest_stays = false;
  pool_files_stay = false;
  save_fails = false;
}

abbrev calm : Env
calm = record {
  now = 1000;
  settle = 120;
  clone_fails = λ w s n. false;
  manifest_fails = λ w s n. false;
  measure_fails = λ n. false;
  is_full_copy = λ n. false;
  common_fails = λ n. false;
  ensure_fails = λ n. false;
  pool_fails = false;
  save_fails = false;
}

ada_uses_it : InUse (codes "7") world.homes (ada false)
unfolding home_of find
ada_uses_it = (refl, (library, refl, (game, refl)))

uninstall-InUse_example : IsRefused world (uninstall smooth (codes "7") (ada false ∷ []) world)
uninstall-InUse_example =
    uninstall-InUse smooth (codes "7") (ada false ∷ []) world (ada false) (head refl) ada_uses_it

pool_has_it : find (codes "7") world.pool.apps ≡ some game
unfolding find
pool_has_it = refl

uninstalled : (uninstall smooth (codes "7") (ada true ∷ []) world).2 ≡ none
unfolding uninstall
uninstalled = refl

pool_has_it_no_more :
    find (codes "7") (uninstall smooth (codes "7") (ada true ∷ []) world).0.pool.apps ≡ none
unfolding uninstall find
pool_has_it_no_more = refl

uninstall-passes_example :
    find
      (codes "7")
      (passes
        ((calm, ada true ∷ []) ∷ [])
        (uninstall smooth (codes "7") (ada true ∷ []) world).0).pool.apps
    ≡ none
uninstall-passes_example =
    uninstall-passes smooth (codes "7") (ada true ∷ []) world game ((calm, ada true ∷ []) ∷ [])
      pool_has_it refl refl uninstalled
