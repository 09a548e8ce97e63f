-- ===== src/Update/Check/Tests.antt =====
-- internal/update/update.go, the checker: answers of GitHub, and uses of the theorems.
use polyseat.Prelude.{◌≡◌, refl, true, false, none, some, List, [], ◌∷◌}
use polyseat.Prelude.Text.{codes}
use polyseat.Update.Check.{
  Asset, Listed, Body, no_answer, answer, Checker, Call, ticks, asks, run, pick_asset,
}
use polyseat.Update.Check.Kept.{IsKept, run-IsKept}

abbrev deb : Asset
deb = record { name = "polyseat_amd64.deb"; url = "https://github.com/"; digest = []; size = 5 }

abbrev arch : Asset
arch = record deb { name = "polyseat-x86_64.pkg.tar.zst" }

-- The package for Debian is listed twice, and the first time it is still arriving.
abbrev listed : List Listed
listed =
    record { asset = deb; state = "starter" }
    ∷ record { asset = arch; state = "uploaded" }
    ∷ record { asset = deb; state = "uploaded" }
    ∷ []

picks_arch : pick_asset "polyseat-x86_64.pkg.tar.zst" listed ≡ some arch
unfolding pick_asset
picks_arch = refl

picks_nothing : pick_asset "" listed ≡ none
unfolding pick_asset
picks_nothing = refl

abbrev body : Body
body = record {
  tag_name = codes "v0.10.0";
  html_url = "https://github.com/";
  draft = false;
  prerelease = false;
  assets = listed;
}

abbrev checker : Checker
checker = record {
  current = codes "v0.9.12";
  enabled = true;
  asset = "polyseat_amd64.deb";
  latest = none;
  checked = none;
}

abbrev calls : List Call
calls = ticks 60 no_answer ∷ asks 90 (answer 200 (some body)) ∷ ticks 21660 (answer 500 none) ∷ []

run-IsKept_example : IsKept (codes "v0.9.12") "polyseat_amd64.deb" (run checker calls)
run-IsKept_example =
    run-IsKept checker calls (record { same_build = refl; same_asset = refl; offers = tt })
