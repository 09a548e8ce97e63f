-- ===== src/Library/Pool/Tests.antt =====
-- Tests of the pool, and the witnesses of its theorems.
use mathlib.Core.Option.{some_inj}
use mathlib.Core.List.Memᴰ.{head, tail}
use polyseat.Prelude.{
  ◌≡◌, refl, sym, subst, ap, ◌∙◌, inl, inr, Bool, true, false, Option, none, some, List, [], ◌∷◌,
  Bool-cases, arith, if◌then◌else◌,
}
use polyseat.Prelude.Int.{pos}
use polyseat.Prelude.Text.{Text, codes, text_eq}
use polyseat.Prelude.Table.{find, is_some}
use polyseat.Library.Manifest.{App, is_installed}
use polyseat.Library.Pool.{Tree, delivered, declined, State, absent, Member, Env, status}
use polyseat.Library.Pool.Sync.{World, sync, home_of}
use polyseat.Library.Pool.Sync.Homes.{HomeLacks}
use polyseat.Library.Pool.Ahead.{IsWhole, Grown}
use polyseat.Library.Pool.Sound.{IsSound, IsHeld}
use polyseat.Library.Pool.Keyed.{IsKeyed}
use polyseat.Library.Pool.Offers.{IsCalm}
use polyseat.Library.Pool.Sync.Shelves.{Shelf}
use polyseat.Library.Pool.Sync.Serving.{Served}
use polyseat.Library.Pool.Sync.Served.{sync-serves, sync-IsSound}
use polyseat.Library.Pool.Sync.Grown.{sync-Grown}
use polyseat.Library.Pool.Sync.Declined.{sync-declined}

abbrev title : Text → Text → App
title id build = record {
  fields = record {
    app_id = id;
    name = id;
    install_dir = id;
    build_id = build;
    state_flags = pos 4;
    size_on_disk = pos 0;
  };
  content = [];
  mod_time = 0;
}

abbrev tree : Tree
tree = record { bytes = 9; newest = 0; files = codes "files" }

abbrev calm : Env
calm = record {
  now = 1000;
  settle = 120;
  clone_fails = λ w s n. false;
  manifest_fails = λ w s n. false;
  measure_fails = λ n. false;
  is_full_copy = λ n. false;
  common_fails = λ n. false;
  ensure_fails = λ n. false;
  pool_fails = false;
  save_fails = false;
}

abbrev memory : State
memory = record {
  delivered = (codes "ada", (codes "old", declined) ∷ []) ∷ [];
  folders = [];
  sources = [];
  unwatched = [];
  withheld = [];
}

-- The pool has a title; ada declined it, and bea has played a newer build of it and another title.
abbrev world : World
world = record {
  pool = record {
    state = memory;
    apps = (codes "old", title (codes "old") (codes "1")) ∷ [];
    common = (codes "old", tree) ∷ [];
    shared = [];
  };
  homes =
      (
        codes "ada",
        record { steam = some (record { manifests = []; common = some [] }); shared = absent },
      )
      ∷ (
        codes "bea",
        record {
          steam = some (record {
            manifests =
                (codes "old", title (codes "old") (codes "2"))
                ∷ (codes "new", title (codes "new") (codes "1"))
                ∷ [];
            common = some ((codes "old", tree) ∷ (codes "new", tree) ∷ []);
          });
          shared = absent;
        },
      )
      ∷ [];
  libraries = [];
  file = none;
}

abbrev member : Text → Member
member n = record { name = n; is_updatable = true; external_apps = none }

abbrev members : List Member
members = member (codes "ada") ∷ member (codes "bea") ∷ []

new_title_given :
    status (codes "ada") (codes "new") (sync calm members world).0.pool.state ≡ some delivered
unfolding sync status polyseat.Prelude.Decimal.parse_int
new_title_given = refl

ada_declined : status (codes "ada") (codes "old") world.pool.state ≡ some declined
unfolding status
ada_declined = refl

ada_lacks : HomeLacks (codes "old") (home_of (codes "ada") world.homes)
unfolding home_of
ada_lacks x m = elim m [ ]

world_whole : IsWhole world.pool
unfolding find is_some
world_whole id a e = elim (Bool-cases (text_eq (codes "old") id)) [
  | inl h ↦
      subst (λ (b : App). is_some (find b.fields.install_dir world.pool.common) ≡ true)
        {x = title (codes "old") (codes "1")} {y = a} (some_inj.0 (ground arith)) refl
  | inr h ↦ ground arith
]

sync-Grown_example : Grown world.pool (sync calm members world).0.pool
sync-Grown_example = sync-Grown calm members world world_whole

sync-declined_example :
    (status (codes "ada") (codes "old") (sync calm members world).0.pool.state ≡ some declined)
    × HomeLacks (codes "old") (home_of (codes "ada") (sync calm members world).0.homes)
sync-declined_example =
    sync-declined calm members world (codes "ada") (codes "old") ada_declined ada_lacks

calm_calls : IsCalm calm
calm_calls = (λ w s n. refl, λ w s n. refl, λ n. refl)

world-IsSound : IsSound world.pool
unfolding is_installed find is_some
world-IsSound x (head e) =
    subst (λ (y : Text × App). IsHeld world.pool y.0 y.1) (sym e) (refl, refl, refl)
world-IsSound x (tail r) = elim r [ ]

ada-IsKeyed : Shelf IsKeyed (home_of (codes "ada") world.homes).steam
unfolding home_of
ada-IsKeyed x m = elim m [ ]

pool_has_new :
    find (codes "new") (sync calm members world).0.pool.apps
    ≡ some (record (title (codes "new") (codes "1")) { mod_time = 1000 })
unfolding sync find polyseat.Prelude.Decimal.parse_int
pool_has_new = refl

sync-serves_example :
    Served
      (codes "ada")
      (codes "new")
      (home_of (codes "ada") (sync calm members world).0.homes)
      (sync calm members world).0.pool
sync-serves_example =
    sync-serves calm members world (member (codes "ada")) (codes "new")
      (record (title (codes "new") (codes "1")) { mod_time = 1000 }) calm_calls refl refl
      world-IsSound (head refl) ada-IsKeyed pool_has_new

sync-IsSound_example : IsSound (sync calm members world).0.pool
sync-IsSound_example = sync-IsSound calm members world world-IsSound
