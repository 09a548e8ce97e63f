-- ===== src/Library/Pool/Sources/Tests.antt =====
-- Tests of the tracked libraries, and the witness of their theorem.
use polyseat.Prelude.{arith, ◌≡◌, refl, true, false, none, some, [], ◌∷◌}
use polyseat.Prelude.Text.{codes}
use polyseat.Library.Pool.{State, Pool, Env}
use polyseat.Library.Pool.Sync.{World}
use polyseat.Library.Pool.Sources.{add_source, remove_source}
use polyseat.Library.Pool.Sources.Apart.{IsDisjoint, add, remove, requests, requests-IsDisjoint}

abbrev calm : Env
calm = record {
  now = 1000;
  settle = 120;
  clone_fails = λ w s n. false;
  manifest_fails = λ w s n. false;
  measure_fails = λ n. false;
  is_full_copy = λ n. false;
  common_fails = λ n. false;
  ensure_fails = λ n. false;
  pool_fails = false;
  save_fails = false;
}

abbrev world : World
world = record {
  pool = record {
    state = record {
      delivered = [];
      folders = [];
      sources = codes "/home/ada/steam" ∷ [];
      unwatched = [];
      withheld = [];
    };
    apps = [];
    common = [];
    shared = [];
  };
  homes = [];
  libraries = (codes "/games", record { manifests = []; common = none }) ∷ [];
  file = none;
}

added :
    (add_source calm (codes "/pool") (some (codes "/games")) world).0.pool.state.sources
    ≡ codes "/games" ∷ codes "/home/ada/steam" ∷ []
unfolding add_source
added = refl

not_the_pool : (add_source calm (codes "/pool") (some (codes "/pool/seats")) world).1 ≡ true
unfolding add_source
not_the_pool = refl

world-IsDisjoint : IsDisjoint world.pool.state
unfolding polyseat.Library.Pool.Sources.has
world-IsDisjoint x = ground arith

requests-IsDisjoint_example :
    IsDisjoint
      (requests
        (codes "/pool")
        (remove calm (codes "/games") ∷ add calm (some (codes "/games")) ∷ [])
        world).pool.state
requests-IsDisjoint_example =
    requests-IsDisjoint (codes "/pool")
      (remove calm (codes "/games") ∷ add calm (some (codes "/games")) ∷ []) world world-IsDisjoint
