-- ===== src/Library/Pool/Sync.antt =====
-- internal/library/pool.go: one pass over the libraries, `Sync`.
pub mod Declined
pub mod Served
pub mod Serving
pub mod Shelves
pub mod Grown
pub mod Homes
pub mod Whole
pub mod Offered
pub mod Kept
use polyseat.Prelude.{
  Bool, true, false, ◌&&◌, ◌||◌, not, Option, none, some, List, [], ◌∷◌, ◌++◌, if◌then◌else◌,
}
use polyseat.Prelude.Text.{Text, codes, text_eq}
use polyseat.Prelude.Table.{Table, find, put}
use polyseat.Library.Folder.{Folder}
use polyseat.Library.Manifest.{App}
use polyseat.Library.Pool.{
  Tree, State, Steam, Pool, Shared, absent, broken, holds, Home, Member, Problem, failed, Report,
  Env, read_apps, Done, sweep,
}
use polyseat.Library.Pool.Harvest.{Pass, harvest_from, harvest, harvest_folders}
use polyseat.Library.Pool.Distribute.{Giving, distribute, distribute_folders}

-- All that a pass reads and writes: the pool, the members' directories by name, the libraries that are
-- only read, by path, and what the file holds.
pub record World : Type 0 where
  pub pool : Pool
  pub homes : Table Home
  pub libraries : Table Steam
  pub file : Option State

-- What the loops of a pass change: the scans are those of the members' folders.
pub record Round : Type 0 where
  pub pass : Pass
  pub homes : Table Home
  pub scans : Table (List Folder)

abbrev pub blank : Report
blank = record { harvested = []; given = []; refused = []; problems = []; pending = [] }

abbrev no_home : Home
no_home = record { steam = none; shared = absent }

unfoldable pub home_of : Text → Table Home → Home
unfolding find
home_of name homes = elim (find name homes) [ none ↦ no_home | some h ↦ h ]

unfoldable pub is_joined : Text → List Member → Bool
is_joined source [] = false
is_joined source (m ∷ ms) =
    (elim m.external_apps [ none ↦ false | some apps ↦ text_eq apps source ]) || is_joined source ms

-- `report.Problems = append(…)` where a call failed.
abbrev pub noting : Text → Done Pass → Pass
noting who (s, false) = s
noting who (s, true) = record s {
  report = record s.report { problems = s.report.problems ++ failed who ∷ [] };
}

-- One round over the tracked libraries.
unfoldable pub harvest_source : Env → List Member → Table Steam → Text → Pass → Pass
unfolding is_joined find harvest_from
harvest_source e members libraries source s =
    if is_joined source members then s else elim (find source libraries) [
      | none ↦ noting source (s, true)
      | some lib ↦ noting source (harvest_from e (codes "host") lib s)
    ]

abbrev pub with_common : Option Steam → Option Steam
with_common none = some (record { manifests = []; common = some [] })
with_common (some lib) =
    some (record lib { common = elim lib.common [ none ↦ some [] | some trees ↦ some trees ] })

abbrev with_folders : Shared → Shared
with_folders absent = holds []
with_folders broken = broken
with_folders (holds trees) = holds trees

-- `Ensure`, where it goes through.
unfoldable pub ensured : Member → Home → Home
ensured m h = elim m.external_apps [
  | none ↦ record { steam = with_common h.steam; shared = with_folders h.shared }
  | some apps ↦ h
]

-- The members that take part, and the rest as problems.
unfoldable pub ready : Env → List Member → List Member
ready e [] = []
ready e (m ∷ ms) = if e.ensure_fails m.name then ready e ms else m ∷ ready e ms

unfoldable pub ensure_member : Env → Member → Round → Round
unfolding ensured home_of put
ensure_member e m r =
    if e.ensure_fails m.name
    then record r { pass = noting m.name (r.pass, true) }
    else record r { homes = put m.name (ensured m (home_of m.name r.homes)) r.homes }

unfoldable pub harvest_member : Env → Member → Round → Round
unfolding harvest home_of
harvest_member e m r = record r {
  pass = noting m.name (harvest e m (home_of m.name r.homes).steam r.pass);
}

abbrev scanned : Text → Option (List Folder) → Table (List Folder) → Table (List Folder)
scanned name none scans = scans
scanned name (some fs) scans = put name fs scans

unfoldable pub harvest_member_folders : Env → Member → Round → Round
unfolding harvest_folders home_of put
harvest_member_folders e m r =
    let (done, found) = harvest_folders e m (home_of m.name r.homes).shared r.pass in
    record r { pass = noting m.name done; scans = scanned m.name found r.scans }

abbrev give_home : Text → Home → Done (Giving Steam) → Round → Round
give_home name h (g, bad) r = record r {
  pass = noting name (g.pass, bad);
  homes = put name (record h { steam = some g.home }) r.homes;
}

-- The first half of a round of the last loop.
unfoldable pub distribute_member : Env → List App → Member → Round → Round
unfolding distribute home_of put
distribute_member e pool m r =
    let h = home_of m.name r.homes in
    elim h.steam [
      | none ↦ record r { pass = noting m.name (r.pass, true) }
      | some lib ↦ give_home m.name h (distribute e m pool lib r.pass) r
    ]

abbrev give_shared : Text → Home → Done (Giving (Table Tree)) → Round → Round
give_shared name h (g, bad) r = record r {
  pass = noting name (g.pass, bad);
  homes = put name (record h { shared = holds g.home }) r.homes;
}

unfoldable pub distribute_shared : Env → List Folder → Member → Home → Shared → Round → Round
unfolding distribute_folders put
distribute_shared e before m h absent r = r
distribute_shared e before m h broken r = record r { pass = noting m.name (r.pass, true) }
distribute_shared e before m h (holds trees) r =
    give_shared m.name h (distribute_folders e m before trees r.pass) r

-- The second half.
unfoldable pub distribute_member_folders : Env → Member → Round → Round
unfolding distribute_shared home_of find
distribute_member_folders e m r =
    let h = home_of m.name r.homes in
    elim (find m.name r.scans) [
      | none ↦ r
      | some before ↦ distribute_shared e before m h h.shared r
    ]

unfoldable pub distribute_both : Env → List App → Member → Round → Round
unfolding distribute_member distribute_member_folders
distribute_both e pool m r = distribute_member_folders e m (distribute_member e pool m r)

-- The loops before the pool is read.
unfoldable pub collect : Env → List Member → World → Round
unfolding harvest_source ensure_member harvest_member ready sweep
collect e members w =
    let sourced =
      sweep (harvest_source e members w.libraries) w.pool.state.sources
        (record { pool = w.pool; report = blank }) in
    let prepared =
      sweep (ensure_member e) members (record { pass = sourced; homes = w.homes; scans = [] }) in
    sweep (harvest_member e) (ready e members) prepared

-- The loops after it.
unfoldable pub hand_out : Env → List Member → List App → Round → Round
unfolding harvest_member_folders distribute_both sweep
hand_out e members pool r =
    sweep (distribute_both e pool) members (sweep (harvest_member_folders e) members r)

abbrev ended : Env → World → Round → World × Report × Bool
ended e w r = (
  record w {
    pool = r.pass.pool;
    homes = r.homes;
    file = if e.save_fails then w.file else some r.pass.pool.state;
  },
  r.pass.report,
  e.save_fails,
)

-- `Sync`, with whether it returns an error.
unfoldable pub sync : Env → List Member → World → World × Report × Bool
unfolding collect hand_out read_apps ready
sync e members w =
    let r = collect e members w in
    if e.pool_fails
    then (record w { pool = r.pass.pool; homes = r.homes }, r.pass.report, true)
    else ended e w (hand_out e (ready e members) (read_apps r.pass.pool.apps) r)
