-- ===== src/Seat/Setups/Runs.antt =====
-- internal/seat/foldersetup.go: the lists of runs, those that may go and those that wait for somebody.
use polyseat.Prelude.{
  Bool, not, none, some, List, [], ◌∷◌, ◌++◌, String, str_eq, if◌then◌else◌, map,
}
use polyseat.Prelude.Text.{codes}
use polyseat.Prelude.Sort.{text_lt, sort_by}
use polyseat.Prelude.Dict.{Dict, lookup, insert}
use polyseat.Library.Folder.{Folder}
use polyseat.Seat.Setups.{Approval, Setups, allowed}

-- One pending run, as the worker sees it.
pub record Waiting : Type 0 where
  pub member : String
  pub folder : String
  pub version : Folder

-- The order of `due`: by member, then by folder.
unfoldable pub waits_before : Waiting → Waiting → Bool
unfolding text_lt
waits_before a b =
    if not (str_eq a.member b.member)
    then text_lt (codes a.member) (codes b.member)
    else text_lt (codes a.folder) (codes b.folder)

-- The inner loops of `due` and `unapproved`: the folders of one member whose version is allowed.
unfoldable pub due_of : Dict Approval → String → Dict Folder → List Waiting
unfolding allowed lookup
due_of approved member [] = []
due_of approved member ((name, version) ∷ fs) =
    let rest = due_of approved member fs in
    if allowed (lookup name approved) version
    then record { member = member; folder = name; version = version } ∷ rest
    else rest

unfoldable pub due_all : Dict Approval → Dict (Dict Folder) → List Waiting
unfolding due_of
due_all approved [] = []
due_all approved ((member, fs) ∷ pending) = due_of approved member fs ++ due_all approved pending

-- The scripts that `due` returns beside the runs, by folder.
unfoldable pub scripts_of : Dict Approval → List Waiting → Dict String
unfolding lookup insert
scripts_of approved [] = []
scripts_of approved (w ∷ ws) = elim (lookup w.folder approved) [
  | none ↦ scripts_of approved ws
  | some a ↦ insert w.folder a.script (scripts_of approved ws)
]

unfoldable pub due : Setups → List Waiting × Dict String
unfolding due_all sort_by waits_before scripts_of
due s =
    let out = due_all s.state.approved s.state.pending in
    (sort_by waits_before out, scripts_of s.state.approved out)

-- `out[name] = append(out[name], member)`
unfoldable pub append_member : String → String → Dict (List String) → Dict (List String)
unfolding lookup insert
append_member name member out = elim (lookup name out) [
  | none ↦ insert name (member ∷ []) out
  | some ms ↦ insert name (ms ++ (member ∷ [])) out
]

unfoldable pub unapproved_of :
    Dict Approval → String → Dict Folder → Dict (List String) → Dict (List String)
unfolding allowed lookup append_member
unapproved_of approved member [] out = out
unapproved_of approved member ((name, version) ∷ fs) out =
    unapproved_of approved member fs
      (if allowed (lookup name approved) version then out else append_member name member out)

unfoldable pub unapproved_all :
    Dict Approval → Dict (Dict Folder) → Dict (List String) → Dict (List String)
unfolding unapproved_of
unapproved_all approved [] out = out
unapproved_all approved ((member, fs) ∷ pending) out =
    unapproved_all approved pending (unapproved_of approved member fs out)

-- `sort.Strings`
unfoldable pub sort_strings : List String → List String
unfolding sort_by text_lt
sort_strings = sort_by (λ a b. text_lt (codes a) (codes b))

unfoldable pub unapproved : Setups → Dict (List String)
unfolding unapproved_all sort_strings
unapproved s =
    map (λ e. (e.0, sort_strings e.1)) (unapproved_all s.state.approved s.state.pending [])
