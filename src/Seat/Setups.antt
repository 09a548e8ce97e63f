-- ===== src/Seat/Setups.antt =====
-- internal/seat/foldersetup.go: which setup scripts are allowed, and which wait to run where. A call
-- that holds `mu` is one step; the maps' iteration order is the order of the lists.
pub mod Kept
pub mod Granted
pub mod Due
pub mod Unapproved
pub mod Runs
mod Tests
use polyseat.Prelude.{
  ℕ, Bool, true, false, ◌&&◌, not, Option, none, some, List, [], ◌∷◌, ◌++◌, String, ◌==◌, str_eq,
  Result, ok, err, if◌then◌else◌,
}
use polyseat.Library.Folder.{Folder}
use polyseat.Prelude.Dict.{Dict, lookup, insert, remove}

pub record Approval : Type 0 where
  pub script : String
  pub version : Folder

pub record State : Type 0 where
  pub approved : Dict Approval
  pub pending : Dict (Dict Folder)

-- The state in memory and what the file holds; a store with no path is kept in memory only. The
-- temporary file beside it is never read, and left out.
pub record Setups : Type 0 where
  pub on_disk : Bool
  pub state : State
  pub file : Option State

pub data Error : Type 0 where
  unreadable garbled disk : Error

-- What reading the file at the start gives: the keys that the JSON text has.
pub data Contents : Type 0 where
  missing broken nonsense : Contents
  found : Option (Dict Approval) → Option (Dict (Dict Folder)) → Contents

-- Which of the two system calls of `save` fail.
pub record Faults : Type 0 where
  pub write : Bool
  pub rename : Bool

unfoldable pub same_version : Folder → Folder → Bool
same_version a b = a.bytes == b.bytes && a.newest == b.newest

abbrev pub nothing : State
nothing = record { approved = []; pending = [] }

abbrev or_empty {ℓ} : {A : Type ℓ} → Option (List A) → List A
or_empty none = []
or_empty (some xs) = xs

-- `openSetups`, with whether there is a path.
unfoldable pub open_setups : Bool → Contents → Setups × Result Error Unit
open_setups false c = (record { on_disk = false; state = nothing; file = none }, ok tt)
open_setups true missing = (record { on_disk = true; state = nothing; file = none }, ok tt)
open_setups true broken = (record { on_disk = true; state = nothing; file = none }, err unreadable)
open_setups true nonsense = (record { on_disk = true; state = nothing; file = none }, err garbled)
open_setups true (found a p) =
    let state : State = record { approved = or_empty a; pending = or_empty p } in
    (record { on_disk = true; state = state; file = some state }, ok tt)

unfoldable pub save : Faults → Setups → Setups × Result Error Unit
save f s =
    if not s.on_disk
    then (s, ok tt)
    else if f.write
    then (s, err disk)
    else if f.rename
    then (s, err disk)
    else (record s { file = some s.state }, ok tt)

-- `m[k]` on a map of maps, where a missing key is a nil map.
unfoldable pub folders_of : String → Dict (Dict Folder) → Dict Folder
unfolding lookup
folders_of member pending = elim (lookup member pending) [ none ↦ [] | some fs ↦ fs ]

-- Whether what is approved for a folder is this version.
unfoldable pub allowed : Option Approval → Folder → Bool
unfolding same_version
allowed none v = false
allowed (some a) v = same_version a.version v

-- `delete(s.state.Pending[member], name)`, and the member with it when nothing is left.
unfoldable pub take_out : String → Dict Folder → String → Dict (Dict Folder) → Dict (Dict Folder)
unfolding remove insert
take_out member fs name pending = elim (remove name fs) [
  | [] ↦ remove member pending
  | f ∷ rest ↦ insert member (f ∷ rest) pending
]

unfoldable pub expect :
    Faults → String → String → Folder → Setups → Setups × Bool × Result Error Unit
unfolding save folders_of allowed insert lookup
expect f member name version s =
    let fs = insert name version (folders_of member s.state.pending) in
    let grown = record s {
      state = record s.state { pending = insert member fs s.state.pending };
    } in
    let saved = save f grown in (saved.0, allowed (lookup name s.state.approved) version, saved.1)

unfoldable pub drop : Faults → String → String → Setups → Setups × Result Error Unit
unfolding save folders_of take_out lookup
drop f member name s =
    let fs = folders_of member s.state.pending in
    elim (lookup name fs) [
      | none ↦ (s, ok tt)
      | some _ ↦ save f (record s {
        state = record s.state { pending = take_out member fs name s.state.pending };
      })
    ]

-- The loop of `forget` over the members.
unfoldable pub without : String → Dict (Dict Folder) → Dict (Dict Folder)
unfolding remove
without name [] = []
without name ((member, fs) ∷ pending) =
    let rest = without name pending in
    elim (remove name fs) [ [] ↦ rest | f ∷ left ↦ (member, f ∷ left) ∷ rest ]

unfoldable pub forget : Faults → String → Setups → Setups × Result Error Unit
unfolding save without remove
forget f name s = save f (record s {
  state = record {
    approved = remove name s.state.approved;
    pending = without name s.state.pending;
  };
})

unfoldable pub approve : Faults → String → String → Folder → Setups → Setups × Result Error Unit
unfolding save insert
approve f name script version s = save f (record s {
  state = record s.state {
    approved = insert name (record { script = script; version = version }) s.state.approved;
  };
})

unfoldable pub is_approved : String → String → Folder → Setups → Bool
unfolding same_version lookup
is_approved name script version s = elim (lookup name s.state.approved) [
  | none ↦ false
  | some a ↦ str_eq a.script script && same_version a.version version
]
