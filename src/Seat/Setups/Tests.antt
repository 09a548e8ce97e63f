-- ===== src/Seat/Setups/Tests.antt =====
-- Tests of the setups, and the witnesses of their theorems.
use mathlib.Core.List.{Memᴰ}
use mathlib.Core.List.Memᴰ.{head}
use polyseat.Prelude.{◌≡◌, ◌↔◌, refl, true, false, none, some, List, [], ◌∷◌}
use polyseat.Prelude.Text.{codes}
use polyseat.Prelude.Dict.{Dict, lookup}
use polyseat.Library.Folder.{Folder}
use polyseat.Seat.Setups.{Approval, Setups, Faults, nothing, same_version, allowed, is_approved}
use polyseat.Seat.Setups.Runs.{Waiting, due, unapproved}
use polyseat.Seat.Setups.Unapproved.{members_of, unapproved_iff}
use polyseat.Seat.Setups.Kept.{Call, expects, approves, run, IsTidy, run-IsTidy}
use polyseat.Seat.Setups.Granted.{WasApproved, is_approved-WasApproved}
use polyseat.Seat.Setups.Due.{due_iff, due-WasApproved}

abbrev fresh : Setups
fresh = record { on_disk = true; state = nothing; file = none }

abbrev fine : Faults
fine = record { write = false; rename = false }

abbrev first_copy : Folder
first_copy = record { name = codes "game"; bytes = 100; newest = 7 }

abbrev newer_copy : Folder
newer_copy = record { name = codes "game"; bytes = 100; newest = 8 }

abbrev approved_once : List Call
approved_once =
    expects fine "vince" "game" first_copy
    ∷ expects fine "anna" "game" newer_copy
    ∷ approves fine "game" "abc" first_copy
    ∷ []

abbrev vinces : Waiting
vinces = record { member = "vince"; folder = "game"; version = first_copy }

vinces-due : (due (run fresh approved_once)).0 ≡ vinces ∷ []
unfolding due run
vinces-due = refl

fresh-IsTidy : IsTidy fresh.state
fresh-IsTidy = record { approved = tt; pending = tt; filled = tt }

run-IsTidy_example : IsTidy (run fresh approved_once).state
run-IsTidy_example = run-IsTidy fresh approved_once fresh-IsTidy

due_iff_example : Memᴰ vinces (due (run fresh approved_once)).0 ↔ (
    (fs : Dict Folder) × (lookup "vince" (run fresh approved_once).state.pending ≡ some fs)
    × (lookup "game" fs ≡ some first_copy)
    × (allowed (lookup "game" (run fresh approved_once).state.approved) first_copy ≡ true))
due_iff_example = due_iff (run fresh approved_once) vinces run-IsTidy_example

vinces-Mem : Memᴰ vinces (due (run fresh approved_once)).0
unfolding due run
vinces-Mem = head refl

due-WasApproved_example :
    (a : Approval) × WasApproved "game" a approved_once
    × (same_version a.version first_copy ≡ true)
    × (lookup "game" (due (run fresh approved_once)).1 ≡ some a.script)
due-WasApproved_example = due-WasApproved fresh approved_once vinces refl vinces-Mem

once-approved : is_approved "game" "abc" first_copy (run fresh approved_once) ≡ true
unfolding is_approved run
once-approved = refl

fresh-none : lookup "game" fresh.state.approved ≡ none
unfolding lookup
fresh-none = refl

is_approved-WasApproved_example :
    (a : Approval) × WasApproved "game" a approved_once
    × (a.script ≡ "abc")
    × (same_version a.version first_copy ≡ true)
is_approved-WasApproved_example =
    is_approved-WasApproved "game" "abc" first_copy fresh approved_once fresh-none once-approved

unapproved_iff_example : Memᴰ "anna" (members_of "game" (unapproved (run fresh approved_once))) ↔ (
    (fs : Dict Folder) × (v : Folder) × (lookup "anna" (run fresh approved_once).state.pending
      ≡ some fs)
    × (lookup "game" fs ≡ some v)
    × (allowed (lookup "game" (run fresh approved_once).state.approved) v ≡ false))
unapproved_iff_example = unapproved_iff (run fresh approved_once) "game" "anna" run-IsTidy_example

annas-unapproved : unapproved (run fresh approved_once) ≡ ("game", "anna" ∷ []) ∷ []
unfolding unapproved run
annas-unapproved = refl
