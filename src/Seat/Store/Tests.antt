-- ===== src/Seat/Store/Tests.antt =====
-- Tests of the store, and the witnesses of its theorems.
use polyseat.Prelude.{◌≡◌, refl, Bool, true, false, [], ◌∷◌, ok, err}
use polyseat.Prelude.Int.{pos}
use polyseat.Prelude.Text.{Text, codes, text_eq, Free}
use polyseat.Seat.Record.{Seat, matches_name}
use polyseat.Seat.Store.{
  Disk, missing, bad_name, Faults, whole, cut_short, path, get, put, delete, list_seats,
}
use polyseat.Seat.Store.Kept.{Outcome, put-Outcome, delete-get, path-Free}

abbrev named : Text → Seat
named name = record {
  name = name;
  label = [];
  autostart = true;
  resolution = codes "1920x1080@60Hz";
  address = [];
  gateway = [];
  library = true;
  isolated = false;
  no_ge_proton = false;
  pointer_speed = pos 0;
  player_uid = pos 0;
  provisioned = 0;
  schema = 0;
  created = 7;
}

abbrev fine : Faults
fine = record { write = whole; rename = false }

abbrev torn_write : Faults
torn_write = record { write = cut_short; rename = false }

abbrev one_seat : Disk
one_seat = (put fine (named (codes "vince")) []).0

listed : list_seats (λ s. false) one_seat ≡ ok (record (named (codes "vince")) { schema = 1 } ∷ [])
unfolding list_seats put
listed = refl

put-Outcome_example :
    Outcome (named (codes "anna")) one_seat (put torn_write (named (codes "anna")) one_seat)
put-Outcome_example = put-Outcome torn_write (named (codes "anna")) one_seat

vince_name : matches_name (codes "vince") ≡ true
unfolding matches_name
vince_name = refl

delete-get_example :
    ((delete false (codes "vince") one_seat).1 ≡ ok tt)
    × ((u : Bool) → get u (codes "vince") (delete false (codes "vince") one_seat).0 ≡ err missing)
    × ((u : Bool) (other : Text)
        → text_eq (codes "vince") other ≡ false
        → get u other (delete false (codes "vince") one_seat).0 ≡ get u other one_seat)
delete-get_example = delete-get (codes "vince") one_seat vince_name

abbrev outside : Text
outside = codes "../secrets/vince"

outside_refused : path outside ≡ err bad_name
unfolding path
outside_refused = refl

vince_path : path (codes "vince") ≡ ok (codes "vince.json")
unfolding path
vince_path = refl

path-Free_example : Free b'/' (codes "vince.json")
path-Free_example = path-Free (codes "vince") (codes "vince.json") vince_path
