-- ===== src/Seat/Store.antt =====
-- internal/seat/seat.go: the store of seats, one file per seat. The disk is the entries of the seats
-- directory, by file name and in the order of `os.ReadDir`; there is no directory among them.
pub mod Reads
pub mod Kept
mod Tests
use polyseat.Prelude.{
  ℕ, Bool, true, false, not, Option, none, some, List, [], ◌∷◌, ◌++◌, Result, ok, err, ltb,
  if◌then◌else◌, length, drop, ◌-◌, ◌>>=◌, leb, ◌&&◌,
}
use polyseat.Prelude.Text.{Text, codes, text_eq}
use polyseat.Prelude.Sort.{text_lt, sort_by}
use polyseat.Seat.Record.{Seat, matches_name, record_schema}

-- What a file holds: the JSON text of a record, or something else.
pub data File : Type 0 where
  holds : Seat → File
  torn : File

abbrev pub Disk : Type 0
Disk = List (Text × File)

pub data Error : Type 0 where
  bad_name missing garbled newer_schema disk : Error

-- How far `os.WriteFile` comes.
pub data Written : Type 0 where
  whole cut_short untouched : Written

pub record Faults : Type 0 where
  pub write : Written
  pub rename : Bool

unfoldable pub read : Text → Disk → Option File
read p [] = none
read p ((q, f) ∷ d) = let rest = read p d in if text_eq q p then some f else rest

unfoldable pub put_file : Text → File → Disk → Disk
put_file p f [] = (p, f) ∷ []
put_file p f ((q, g) ∷ d) =
    let rest = put_file p f d in if text_eq q p then (p, f) ∷ d else (q, g) ∷ rest

unfoldable pub remove_file : Text → Disk → Disk
remove_file p [] = []
remove_file p ((q, g) ∷ d) =
    let rest = remove_file p d in if text_eq q p then rest else (q, g) ∷ rest

unfoldable pub check_name : Text → Result Error Unit
unfolding matches_name
check_name name = if not (matches_name name) then err bad_name else ok tt

unfoldable pub path : Text → Result Error Text
unfolding check_name
path name = check_name name >>= λ _. ok (name ++ codes ".json")

-- `load`, with whether `os.ReadFile` fails on a file that is there.
unfoldable pub load : Bool → Text → Disk → Result Error Seat
unfolding read
load unreadable p d = elim (read p d) [
  | none ↦ err missing
  | some f ↦ if unreadable then err disk else elim f [
    | torn ↦ err garbled
    | holds seat ↦ if ltb record_schema seat.schema then err newer_schema else ok seat
  ]
]

unfoldable pub get : Bool → Text → Disk → Result Error Seat
unfolding path load
get unreadable name d = path name >>= λ p. load unreadable p d

-- `os.Rename` of a file that was just written.
unfoldable pub move : Text → Text → File → Disk → Disk
unfolding put_file remove_file
move from to f d = put_file to f (remove_file from d)

-- The write of `Put`, at its path.
unfoldable pub write : Faults → Text → File → Disk → Disk × Result Error Unit
unfolding put_file move
write f p file d =
    let tmp = p ++ codes ".tmp" in
    elim f.write [
      | untouched ↦ (d, err disk)
      | cut_short ↦ (put_file tmp torn d, err disk)
      | whole ↦
          if f.rename
          then (put_file tmp file d, err disk)
          else (move tmp p file (put_file tmp file d), ok tt)
    ]

-- What a call does at a path, if there is one.
abbrev pub at_path :
    (Text → Disk × Result Error Unit) → Disk → Result Error Text → Disk × Result Error Unit
at_path f d (err e) = (d, err e)
at_path f d (ok p) = f p

unfoldable pub put : Faults → Seat → Disk → Disk × Result Error Unit
unfolding path write
put f seat d =
    let stamped : Seat = record seat { schema = record_schema } in
    at_path (λ p. write f p (holds stamped) d) d (path seat.name)

-- The part of `Delete` from `os.Remove`, with whether it fails on a file that is there.
unfoldable pub remove : Bool → Disk → Text → Disk × Result Error Unit
unfolding read remove_file
remove stuck d p = elim (read p d) [
  | none ↦ (d, ok tt)
  | some f ↦ if stuck then (d, err disk) else (remove_file p d, ok tt)
]

unfoldable pub delete : Bool → Text → Disk → Disk × Result Error Unit
unfolding path remove
delete stuck name d = at_path (remove stuck d) d (path name)

unfoldable pub has_suffix : Text → Text → Bool
has_suffix s suffix =
    leb (length suffix) (length s) && text_eq (drop (length s - length suffix) s) suffix

-- The loop of `List`, which gives up at the first record that it cannot read.
unfoldable pub load_all : (Text → Bool) → Disk → List (Text × File) → Result Error (List Seat)
unfolding has_suffix load
load_all unreadable d [] = ok []
load_all unreadable d ((name, f) ∷ entries) =
    let rest = load_all unreadable d entries in
    if not (has_suffix name (codes ".json"))
    then rest
    else load (unreadable name) name d >>= λ seat. rest >>= λ seats. ok (seat ∷ seats)

unfoldable pub list_seats : (Text → Bool) → Disk → Result Error (List Seat)
unfolding load_all sort_by text_lt
list_seats unreadable d =
    load_all unreadable d d >>= λ out. ok (sort_by (λ a b. text_lt a.name b.name) out)
