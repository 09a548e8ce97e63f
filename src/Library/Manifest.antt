-- ===== src/Library/Manifest.antt =====
-- internal/library/steam.go: reading an appmanifest, and the copy of it that is handed on.
pub mod Rewrite
mod Tests
use polyseat.Prelude.{
  ℕ, zero, suc, ◌+◌, ◌-◌, ◌*◌, ◌^◌, Bool, true, false, ◌&&◌, ◌||◌, not, Option, none, some, List,
  [], ◌∷◌, ◌++◌, Result, ok, err, ltb, leb, ◌==◌, if◌then◌else◌, length, map,
}
use polyseat.Prelude.Int.{ℤ, pos, negsuc, ltb_ℤ}
use polyseat.Prelude.Decimal.{parse_int}
use polyseat.Prelude.Text.{
  Text, codes, text_eq, cut, split, cut_prefix, contains_any, is_digit, trim_space, trim_left,
  trim_cr, to_lower,
}

-- What of an App is read from the fields.
pub record Fields : Type 0 where
  pub app_id : Text
  pub name : Text
  pub install_dir : Text
  pub build_id : Text
  pub state_flags : ℤ
  pub size_on_disk : ℤ

pub data Error : Type 0 where
  line_too_long no_fields no_app_id bad_install_dir bad_app_id : Error

-- `bufio.Scanner` with lines and this buffer: a line of so many bytes ends the scan with an error.
abbrev pub max_token : ℕ
max_token = 1024 * 1024

-- The lines that end in a newline, and what is left if it is not empty.
unfoldable pub raw_lines : List Text → List Text
raw_lines [] = []
raw_lines ([] ∷ []) = []
raw_lines ((c ∷ s) ∷ []) = (c ∷ s) ∷ []
raw_lines (s ∷ t ∷ ls) = s ∷ raw_lines (t ∷ ls)

-- The bytes of a text in UTF-8.
abbrev pub byte_count : Text → ℕ
byte_count [] = 0
byte_count (c ∷ s) =
    (if ltb c 0x80 then 1 else if ltb c 0x800 then 2 else if ltb c 0x10000 then 3 else 4)
    + byte_count s

-- The lines before the first that is too long, and whether there is none.
unfoldable pub within : List Text → List Text × Bool
unfolding trim_cr
within [] = ([], true)
within (s ∷ ls) =
    let rest = within ls in
    if ltb (byte_count s) max_token then (trim_cr s ∷ rest.0, rest.1) else ([], false)

unfoldable pub scan_lines : Text → List Text × Bool
unfolding raw_lines within split
scan_lines content = within (raw_lines (split b'\n' content))

-- `strconv.ParseUint(s, 10, 64)`, after the digits read so far: it stops at the first number that is
-- out of range, which stands for all of them.
unfoldable pub scan_uint : ℕ → Text → Option ℕ
unfolding is_digit
scan_uint n [] = some n
scan_uint n (c ∷ s) =
    let next = n * 10 + (c - b'0') in
    let rest = scan_uint next s in
    if not (is_digit c) then none else if leb (2 ^ 64) next then some (2 ^ 64) else rest

unfoldable pub read_uint : Text → Option ℕ
unfolding scan_uint
read_uint [] = none
read_uint (c ∷ s) = scan_uint 0 (c ∷ s)

abbrev signed : Bool → Option ℕ → ℤ
signed b none = pos 0
signed false (some n) = if ltb n (2 ^ 63) then pos n else pos (2 ^ 63 - 1)
signed true (some zero) = pos 0
signed true (some (suc n)) = if leb (suc n) (2 ^ 63) then negsuc n else negsuc (2 ^ 63 - 1)

-- The number that `strconv.Atoi` and `strconv.ParseInt` return beside an error that is ignored.
unfoldable pub int_value : Text → ℤ
unfolding read_uint
int_value [] = pos 0
int_value (c ∷ s) =
    if c == b'-'
    then signed true (read_uint s)
    else if c == b'+'
    then signed false (read_uint s)
    else signed false (read_uint (c ∷ s))

-- `parsePair`, whose key and value have no quotation mark in them.
unfoldable pub parse_pair : Text → Option (Text × Text)
unfolding cut_prefix cut trim_space
parse_pair line = elim (cut_prefix (codes "\"") line) [
  | none ↦ none
  | some rest ↦ elim (cut b'"' rest) [
    | none ↦ none
    | some (key, after) ↦ elim (cut_prefix (codes "\"") (trim_space after)) [
      | none ↦ none
      | some quoted ↦ elim (cut b'"' quoted) [ none ↦ none | some (value, _) ↦ some (key, value) ]
    ]
  ]
]

abbrev deeper : ℤ → ℤ
deeper (pos n) = pos (suc n)
deeper (negsuc zero) = pos 0
deeper (negsuc (suc n)) = negsuc n

abbrev shallower : ℤ → ℤ
shallower (pos zero) = negsuc 0
shallower (pos (suc n)) = pos n
shallower (negsuc n) = negsuc (suc n)

abbrev is_top : ℤ → Bool
is_top (pos n) = n == 1
is_top (negsuc n) = false

-- A field under its key in lower case, put before those that the map had: the last one is found.
abbrev pub Map : Type 0
Map = List (Text × Text)

unfoldable pub value : Text → Map → Text
value k [] = []
value k ((j, v) ∷ m) = let rest = value k m in if text_eq j k then v else rest

-- What the loop sees in a line.
pub data Kind : Type 0 where
  opens closes other : Kind
  pair : Text → Text → Kind

abbrev pair_kind : Option (Text × Text) → Kind
pair_kind none = other
pair_kind (some (key, v)) = pair key v

unfoldable pub kind_of_trimmed : Text → Kind
unfolding parse_pair
kind_of_trimmed t =
    if text_eq t (codes "{")
    then opens
    else if text_eq t (codes "}")
    then closes
    else pair_kind (parse_pair t)

unfoldable pub kind : Text → Kind
unfolding trim_space kind_of_trimmed
kind line = kind_of_trimmed (trim_space line)

-- One round of the loop, at a depth.
abbrev pub read_kind : ℤ → Map → Kind → ℤ × Map
read_kind depth m opens = (deeper depth, m)
read_kind depth m closes = (shallower depth, m)
read_kind depth m other = (depth, m)
read_kind depth m (pair key v) =
    if is_top depth then (depth, (map to_lower key, v) ∷ m) else (depth, m)

unfoldable pub read_line : ℤ × Map → Text → ℤ × Map
unfolding kind to_lower
read_line (depth, m) line = read_kind depth m (kind line)

unfoldable pub read_lines : ℤ × Map → List Text → ℤ × Map
unfolding read_line
read_lines s [] = s
read_lines s (line ∷ ls) = read_lines (read_line s line) ls

unfoldable pub numeric_from : Text → Bool
unfolding is_digit
numeric_from [] = true
numeric_from (c ∷ s) = is_digit c && numeric_from s

unfoldable pub numeric : Text → Bool
unfolding numeric_from
numeric s = not (text_eq s []) && numeric_from s

-- `safeName`, as a test.
unfoldable pub is_safe_name : Text → Bool
unfolding contains_any cut_prefix
is_safe_name name =
    if text_eq name [] || text_eq name (codes ".") || text_eq name (codes "..")
    then false
    else if contains_any name (codes "/\\")
    then false
    else elim (cut_prefix (codes ".") name) [ none ↦ true | some _ ↦ false ]

-- The checks of `parseManifest`, on the values of the six fields.
unfoldable pub check_values : Text → Text → Text → Text → Text → Text → Result Error Fields
unfolding int_value is_safe_name numeric
check_values app_id name install_dir build_id flags size =
    if text_eq app_id []
    then err no_app_id
    else if not (text_eq install_dir []) && not (is_safe_name install_dir)
    then err bad_install_dir
    else if not (numeric app_id)
    then err bad_app_id
    else ok (record {
      app_id = app_id;
      name = name;
      install_dir = install_dir;
      build_id = build_id;
      state_flags = int_value flags;
      size_on_disk = int_value size;
    })

unfoldable pub check_fields : Map → Result Error Fields
unfolding value check_values
check_fields [] = err no_fields
check_fields (e ∷ m) =
    check_values (value (codes "appid") (e ∷ m)) (value (codes "name") (e ∷ m))
      (value (codes "installdir") (e ∷ m)) (value (codes "buildid") (e ∷ m))
      (value (codes "stateflags") (e ∷ m)) (value (codes "sizeondisk") (e ∷ m))

unfoldable pub parse_manifest : Text → Result Error Fields
unfolding scan_lines read_lines check_fields
parse_manifest content =
    let (ls, whole) = scan_lines content in
    if not whole then err line_too_long else check_fields (read_lines (pos 0, []) ls).1

-- `ReadApp`: the fields, the bytes they were parsed from, and when the file last changed.
pub record App : Type 0 where
  pub fields : Fields
  pub content : Text
  pub mod_time : ℕ

-- `StateInstalled`
abbrev is_four : ℤ → Bool
is_four (pos n) = n == 4
is_four (negsuc n) = false

unfoldable pub is_installed : Fields → Bool
is_installed f =
    is_four f.state_flags && not (text_eq f.install_dir []) && not (text_eq f.app_id [])

-- `Newer(a, b)` on build ids.
unfoldable pub newer_build : Text → Text → Bool
newer_build a b = elim (parse_int a) [
  | none ↦ false
  | some x ↦ elim (parse_int b) [ none ↦ false | some y ↦ ltb_ℤ y x ]
]
