-- ===== src/Seat/Record.antt =====
-- internal/seat/seat.go: the record of a seat, and what makes a definition valid. Package net/netip
-- is a parameter.
pub mod Shape
pub mod OneLine
mod Tests
use polyseat.Prelude.{
  ℕ, ◌+◌, ◌*◌, ◌^◌, Bool, true, false, ◌&&◌, ◌||◌, not, Option, none, some, List, [], ◌∷◌, ◌++◌,
  Result, ok, err, ◌==◌, ltb, leb, if◌then◌else◌, length, ◌>>◌, refuse,
}
use polyseat.Prelude.Int.{ℤ, pos, ltb_ℤ}
use polyseat.Prelude.Text.{Text, codes, text_eq, is_digit, contains, cut_prefix}

-- The pointer's speed is a finite float64, given as a multiple of the smallest positive one, 2^-1074;
-- the time of creation is a number.
pub record Seat : Type 0 where
  pub name : Text
  pub label : Text
  pub autostart : Bool
  pub resolution : Text
  pub address : Text
  pub gateway : Text
  pub library : Bool
  pub isolated : Bool
  pub no_ge_proton : Bool
  pub pointer_speed : ℤ
  pub player_uid : ℤ
  pub provisioned : ℕ
  pub schema : ℕ
  pub created : ℕ

abbrev pub record_schema : ℕ
record_schema = 1

-- The float64 nearest to 0.10, which is 3602879701896397 / 2^55, and 1.50.
abbrev min_pointer_speed : ℤ
min_pointer_speed = pos (3602879701896397 * 2 ^ 1019)

abbrev max_pointer_speed : ℤ
max_pointer_speed = pos (3 * 2 ^ 1073)

pub data Error : Type 0 where
  name_shape physical_seat host_name bad_resolution bad_speed : Error
  gateway_alone no_prefix_length bad_address no_gateway bad_gateway mixed_kinds : Error

-- What the program asks of net/netip: of a prefix whether its address is IPv4, of an address its zone
-- and whether it is IPv4.
pub record Netip : Type 0 where
  pub parse_prefix : Text → Option Bool
  pub parse_addr : Text → Option (Text × Bool)

unfoldable pub is_lower : ℕ → Bool
is_lower c = leb b'a' c && leb c b'z'

-- `[a-z0-9]`
unfoldable pub is_edge : ℕ → Bool
unfolding is_lower is_digit
is_edge c = is_lower c || is_digit c

-- `[a-z0-9-]`
unfoldable pub is_inner : ℕ → Bool
unfolding is_edge
is_inner c = is_edge c || c == b'-'

-- `[a-z0-9-]{…}[a-z0-9]$` without the count.
unfoldable pub inner_then_edge : Text → Bool
unfolding is_inner is_edge
inner_then_edge [] = false
inner_then_edge (c ∷ []) = is_edge c
inner_then_edge (c ∷ d ∷ s) = is_inner c && inner_then_edge (d ∷ s)

-- `nameRE`
unfoldable pub matches_name : Text → Bool
unfolding is_lower inner_then_edge
matches_name [] = false
matches_name (c ∷ s) = is_lower c && leb 2 (length s) && leb (length s) 31 && inner_then_edge s

unfoldable pub validate_name : Text → Result Error Unit
unfolding matches_name
validate_name name =
    refuse (not (matches_name name)) name_shape
    >> refuse (text_eq name (codes "seat0")) physical_seat
    >> refuse (text_eq name (codes "host")) host_name

-- The digits that a text starts with, and what follows them.
unfoldable pub digits : Text → Text × Text
unfolding is_digit
digits [] = ([], [])
digits (c ∷ s) = let rest = digits s in if is_digit c then (c ∷ rest.0, rest.1) else ([], c ∷ s)

-- `[0-9]{lo,hi}` and then a literal: what follows them. No literal here starts with a digit, so that
-- the digits are all that stand there.
unfoldable pub field : ℕ → ℕ → Text → Text → Option Text
unfolding digits cut_prefix
field lo hi literal s =
    let d = digits s in
    if leb lo (length d.0) && leb (length d.0) hi then cut_prefix literal d.1 else none

-- `resolutionRE`
unfoldable pub matches_resolution : Text → Bool
unfolding field
matches_resolution s = elim (field 3 5 (codes "x") s) [
  | none ↦ false
  | some s ↦ elim (field 3 5 (codes "@") s) [
    | none ↦ false
    | some s ↦ elim (field 2 3 (codes "Hz") s) [ none ↦ false | some s ↦ text_eq s [] ]
  ]
]

unfoldable pub same_kind : Bool → Bool → Bool
same_kind true b = b
same_kind false b = not b

-- A speed of zero is the default.
unfoldable pub speed_refused : ℤ → Bool
speed_refused v =
    (ltb_ℤ v (pos 0) || ltb_ℤ (pos 0) v) && (ltb_ℤ v min_pointer_speed || ltb_ℤ max_pointer_speed v)

module _ (net : Netip) where
  unfoldable pub validate_static : Text → Text → Result Error Unit
  unfolding contains same_kind
  validate_static address gateway =
      if text_eq address []
      then refuse (not (text_eq gateway [])) gateway_alone
      else if not (contains address b'/')
      then err no_prefix_length
      else elim (net.parse_prefix address) [
        | none ↦ err bad_address
        | some prefix_is_4 ↦
            if text_eq gateway [] then err no_gateway else elim (net.parse_addr gateway) [
              | none ↦ err bad_gateway
              | some (zone, is_4) ↦
                  if not (text_eq zone [])
                  then err bad_gateway
                  else refuse (not (same_kind is_4 prefix_is_4)) mixed_kinds
            ]
      ]

  unfoldable pub validate : Seat → Result Error Unit
  unfolding validate_name matches_resolution validate_static speed_refused
  validate s =
      validate_name s.name
      >> refuse (not (matches_resolution s.resolution)) bad_resolution
      >> refuse (speed_refused s.pointer_speed) bad_speed
      >> validate_static s.address s.gateway
