-- ===== src/Seat/Record/Tests.antt =====
-- Tests of the records, and the witnesses of their theorems.
use polyseat.Prelude.{
  Bool-cases, inl, inr, ◌≡◌, ◌↔◌, refl, sym, subst, arith, not, ◌==◌, ◌&&◌, Bool, true, false, none,
  some, [], ◌∷◌, ◌++◌, ok, err, if◌then◌else◌,
}
use polyseat.Prelude.Int.{pos}
use polyseat.Prelude.Text.{Text, codes, Free, text_eq, text_eq_sound}
use polyseat.Seat.Record.{
  Seat, Netip, validate, validate_name, matches_name, matches_resolution, physical_seat,
  bad_gateway, is_inner,
}
use polyseat.Seat.Record.Shape.{IsNumeral, matches_resolution_iff}
use polyseat.Seat.Record.OneLine.{IsStrict, OneLine, validate-OneLine}

seat0_name : validate_name (codes "seat0") ≡ err physical_seat
unfolding validate_name
seat0_name = refl

short_resolution : matches_resolution (codes "1920x1080@6Hz") ≡ false
unfolding matches_resolution
short_resolution = refl

matches_resolution_iff_example : (matches_resolution (codes "1920x1080@60Hz") ≡ true) ↔ (
    (w h r : Text) × IsNumeral 3 5 w
    × IsNumeral 3 5 h
    × IsNumeral 2 3 r
    × (codes "1920x1080@60Hz" ≡ w ++ (b'x' ∷ h ++ (b'@' ∷ r ++ codes "Hz"))))
matches_resolution_iff_example = matches_resolution_iff (codes "1920x1080@60Hz")

slash_not_inner : is_inner b'/' ≡ false
unfolding is_inner
slash_not_inner = refl

vince_name : matches_name (codes "vince") ≡ true
unfolding matches_name
vince_name = refl

abbrev all_other : Text → Bool
all_other [] = true
all_other (c ∷ s) = not (c == 10) && all_other s

-- A reading of addresses that knows one prefix and two addresses, one of them with a line break for its
-- zone.
abbrev one_net : Netip
one_net = record {
  parse_prefix = λ s. if text_eq s (codes "10.0.0.2/24") then some true else none;
  parse_addr = λ s.
      if text_eq s (codes "10.0.0.1")
      then some ([], true)
      else if text_eq s (codes "fe80::1%\n")
      then some (codes "\n", false)
      else none;
}

abbrev vince : Seat
vince = record {
  name = codes "vince";
  label = codes "Vince";
  autostart = true;
  resolution = codes "1920x1080@60Hz";
  address = codes "10.0.0.2/24";
  gateway = codes "10.0.0.1";
  library = true;
  isolated = false;
  no_ge_proton = false;
  pointer_speed = pos 0;
  player_uid = pos 0;
  provisioned = 0;
  schema = 0;
  created = 7;
}

broken_zone : validate one_net (record vince { gateway = codes "fe80::1%\n" }) ≡ err bad_gateway
unfolding validate
broken_zone = refl

vince-valid : validate one_net vince ≡ ok tt
unfolding validate
vince-valid = refl

reads_one {ℓ} :
    {A : Type ℓ} {v : A} (known s : Text) (w : A)
    → Free 10 known
    → (if text_eq s known then some w else none) ≡ some v
    → Free 10 s
reads_one known s w free h = subst (Free 10) (sym (text_eq_sound s known (ground arith))) free

Free-of : (s : Text) → all_other s ≡ true → Free 10 s
Free-of [] h = tt
Free-of (c ∷ s) h = (λ e. ground arith, Free-of s (ground arith))

prefix-Free : Free 10 (codes "10.0.0.2/24")
prefix-Free = Free-of (codes "10.0.0.2/24") refl

addr-Free : Free 10 (codes "10.0.0.1")
addr-Free = Free-of (codes "10.0.0.1") refl

no_zone : (s : Text) (is_4 : Bool) → one_net.parse_addr s ≡ some ([], is_4) → Free 10 s
no_zone s is_4 h = elim (Bool-cases (text_eq s (codes "10.0.0.1"))) [
  | inl e ↦ subst (Free 10) (sym (text_eq_sound s (codes "10.0.0.1") e)) addr-Free
  | inr e ↦ ground arith
]

one_net-IsStrict : IsStrict one_net
one_net-IsStrict = record {
  prefix = λ s v h. reads_one (codes "10.0.0.2/24") s true prefix-Free h;
  addr = λ s v h. no_zone s v h;
}

validate-OneLine_example : OneLine vince
validate-OneLine_example = validate-OneLine one_net one_net-IsStrict vince vince-valid
