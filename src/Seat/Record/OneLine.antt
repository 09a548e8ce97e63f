-- ===== src/Seat/Record/OneLine.antt =====
-- internal/seat/seat.go: line breaks in the name, the resolution, the address and the gateway of a definition.
use polyseat.Prelude.{
  ◌≡◌, ◌∙◌, ap, refl, sym, subst, inl, inr, Bool, true, false, some, [], ok, err, Result, arith,
  ◌>>◌, refuse, not, Option-cases, Bool-cases,
}
use polyseat.Prelude.Text.{Text, Free, text_eq, text_eq_sound}
use polyseat.Seat.Record.{
  Seat, Netip, Error, matches_resolution, matches_name, validate, validate_static, validate_name,
  is_inner,
}
use polyseat.Seat.Record.Shape.{matches_resolution-Free, matches_name-Free}

-- What net/netip documents of the texts that it reads: a prefix has no line break in it, since it has no
-- zone; an address may have one in its zone, and nowhere else.
pub record IsStrict (net : Netip) : Type 0 where
  pub prefix : (s : Text) (v : Bool) → net.parse_prefix s ≡ some v → Free 10 s
  pub addr : (s : Text) (is_4 : Bool) → net.parse_addr s ≡ some ([], is_4) → Free 10 s

pub record OneLine (s : Seat) : Type 0 where
  pub name : Free 10 s.name
  pub resolution : Free 10 s.resolution
  pub address : Free 10 s.address
  pub gateway : Free 10 s.gateway

break_not_inner : is_inner 10 ≡ false
unfolding is_inner
break_not_inner = refl

both : (m k : Result Error Unit) → m >> k ≡ ok tt → (m ≡ ok tt) × (k ≡ ok tt)
both (ok tt) k h = (refl, h)
both (err e) k h = ground arith

kept : (b : Bool) (e : Error) → refuse (not b) e ≡ ok tt → b ≡ true
kept true e h = refl
kept false e h = ground arith

named-matches : (name : Text) → validate_name name ≡ ok tt → matches_name name ≡ true
unfolding validate_name
named-matches name h = kept (matches_name name) _ (both _ _ (both _ _ h).0).0

module _ (net : Netip) (strict : IsStrict net) where
  validate_static-Free :
      (address gateway : Text)
      → validate_static net address gateway ≡ ok tt
      → Free 10 address × Free 10 gateway
  unfolding validate_static
  validate_static-Free address gateway h = elim (Bool-cases (text_eq address [])) [
    | inl e ↦ (
      subst (Free 10) (sym (text_eq_sound address [] e)) tt,
      subst (Free 10) (sym (text_eq_sound gateway [] (ground arith))) tt,
    )
    | inr e ↦ elim (Option-cases (net.parse_prefix address)) [
      | inl p ↦ ground arith
      | inr (v, p) ↦ elim (Option-cases (net.parse_addr gateway)) [
        | inl g ↦ ground arith
        | inr ((zone, is_4), g) ↦ (
          strict.prefix address v p,
          strict.addr gateway is_4
              (g ∙ ap (λ (z : Text). some (z, is_4)) (text_eq_sound zone [] (ground arith))),
        )
      ]
    ]
  ]

  -- No name, resolution, address or gateway of a definition that is accepted has a line break in it,
  -- where net/netip reads no text with a line break as a prefix, or as an address that has no zone.
  pub validate-OneLine : (s : Seat) → validate net s ≡ ok tt → OneLine s
  unfolding validate
  validate-OneLine s h =
      let (checked, static) = both _ _ h in
      let (named, sized) = both _ _ (both _ _ checked).0 in
      let (a, g) = validate_static-Free s.address s.gateway static in
      record {
        name = matches_name-Free 10 s.name break_not_inner (named-matches s.name named);
        resolution =
            matches_resolution-Free s.resolution (kept (matches_resolution s.resolution) _ sized);
        address = a;
        gateway = g;
      }
