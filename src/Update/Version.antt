-- ===== src/Update/Version.antt =====
-- internal/update/update.go: reading a release tag, and comparing two.
pub mod Order
mod Tests
use polyseat.Prelude.{
  Bool, true, false, ◌||◌, not, Option, none, some, List, [], ◌∷◌, ltb, ◌==◌, if◌then◌else◌,
}
use polyseat.Prelude.Int.{ℤ, pos, negsuc, ltb_ℤ}
use polyseat.Prelude.Text.{Text, codes, text_eq, split, contains_any}
use polyseat.Prelude.Decimal.{parse_int}

pub record Version : Type 0 where
  pub major : ℤ
  pub minor : ℤ
  pub patch : ℤ

-- `strings.TrimPrefix(tag, "v")`
trim_v : Text → Text
trim_v [] = []
trim_v (c ∷ s) = if c == b'v' then s else c ∷ s

-- One field of a tag.
pub parse_field : Text → Option ℤ
parse_field field =
    if text_eq field [] || contains_any field (codes "+-") then none else parse_int field

abbrev with_patch : ℤ → ℤ → Option ℤ → Option Version
with_patch x y none = none
with_patch x y (some z) = some (record { major = x; minor = y; patch = z })

abbrev with_minor : ℤ → Option ℤ → Option ℤ → Option Version
with_minor x none p = none
with_minor x (some y) p = with_patch x y p

abbrev with_major : Option ℤ → Option ℤ → Option ℤ → Option Version
with_major none m p = none
with_major (some x) m p = with_minor x m p

-- The loop over the fields, of which there have to be three.
parse_fields : List Text → Option Version
unfolding parse_field
parse_fields (a ∷ b ∷ c ∷ []) = with_major (parse_field a) (parse_field b) (parse_field c)
parse_fields _ = none

pub parse_tag : Text → Option Version
unfolding trim_v parse_fields
parse_tag tag = parse_fields (split b'.' (trim_v tag))

abbrev pub eq_ℤ : ℤ → ℤ → Bool
eq_ℤ (pos a) (pos b) = a == b
eq_ℤ (negsuc a) (negsuc b) = a == b
eq_ℤ _ _ = false

-- The comparison at the end of `newer`: that the first version is behind the second.
pub behind : Version → Version → Bool
behind have there =
    if not (eq_ℤ there.major have.major)
    then ltb_ℤ have.major there.major
    else if not (eq_ℤ there.minor have.minor)
    then ltb_ℤ have.minor there.minor
    else ltb_ℤ have.patch there.patch

pub newer : Text → Text → Bool
newer running published = elim (parse_tag running) [
  | none ↦ false
  | some have ↦ elim (parse_tag published) [ none ↦ false | some there ↦ behind have there ]
]
