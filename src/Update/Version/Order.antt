-- ===== src/Update/Version/Order.antt =====
-- internal/update/update.go: `newer`, on the tags of releases.
use polyseat.Prelude.{
  ℕ, ◌≤◌, ◌<◌, ◌≡◌, ◌⊎◌, ◌↔◌, refl, ◌∙◌, inl, inr, true, false, some, [], ◌∷◌, ◌++◌, arith,
  Option-cases,
}
use polyseat.Prelude.Int.{ℤ, pos, ltb_ℤ}
use polyseat.Prelude.Text.{
  Text, codes, Free, split-Free, split-append, contains_any, text_eq_iff, is_digit,
}
use polyseat.Prelude.Decimal.{
  format_int, format_int-AllDigits, format_int-ne-nil, AllDigits, AllDigits-Free, max_int64,
  parse_int-format_int,
}
use polyseat.Update.Version.{Version, parse_field, parse_tag, behind, newer}

behind_irrefl : (v : Version) → behind v v ≡ false
unfolding behind
behind_irrefl v = ground arith

behind-asymm : (v w : Version) → behind v w ≡ true → behind w v ≡ false
unfolding behind
behind-asymm v w h = ground arith

-- If one release is newer than another, the other is not newer than it: following the notices never
-- leads back.
pub newer-asymm : (a b : Text) → newer a b ≡ true → newer b a ≡ false
unfolding newer
newer-asymm a b h = elim (Option-cases (parse_tag a)) [
  | inl e ↦ ground arith
  | inr (v, e) ↦ elim (Option-cases (parse_tag b)) [
    | inl e' ↦ ground arith
    | inr (w, e') ↦ ground (arith, behind-asymm v w)
  ]
]

-- One integer is below another.
abbrev Lt : ℤ → ℤ → Type 0
Lt x y = ltb_ℤ x y ≡ true

Lt-trans : (x y z : ℤ) → Lt x y → Lt y z → Lt x z
Lt-trans x y z h k = ground arith

-- The lexicographic order of versions.
abbrev Before : Version → Version → Type 0
Before v w =
    Lt v.major w.major
    ⊎ ((v.major ≡ w.major) × (Lt v.minor w.minor ⊎ ((v.minor ≡ w.minor) × Lt v.patch w.patch)))

behind-Before : (v w : Version) → behind v w ≡ true → Before v w
unfolding behind
behind-Before v w h = ground arith

Before-behind : (v w : Version) → Before v w → behind v w ≡ true
unfolding behind
Before-behind v w h = ground arith

Before-trans : (u v w : Version) → Before u v → Before v w → Before u w
Before-trans u v w (inl h) (inl k) = inl (Lt-trans u.major v.major w.major h k)
Before-trans u v w (inl h) (inr (e, k)) = inl (rw e at h)
Before-trans u v w (inr (e, h)) (inl k) = inl (rw (← e) at k)
Before-trans u v w (inr (e, inl h)) (inr (e', inl k)) =
    inr (e ∙ e', inl (Lt-trans u.minor v.minor w.minor h k))
Before-trans u v w (inr (e, inl h)) (inr (e', inr (m, k))) = inr (e ∙ e', inl (rw m at h))
Before-trans u v w (inr (e, inr (m, h))) (inr (e', inl k)) = inr (e ∙ e', inl (rw (← m) at k))
Before-trans u v w (inr (e, inr (m, h))) (inr (e', inr (m', k))) =
    inr (e ∙ e', inr (m ∙ m', Lt-trans u.patch v.patch w.patch h k))

behind_trans : (u v w : Version) → behind u v ≡ true → behind v w ≡ true → behind u w ≡ true
behind_trans u v w h k =
    Before-behind u w (Before-trans u v w (behind-Before u v h) (behind-Before v w k))

newer-some :
    (a b : Text) {v w : Version}
    → parse_tag a ≡ some v
    → parse_tag b ≡ some w
    → newer a b ≡ behind v w
unfolding newer
newer-some a b e e' = rw (e, newer, e')

newer-parsed :
    (a b : Text)
    → newer a b ≡ true
    → (v : Version) × (w : Version) × (parse_tag a ≡ some v)
      × (parse_tag b ≡ some w)
      × (behind v w ≡ true)
unfolding newer
newer-parsed a b h = elim (Option-cases (parse_tag a)) [
  | inl e ↦ absurd (ground arith)
  | inr (v, e) ↦ elim (Option-cases (parse_tag b)) [
    | inl e' ↦ absurd (ground arith)
    | inr (w, e') ↦ (v, w, e, e', ground arith)
  ]
]

-- A release newer than a newer one is newer.
pub newer_trans : (a b c : Text) → newer a b ≡ true → newer b c ≡ true → newer a c ≡ true
newer_trans a b c h k =
    let (u, v, ea, eb, uv) = newer-parsed a b h in
    let (v', w, eb', ec, vw) = newer-parsed b c k in
    let same : v ≡ v' = cc (eb, eb') in newer-some a c ea ec ∙ behind_trans u v w uv (rw same vw)

AllDigits-unsigned : (s : Text) → AllDigits s → contains_any s (codes "+-") ≡ false
unfolding contains_any is_digit
AllDigits-unsigned [] h = refl
AllDigits-unsigned (c ∷ s) h = ground (arith, AllDigits-unsigned s h.1)

parse_field-format_int : (n : ℕ) → n ≤ max_int64 → parse_field (format_int n) ≡ some (pos n)
unfolding parse_field
parse_field-format_int n h =
    rw (AllDigits-unsigned (format_int n) (format_int-AllDigits n), parse_int-format_int n h)
      (ground (arith, text_eq_iff (format_int n) [], format_int-ne-nil n))

-- The tag of a release.
abbrev pub release : ℕ → ℕ → ℕ → Text
release major minor patch =
    b'v' ∷ (format_int major ++ b'.' ∷ (format_int minor ++ b'.' ∷ format_int patch))

point-Free : (n : ℕ) → Free b'.' (format_int n)
point-Free n = AllDigits-Free b'.' (format_int n) (unfold is_digit in refl) (format_int-AllDigits n)

-- The tag of a release is read back as its three numbers.
pub parse_tag-release :
    (major minor patch : ℕ)
    → major ≤ max_int64
    → minor ≤ max_int64
    → patch ≤ max_int64
    → parse_tag (release major minor patch)
      ≡ some (record { major = pos major; minor = pos minor; patch = pos patch })
unfolding parse_tag
parse_tag-release a b c ha hb hc = rw (
  split-append b'.' (format_int a) (format_int b ++ b'.' ∷ format_int c) (point-Free a),
  split-append b'.' (format_int b) (format_int c) (point-Free b),
  split-Free b'.' (format_int c) (point-Free c),
  parse_field-format_int a ha,
  parse_field-format_int b hb,
  parse_field-format_int c hc,
)

-- Between the tags of two releases, `newer` is the lexicographic order of their three numbers.
pub newer-release :
    (a b c x y z : ℕ)
    → a ≤ max_int64
    → b ≤ max_int64
    → c ≤ max_int64
    → x ≤ max_int64
    → y ≤ max_int64
    → z ≤ max_int64
    → (newer (release a b c) (release x y z) ≡ true)
      ↔ ((a < x) ⊎ ((a ≡ x) × ((b < y) ⊎ ((b ≡ y) × (c < z)))))
unfolding behind
newer-release a b c x y z ha hb hc hx hy hz =
    rw
      (newer-some (release a b c) (release x y z) (parse_tag-release a b c ha hb hc)
        (parse_tag-release x y z hx hy hz))
      (ground arith)
