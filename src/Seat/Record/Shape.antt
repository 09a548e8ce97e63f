-- ===== src/Seat/Record/Shape.antt =====
-- internal/seat/seat.go: what the two regular expressions accept.
use mathlib.Core.Bool.{false≢true}
use polyseat.Prelude.{
  ℕ, ◌≤◌, ◌≡◌, ◌↔◌, refl, ap, sym, subst, ◌∙◌, inl, inr, true, false, some, [], ◌∷◌, ◌++◌,
  Option-cases, arith, length,
}
use polyseat.Prelude.Text.{
  Text, codes, Free, Free-append, text_eq_sound, is_digit, cut_prefix-eq-some, cut_prefix-append,
}
use polyseat.Seat.Record.{
  digits, field, matches_resolution, is_lower, is_edge, is_inner, inner_then_edge, matches_name,
}

-- Only decimal digits, at least so many and at most so many.
abbrev pub AllDigits : Text → Type 0
AllDigits [] = Unit {0}
AllDigits (c ∷ s) = (is_digit c ≡ true) × AllDigits s

pub record IsNumeral (lo hi : ℕ) (s : Text) : Type 0 where
  pub digits : AllDigits s
  pub at_least : lo ≤ length s
  pub at_most : length s ≤ hi

digits-append : (s : Text) → s ≡ (digits s).0 ++ (digits s).1
unfolding digits
digits-append [] = refl
digits-append (c ∷ s) = ground (arith, digits-append s)

digits-AllDigits : (s : Text) → AllDigits (digits s).0
unfolding digits
digits-AllDigits [] = tt
digits-AllDigits (c ∷ s) = ground (arith, digits-AllDigits s)

digits-numeral :
    (d : Text) (c : ℕ) (s : Text)
    → AllDigits d
    → is_digit c ≡ false
    → digits (d ++ c ∷ s) ≡ (d, c ∷ s)
unfolding digits
digits-numeral [] c s h n = ground arith
digits-numeral (b ∷ d) c s h n = ground (arith, digits-numeral d c s h.1 n)

field-eq-some :
    (lo hi : ℕ) (literal s rest : Text)
    → field lo hi literal s ≡ some rest
    → (d : Text) × IsNumeral lo hi d × (s ≡ d ++ (literal ++ rest))
unfolding field
field-eq-some lo hi literal s rest h = (
  (digits s).0,
  record { digits = digits-AllDigits s; at_least = ground arith; at_most = ground arith },
  digits-append s
      ∙ ap (λ t. (digits s).0 ++ t) (cut_prefix-eq-some literal (digits s).1 rest (ground arith)),
)

field-numeral :
    (lo hi c : ℕ) (literal d rest : Text)
    → IsNumeral lo hi d
    → is_digit c ≡ false
    → field lo hi (c ∷ literal) (d ++ (c ∷ literal ++ rest)) ≡ some rest
unfolding field
field-numeral lo hi c literal d rest n h =
    let d_split = digits-numeral d c (literal ++ rest) n.digits h in
    ground (
      arith,
      d_split,
      ap (λ t. t.0) d_split,
      ap (λ t. t.1) d_split,
      n.at_least,
      n.at_most,
      cut_prefix-append (c ∷ literal) rest,
    )

parts :
    (s : Text)
    → matches_resolution s ≡ true
    → (w h r : Text) × IsNumeral 3 5 w
      × IsNumeral 3 5 h
      × IsNumeral 2 3 r
      × (s ≡ w ++ (b'x' ∷ h ++ (b'@' ∷ r ++ codes "Hz")))
unfolding matches_resolution
parts s m = elim (Option-cases (field 3 5 (codes "x") s)) [
  | inl e ↦ ground arith
  | inr (s1, e1) ↦ elim (Option-cases (field 3 5 (codes "@") s1)) [
    | inl e ↦ ground arith
    | inr (s2, e2) ↦ elim (Option-cases (field 2 3 (codes "Hz") s2)) [
      | inl e ↦ ground arith
      | inr (s3, e3) ↦
          let (w, nw, ew) = field-eq-some 3 5 (codes "x") s s1 e1 in
          let (h, nh, eh) = field-eq-some 3 5 (codes "@") s1 s2 e2 in
          let (r, nr, er) = field-eq-some 2 3 (codes "Hz") s2 s3 e3 in
          let done : s3 ≡ [] = text_eq_sound s3 [] (ground arith) in
          (
            w,
            h,
            r,
            nw,
            nh,
            nr,
            ew
                ∙ ap (λ t. w ++ (b'x' ∷ t)) eh
                ∙ ap (λ t. w ++ (b'x' ∷ h ++ (b'@' ∷ t))) er
                ∙ ap (λ t. w ++ (b'x' ∷ h ++ (b'@' ∷ r ++ (codes "Hz" ++ t)))) done,
          )
    ]
  ]
]

whole :
    (s : Text)
    → ((w h r : Text) × IsNumeral 3 5 w
        × IsNumeral 3 5 h
        × IsNumeral 2 3 r
        × (s ≡ w ++ (b'x' ∷ h ++ (b'@' ∷ r ++ codes "Hz"))))
    → matches_resolution s ≡ true
unfolding matches_resolution is_digit
whole s (w, h, r, nw, nh, nr, e) =
    subst (λ t. matches_resolution t ≡ true) (sym e)
      (ground (
        arith,
        field-numeral 3 5 b'x' [] w (h ++ (b'@' ∷ r ++ codes "Hz")) nw refl,
        field-numeral 3 5 b'@' [] h (r ++ codes "Hz") nh refl,
        field-numeral 2 3 b'H' (codes "z") r [] nr refl,
      ))

-- The texts that `resolutionRE` accepts are those of the form <width>x<height>@<rate>Hz, with three
-- to five digits in the width and the height and two or three in the rate.
pub matches_resolution_iff :
    (s : Text)
    → (matches_resolution s ≡ true) ↔ (
        (w h r : Text) × IsNumeral 3 5 w
        × IsNumeral 3 5 h
        × IsNumeral 2 3 r
        × (s ≡ w ++ (b'x' ∷ h ++ (b'@' ∷ r ++ codes "Hz"))))
matches_resolution_iff s = (parts s, whole s)

AllDigits-Free : (c : ℕ) (d : Text) → is_digit c ≡ false → AllDigits d → Free c d
AllDigits-Free c [] n h = tt
AllDigits-Free c (b ∷ d) n h =
    (λ e. false≢true (sym n ∙ ap is_digit (sym e) ∙ h.0), AllDigits-Free c d n h.1)

-- A resolution that is accepted has no line break in it.
pub matches_resolution-Free : (s : Text) → matches_resolution s ≡ true → Free 10 s
unfolding is_digit
matches_resolution-Free s m =
    let (w, h, r, nw, nh, nr, e) = parts s m in
    subst (Free 10) (sym e) (
      Free-append 10 w _ (AllDigits-Free 10 w refl nw.digits) (
        λ q. ground arith,
        Free-append 10 h _ (AllDigits-Free 10 h refl nh.digits) (
          λ q. ground arith,
          Free-append 10 r _ (AllDigits-Free 10 r refl nr.digits)
              (λ q. ground arith, (λ q. ground arith, tt)),
        ),
      ))

inner_then_edge-Free : (c : ℕ) (s : Text) → is_inner c ≡ false → inner_then_edge s ≡ true → Free c s
unfolding inner_then_edge is_inner
inner_then_edge-Free c [] n h = tt
inner_then_edge-Free c (b ∷ []) n h = (λ e. ground (arith, ap is_edge e), tt)
inner_then_edge-Free c (b ∷ d ∷ s) n h =
    (λ e. ground (arith, ap is_edge e), inner_then_edge-Free c (d ∷ s) n (ground arith))

-- A character that is neither a letter from a to z, nor a digit, nor a hyphen is in no seat's name: no
-- slash, no dot, no line break.
pub matches_name-Free : (c : ℕ) (s : Text) → is_inner c ≡ false → matches_name s ≡ true → Free c s
unfolding matches_name is_inner is_edge
matches_name-Free c [] n h = tt
matches_name-Free c (b ∷ s) n h =
    (λ e. ground (arith, ap is_lower e), inner_then_edge-Free c s n (ground arith))
