-- ===== src/Library/Manifest/Rewrite/Lines.antt =====
-- internal/library/steam.go, `Rewrite`: reading the lines that it writes.
use polyseat.Prelude.{
  ℕ, ◌≡◌, ◌≢◌, refl, ap, sym, subst, ◌∙◌, inl, inr, Bool, false, ◌||◌, ◌&&◌, some, List, [], ◌∷◌,
  ◌++◌, if◌then◌else◌, map, arith, String, Bool-cases, Option-cases, Result,
}
use polyseat.Prelude.Int.{ℤ}
use polyseat.Prelude.Text.{
  Text, codes, text_eq, text_eq_iff, cut, cut-append, Free, cut_prefix, trim_space, trim_left,
  trim_right, is_space, to_lower,
}
use polyseat.Library.Manifest.{
  Fields, Error, Map, value, parse_pair, read_line, read_lines, read_kind, Kind, opens, closes,
  other, pair, kind, kind_of_trimmed, check_values, check_fields, is_top,
}
use polyseat.Library.Manifest.Rewrite.{
  is_neutralised, indent, reset_line, rewrite_line, rewrite_lines, rewrite_kind,
}

cut-Free : (sep : ℕ) (s a b : Text) → cut sep s ≡ some (a, b) → Free sep a
unfolding cut
cut-Free sep [] a b h = cc
cut-Free sep (c ∷ s) [] b h = tt
cut-Free sep (c ∷ s) (d ∷ a) b h = (ground arith, cut-Free sep s a b (ground arith))

-- The part of a line after its indentation.
abbrev reset_tail : Text
reset_tail = codes "\"\t\t\"0\""

trim_left-indent : (line r : Text) → trim_left is_space (indent line ++ (b'"' ∷ r)) ≡ b'"' ∷ r
unfolding trim_left indent is_space
trim_left-indent [] r = refl
trim_left-indent (c ∷ s) r = ground (arith, trim_left-indent s r)

append_ne : (s t : Text) → t ≢ [] → s ++ t ≢ []
append_ne [] t n e = n e
append_ne (c ∷ s) t n e = ground arith

trim_right-append :
    (drops : ℕ → Bool) (s t : Text)
    → t ≢ []
    → trim_right drops t ≡ t
    → trim_right drops (s ++ t) ≡ s ++ t
unfolding trim_right
trim_right-append drops [] t n h = h
trim_right-append drops (c ∷ s) t n h =
    ground (arith, trim_right-append drops s t n h, text_eq_iff (s ++ t) [], append_ne s t n)

reset_tail-trimmed : trim_right is_space reset_tail ≡ reset_tail
unfolding trim_right is_space
reset_tail-trimmed = refl

trim_space-reset_line :
    (line key : Text) → trim_space (reset_line line key) ≡ b'"' ∷ key ++ reset_tail
unfolding trim_space reset_line
trim_space-reset_line line key =
    ap (trim_right is_space) (trim_left-indent line (key ++ reset_tail))
    ∙ trim_right-append is_space (b'"' ∷ key) reset_tail (λ e. ground arith) reset_tail-trimmed

quoted_zero : trim_space (codes "\t\t\"0\"") ≡ codes "\"0\""
unfolding trim_space
quoted_zero = refl

prefix_zero : cut_prefix (codes "\"") (codes "\"0\"") ≡ some (codes "0\"")
unfolding cut_prefix
prefix_zero = refl

cut_zero : cut b'"' (codes "0\"") ≡ some (codes "0", [])
unfolding cut
cut_zero = refl

parse_pair-reset :
    (key : Text) → Free b'"' key → parse_pair (b'"' ∷ key ++ reset_tail) ≡ some (key, codes "0")
unfolding parse_pair
parse_pair-reset key f =
    ground (arith, cut-append b'"' key (codes "\t\t\"0\"") f, quoted_zero, prefix_zero, cut_zero)

parse_pair-Free : (t key v : Text) → parse_pair t ≡ some (key, v) → Free b'"' key
unfolding parse_pair
parse_pair-Free t key v h = elim (Option-cases (cut_prefix (codes "\"") t)) [
  | inl e ↦ ground arith
  | inr (rest, e) ↦ elim (Option-cases (cut b'"' rest)) [
    | inl f ↦ ground arith
    | inr ((k, after), f) ↦ elim (Option-cases (cut_prefix (codes "\"") (trim_space after))) [
      | inl g ↦ ground arith
      | inr (quoted, g) ↦ elim (Option-cases (cut b'"' quoted)) [
        | inl i ↦ ground arith
        | inr ((w, x), i) ↦ subst (Free b'"') (ground arith) (cut-Free b'"' rest k after f)
      ]
    ]
  ]
]

kind-reset_line :
    (line key : Text) → Free b'"' key → kind (reset_line line key) ≡ pair key (codes "0")
unfolding kind
kind-reset_line line key f =
    ap kind_of_trimmed (trim_space-reset_line line key) ∙ ground (arith, parse_pair-reset key f)

kind-Free : (line key v : Text) → kind line ≡ pair key v → Free b'"' key
unfolding kind
kind-Free line key v h = elim (Option-cases (parse_pair (trim_space line))) [
  | inl e ↦ ground arith
  | inr ((k, w), e) ↦ parse_pair-Free (trim_space line) key v (ground arith)
]

-- The fields of a copy.
abbrev pub mask : Map → Map
mask [] = []
mask ((k, v) ∷ m) = (k, if is_neutralised k then codes "0" else v) ∷ mask m

pub read_line-kind :
    (d : ℤ) (m : Map) (line : Text) → read_line (d, m) line ≡ read_kind d m (kind line)
unfolding read_line
read_line-kind d m line = refl

pub rewrite_line-kind :
    (d : ℤ) (line : Text) → rewrite_line d line ≡ rewrite_kind d line (kind line)
unfolding rewrite_line
rewrite_line-kind d line = refl

abbrev resets : ℤ → Kind → Bool
resets d opens = false
resets d closes = false
resets d other = false
resets d (pair key v) = is_top d && is_neutralised (map to_lower key)

read_kind-mask :
    (d : ℤ) (m : Map) (k : Kind)
    → resets d k ≡ false
    → read_kind d (mask m) k ≡ ((read_kind d m k).0, mask (read_kind d m k).1)
read_kind-mask d m opens h = refl
read_kind-mask d m closes h = refl
read_kind-mask d m other h = refl
read_kind-mask d m (pair key v) h = ground arith

read_kind-rewrite_kind :
    (d : ℤ) (m : Map) (line : Text) (k : Kind)
    → kind line ≡ k
    → read_kind d (mask m) (kind (rewrite_kind d line k).1)
      ≡ ((rewrite_kind d line k).0, mask (read_kind d m k).1)
read_kind-rewrite_kind d m line opens e = rw e refl
read_kind-rewrite_kind d m line closes e = rw e refl
read_kind-rewrite_kind d m line other e = rw e refl
read_kind-rewrite_kind d m line (pair key v) e =
    let k = kind-reset_line line key (kind-Free line key v e) in
    elim (Bool-cases (is_top d)) [
      | inl t ↦ elim (Bool-cases (is_neutralised (map to_lower key))) [
        | inl n ↦ ground (arith, k)
        | inr n ↦ ground (arith, e)
      ]
      | inr t ↦ ground (arith, e)
    ]

-- A line of the copy is read as the line, but for a field of an account.
read_line-rewrite_line :
    (d : ℤ) (m : Map) (line : Text)
    → read_line (d, mask m) (rewrite_line d line).1
      ≡ ((rewrite_line d line).0, mask (read_line (d, m) line).1)
read_line-rewrite_line d m line =
    rw (rewrite_line-kind d line, read_line-kind, read_line-kind d m line)
      (read_kind-rewrite_kind d m line (kind line) refl)

rewrite_line-depth :
    (d : ℤ) (m : Map) (line : Text) → (read_line (d, m) line).0 ≡ (rewrite_line d line).0
rewrite_line-depth d m line = rw (rewrite_line-kind d line, read_line-kind) (same (kind line))
  where
    same : (k : Kind) → (read_kind d m k).0 ≡ (rewrite_kind d line k).0
    same opens = refl
    same closes = refl
    same other = refl
    same (pair key v) = ground arith

pub read_lines-rewrite_lines :
    (ls : List Text) (d : ℤ) (m : Map)
    → (read_lines (d, mask m) (rewrite_lines d ls)).1 ≡ mask (read_lines (d, m) ls).1
unfolding read_lines rewrite_lines
read_lines-rewrite_lines [] d m = refl
read_lines-rewrite_lines (line ∷ ls) d m =
    let after = read_line (d, m) line in
    let (d', line') = rewrite_line d line in
    ap (λ s. (read_lines s (rewrite_lines d' ls)).1) (read_line-rewrite_line d m line)
    ∙ read_lines-rewrite_lines ls d' after.1
    ∙ ap (λ n. mask (read_lines (n, after.1) ls).1) (sym (rewrite_line-depth d m line))

is_neutralised-false :
    (k : Text)
    → (text_eq k (codes "lastowner") || text_eq k (codes "lastplayed")) ≡ false
    → is_neutralised k ≡ false
unfolding is_neutralised
is_neutralised-false k h = h

value-mask : (k : Text) (m : Map) → is_neutralised k ≡ false → value k (mask m) ≡ value k m
unfolding value
value-mask k [] n = refl
value-mask k ((j, v) ∷ m) n =
    ground (arith, value-mask k m n, text_eq_iff j k, ap is_neutralised {x = j} {y = k})

value_others :
    (e : Text × Text) (m : Map)
    → Path
        (Result Error Fields)
        (check_values
          (value (codes "appid") (mask (e ∷ m)))
          (value (codes "name") (mask (e ∷ m)))
          (value (codes "installdir") (mask (e ∷ m)))
          (value (codes "buildid") (mask (e ∷ m)))
          (value (codes "stateflags") (mask (e ∷ m)))
          (value (codes "sizeondisk") (mask (e ∷ m))))
        (check_values
          (value (codes "appid") (e ∷ m))
          (value (codes "name") (e ∷ m))
          (value (codes "installdir") (e ∷ m))
          (value (codes "buildid") (e ∷ m))
          (value (codes "stateflags") (e ∷ m))
          (value (codes "sizeondisk") (e ∷ m)))
value_others e m = λ i.
    check_values (value-mask (codes "appid") (e ∷ m) (kept "appid" refl) i)
      (value-mask (codes "name") (e ∷ m) (kept "name" refl) i)
      (value-mask (codes "installdir") (e ∷ m) (kept "installdir" refl) i)
      (value-mask (codes "buildid") (e ∷ m) (kept "buildid" refl) i)
      (value-mask (codes "stateflags") (e ∷ m) (kept "stateflags" refl) i)
      (value-mask (codes "sizeondisk") (e ∷ m) (kept "sizeondisk" refl) i)
  where
    kept :
        (k : String)
        → (text_eq (codes k) (codes "lastowner") || text_eq (codes k) (codes "lastplayed")) ≡ false
        → is_neutralised (codes k) ≡ false
    kept k h = is_neutralised-false (codes k) h

-- A copy says of the game all that the manifest says.
pub check_fields-mask : (m : Map) → check_fields (mask m) ≡ check_fields m
unfolding check_fields
check_fields-mask [] = refl
check_fields-mask ((k, v) ∷ m) = value_others (k, v) m
