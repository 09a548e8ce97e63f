-- ===== src/Prelude/Decimal.antt =====
-- Go's package strconv, as far as the program calls it: decimal integers of 64 bits.
use Prim.Native.Nat.{ℕ, zero, suc, ◌+◌, ◌-◌, ◌*◌, ◌/◌, ◌%◌, ◌^◌, ◌≤◌, ◌<◌}
use mathlib.Core.Path.{◌≡◌, refl, ap, ◌∙◌}
use mathlib.Core.Logic.{◌≢◌, inl, inr}
use mathlib.Core.Bool.{true, false}
use mathlib.Core.List.{[], ◌∷◌}
use mathlib.Core.Option.{Option, none, some}
use native.Mathlib.Omega.{arith}
use native.Mathlib.Nat.{pow-suc}
use polyseat.Prelude.Tests.{◌==◌, ltb, leb, if◌then◌else◌, Bool-cases}
use polyseat.Prelude.Int.{ℤ, pos, negsuc}
use polyseat.Prelude.Text.{Text, Free, is_digit}

-- The number that a run of digits stands for, after those read so far. Go stops at the first
-- number out of range; the callers below test the range at the end, with the same answer.
unfoldable pub digits_value : ℕ → Text → Option ℕ
unfolding is_digit
digits_value n [] = some n
digits_value n (c ∷ s) =
    let rest = digits_value (n * 10 + (c - b'0')) s in if is_digit c then rest else none

unfoldable pub read_digits : Text → Option ℕ
unfolding digits_value
read_digits [] = none
read_digits (c ∷ s) = digits_value 0 (c ∷ s)

abbrev pub max_int64 : ℕ
max_int64 = 2 ^ 63 - 1

abbrev pub in_range : ℕ → Option ℕ → Option ℕ
in_range limit none = none
in_range limit (some n) = if leb n limit then some n else none

abbrev negate : Option ℕ → Option ℤ
negate none = none
negate (some zero) = some (pos 0)
negate (some (suc n)) = some (negsuc n)

abbrev positive : Option ℕ → Option ℤ
positive none = none
positive (some n) = some (pos n)

-- `strconv.ParseInt(s, 10, 64)`, which is `strconv.Atoi` where int has 64 bits; `none` is its error.
unfoldable pub parse_int : Text → Option ℤ
unfolding read_digits
parse_int [] = none
parse_int (c ∷ s) =
    if c == b'-'
    then negate (in_range (2 ^ 63) (read_digits s))
    else if c == b'+'
    then positive (in_range max_int64 (read_digits s))
    else positive (in_range max_int64 (read_digits (c ∷ s)))

-- The digits of a number below ten to the fuel, in front of a text.
digits : ℕ → ℕ → Text → Text
digits zero n out = out
digits (suc f) n out =
    let rest = digits f (n / 10) ((b'0' + n % 10) ∷ out) in
    if ltb n 10 then (b'0' + n) ∷ out else rest

-- `strconv.Itoa` and `strconv.FormatInt(n, 10)` of a number that is not negative. A number below
-- 2 ^ 63 has at most 19 digits.
unfoldable pub format_int : ℕ → Text
unfolding digits
format_int n = digits 20 n []

-- The place value of the text that `digits` writes before `out`.
shift : ℕ → ℕ → ℕ
shift zero n = 1
shift (suc f) n = let rest = 10 * shift f (n / 10) in if ltb n 10 then 10 else rest

digits_value-digit :
    (k d : ℕ) (out : Text)
    → d < 10
    → digits_value k ((b'0' + d) ∷ out) ≡ digits_value (k * 10 + d) out
unfolding digits_value
digits_value-digit k d out h =
    let e : b'0' + d - b'0' ≡ d = omega arith in
    let t : is_digit (b'0' + d) ≡ true = unfold is_digit in ground arith in rw (t, e)

digits_value-digits :
    (f n k : ℕ) (out : Text)
    → n < 10 ^ f
    → digits_value k (digits f n out) ≡ digits_value (k * shift f n + n) out
unfolding digits shift
digits_value-digits zero n k out h =
    let e : k ≡ k * 1 + n = omega arith in ap (λ (x : ℕ). digits_value x out) e
digits_value-digits (suc f) n k out h = elim (Bool-cases (ltb n 10)) [
  | inl small ↦ rw small (digits_value-digit k n out (ground arith))
  | inr big ↦
      rw
        (
          big,
          digits_value-digits f (n / 10) k ((b'0' + n % 10) ∷ out) (omega (arith, pow-suc 10 f)),
        )
        (digits_value-digit (k * shift f (n / 10) + n / 10) (n % 10) out (omega arith)
          ∙ ap (λ (x : ℕ). digits_value x out) (omega arith))
]

-- Every character is a digit.
abbrev pub AllDigits : Text → Type 0
AllDigits [] = Unit {0}
AllDigits (c ∷ s) = (is_digit c ≡ true) × AllDigits s

digits-AllDigits : (f n : ℕ) (out : Text) → AllDigits out → AllDigits (digits f n out)
unfolding digits is_digit
digits-AllDigits zero n out h = h
digits-AllDigits (suc f) n out h =
    ground (arith, digits-AllDigits f (n / 10) ((b'0' + n % 10) ∷ out))

pub format_int-AllDigits : (n : ℕ) → AllDigits (format_int n)
unfolding format_int
format_int-AllDigits n = digits-AllDigits 20 n [] tt

digits-ne-nil : (f n : ℕ) (out : Text) → out ≢ [] → digits f n out ≢ []
unfolding digits
digits-ne-nil zero n out h = h
digits-ne-nil (suc f) n out h = ground (arith, digits-ne-nil f (n / 10) ((b'0' + n % 10) ∷ out))

pub format_int-ne-nil : (n : ℕ) → format_int n ≢ []
unfolding format_int digits
format_int-ne-nil n = ground (arith, digits-ne-nil 19 (n / 10) ((b'0' + n % 10) ∷ []))

pub AllDigits-Free : (sep : ℕ) (s : Text) → is_digit sep ≡ false → AllDigits s → Free sep s
AllDigits-Free sep [] e h = tt
AllDigits-Free sep (c ∷ s) e h = ground (arith, AllDigits-Free sep s e h.1)

read_digits-eq : (s : Text) → s ≢ [] → read_digits s ≡ digits_value 0 s
unfolding read_digits
read_digits-eq [] h = absurd (h refl)
read_digits-eq (c ∷ s) h = refl

pub read_digits-format_int : (n : ℕ) → n ≤ max_int64 → read_digits (format_int n) ≡ some n
unfolding format_int digits_value
read_digits-format_int n h =
    read_digits-eq _ (format_int-ne-nil n)
    ∙ digits_value-digits 20 n 0 [] (omega arith)
    ∙ ap (λ (x : ℕ). digits_value x []) (omega arith)

-- A text of digits alone has no sign to read.
pub parse_int-AllDigits :
    (s : Text) → AllDigits s → parse_int s ≡ positive (in_range max_int64 (read_digits s))
unfolding parse_int is_digit
parse_int-AllDigits [] h = refl
parse_int-AllDigits (c ∷ s) h = ground arith

-- A number that fits is read back from what is printed.
pub parse_int-format_int : (n : ℕ) → n ≤ max_int64 → parse_int (format_int n) ≡ some (pos n)
parse_int-format_int n h =
    rw (parse_int-AllDigits _ (format_int-AllDigits n), read_digits-format_int n h) (ground arith)
