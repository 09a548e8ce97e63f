-- ===== src/Supervise/Lines/Whole.antt =====
-- internal/supervise/supervise.go, `lines`: the lines of a whole stream.
use mathlib.Core.List.{append_assoc, append-nil, map-append}
use polyseat.Prelude.{
  ℕ, zero, suc, ◌+◌, ◌≤◌, ◌<◌, ◌≡◌, refl, ap, ◌∙◌, sym, inl, inr, none, some, List, [], ◌∷◌, ◌++◌,
  arith, leb, ◌==◌, false, if◌then◌else◌, length, length-append, Option-cases, map,
}
use polyseat.Prelude.Text.{Text, cut, cut-eq-some, trim_cr}
use polyseat.Supervise.Lines.{
  Lines, no_lines, max_line, line, append_rest, write_loop, write, write_all, flush,
}

-- The whole lines of a text after what is buffered, and what is left of it.
unfoldable pub scan : Text → Text → List Text × Text
scan buf [] = ([], buf)
scan buf (c ∷ s) =
    let (ls, rest) = scan (if c == b'\n' then [] else buf ++ c ∷ []) s in
    (if c == b'\n' then buf ∷ ls else ls, rest)

scan-none : (buf s : Text) → cut b'\n' s ≡ none → scan buf s ≡ ([], buf ++ s)
unfolding scan cut
scan-none buf [] h = simp append-nil
scan-none buf (c ∷ s) h = ground (arith, scan-none (buf ++ c ∷ []) s, append_assoc buf (c ∷ []) s)

scan-some :
    (buf s a b : Text)
    → cut b'\n' s ≡ some (a, b)
    → scan buf s ≡ ((buf ++ a) ∷ (scan [] b).0, (scan [] b).1)
unfolding scan cut
scan-some buf [] a b h = cc
scan-some buf (c ∷ s) [] b h = ground (arith, append-nil buf)
scan-some buf (c ∷ s) (d ∷ a) b h =
    ground (arith, scan-some (buf ++ d ∷ []) s a b, append_assoc buf (d ∷ []) a)

pub scan-append :
    (buf a b : Text)
    → scan buf (a ++ b) ≡ ((scan buf a).0 ++ (scan (scan buf a).1 b).0, (scan (scan buf a).1 b).1)
unfolding scan
scan-append buf [] b = refl
scan-append buf (c ∷ a) b = ground (arith, scan-append [] a b, scan-append (buf ++ c ∷ []) a b)

pub length-cut : (s a b : Text) → cut b'\n' s ≡ some (a, b) → length s ≡ length a + suc (length b)
length-cut s a b h =
    omega (arith, ap length (cut-eq-some b'\n' s a b h), length-append a (b'\n' ∷ b))

-- The lines of a text, after those from before.
abbrev pub scanned : Text → Lines → Lines
scanned b l = record { buf = (scan l.buf b).1; out = l.out ++ map trim_cr (scan l.buf b).0 }

lt→leb : (a b : ℕ) → b < a → leb a b ≡ false
lt→leb a b h = ground arith

append_rest-scanned :
    (b : Text) (l : Lines)
    → cut b'\n' b ≡ none
    → length (scan l.buf b).1 < max_line
    → append_rest b l ≡ scanned b l
unfolding append_rest
append_rest-scanned b l h short =
    let e = scan-none l.buf b h in
    let small : length (l.buf ++ b) < max_line =
      omega (arith, ap (λ (p : List Text × Text). length p.1) e) in
    rw (e, lt→leb _ _ small, append-nil l.out)

scanned-nil : (l : Lines) → scanned [] l ≡ l
unfolding scan
scanned-nil l = rw (append-nil l.out)

-- A line that is complete, and then the rest.
scanned-cut :
    (b a r : Text) (l : Lines)
    → cut b'\n' b ≡ some (a, r)
    → scanned b l ≡ scanned r (line (l.buf ++ a) [] l)
unfolding line
scanned-cut b a r l e = rw (
  scan-some l.buf b a r e,
  append_assoc l.out (trim_cr (l.buf ++ a) ∷ []) (map trim_cr (scan [] r).0),
)

write_loop-scanned :
    (n : ℕ) (b : Text) (l : Lines)
    → length b ≤ n
    → length (scan l.buf b).1 < max_line
    → write_loop n b l ≡ scanned b l
unfolding write_loop
write_loop-scanned zero [] l h short = sym (scanned-nil l)
write_loop-scanned zero (c ∷ b) l h short = absurd (omega arith)
write_loop-scanned (suc n) [] l h short = sym (scanned-nil l)
write_loop-scanned (suc n) (c ∷ b) l h short = elim (Option-cases (cut b'\n' (c ∷ b))) [
  | inl e ↦ rw (e, write_loop) (append_rest-scanned (c ∷ b) l e short)
  | inr ((a, r), e) ↦
      rw (e, write_loop)
        (write_loop-scanned n r (line (l.buf ++ a) [] l) (omega (arith, length-cut (c ∷ b) a r e))
            (omega (arith, short, ap (λ (m : Lines). length m.buf) (scanned-cut (c ∷ b) a r l e)))
          ∙ sym (scanned-cut (c ∷ b) a r l e))
]

pub write-scanned :
    (b : Text) (l : Lines) → length (scan l.buf b).1 < max_line → write b l ≡ scanned b l
unfolding write
write-scanned b l = write_loop-scanned (length b) b l (omega arith)

abbrev pub concat : List Text → Text
concat [] = []
concat (b ∷ bs) = b ++ concat bs

-- After each write, what has no newline yet is shorter than a line that is cut.
abbrev pub Fits : Text → List Text → Type 0
Fits buf [] = Unit {0}
Fits buf (b ∷ bs) = (length (scan buf b).1 < max_line) × Fits (scan buf b).1 bs

scanned-append : (a b : Text) (l : Lines) → scanned (a ++ b) l ≡ scanned b (scanned a l)
scanned-append a b l =
    rw
      (
        scan-append l.buf a b,
        map-append trim_cr (scan l.buf a).0 (scan (scan l.buf a).1 b).0,
        append_assoc l.out (map trim_cr (scan l.buf a).0) (map trim_cr (scan (scan l.buf a).1 b).0),
      )
      refl

write_all-scanned :
    (bs : List Text) (l : Lines) → Fits l.buf bs → write_all bs l ≡ scanned (concat bs) l
unfolding write_all
write_all-scanned [] l h = sym (scanned-nil l)
write_all-scanned (b ∷ bs) l (short, h) =
    rw (write-scanned b l short)
      (write_all-scanned bs (scanned b l) h ∙ sym (scanned-append b (concat bs) l))

-- A part that no newline ends is a line if there is anything in it.
abbrev pub last_part : Text → List Text
last_part [] = []
last_part (c ∷ s) = (c ∷ s) ∷ []

out-flush :
    (r : Text) (ls : List Text)
    → (flush (record { buf = r; out = ls })).out ≡ ls ++ map trim_cr (last_part r)
unfolding flush line
out-flush [] ls = sym (append-nil ls)
out-flush (c ∷ s) ls = refl

-- However a stream is cut into writes, with no line too long, the lines passed on are the same:
-- those that the newlines of the whole stream end, and what follows the last newline, if anything
-- does, each less a carriage return at its end.
pub flush-write_all :
    (bs : List Text)
    → Fits [] bs
    → (flush (write_all bs no_lines)).out
      ≡ map trim_cr ((scan [] (concat bs)).0 ++ last_part (scan [] (concat bs)).1)
flush-write_all bs h =
    rw
      (
        write_all-scanned bs no_lines h,
        map-append trim_cr (scan [] (concat bs)).0 (last_part (scan [] (concat bs)).1),
      )
      (out-flush (scan [] (concat bs)).1 (map trim_cr (scan [] (concat bs)).0))
