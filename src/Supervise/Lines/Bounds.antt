-- ===== src/Supervise/Lines/Bounds.antt =====
-- internal/supervise/supervise.go, `lines`: what is buffered, and what becomes of each byte.
use mathlib.Core.List.{append_assoc, append-nil, map-append}
use polyseat.Prelude.{
  ℕ, zero, suc, ◌≤◌, ◌<◌, ◌≡◌, refl, ◌∙◌, inl, inr, none, some, List, [], ◌∷◌, ◌++◌, arith, leb,
  ◌==◌, if◌then◌else◌, length, length-append, length-drop, take, drop, take-append-drop, Bool-cases,
  Option-cases, map, ap, sym,
}
use polyseat.Prelude.Text.{Text, cut, trim_cr}
use polyseat.Supervise.Lines.{
  Lines, no_lines, max_line, line, append_rest, write_loop, write, write_all,
}
use polyseat.Supervise.Lines.Whole.{concat, length-cut}

append_rest-bound :
    (b : Text) (l : Lines)
    → length l.buf < max_line
    → length b ≤ max_line
    → length (append_rest b l).buf < max_line
unfolding append_rest line
append_rest-bound b l h k = elim (Bool-cases (leb max_line (length (l.buf ++ b)))) [
  | inl full ↦ rw full (omega (arith, length-drop max_line (l.buf ++ b), length-append l.buf b))
  | inr fits ↦ rw fits (ground arith)
]

write_loop-bound :
    (n : ℕ) (b : Text) (l : Lines)
    → length l.buf < max_line
    → length b ≤ max_line
    → length (write_loop n b l).buf < max_line
unfolding write_loop line
write_loop-bound zero b l h k = h
write_loop-bound (suc n) [] l h k = h
write_loop-bound (suc n) (c ∷ b) l h k = elim (Option-cases (cut b'\n' (c ∷ b))) [
  | inl e ↦ rw (e, write_loop) (append_rest-bound (c ∷ b) l h k)
  | inr ((a, r), e) ↦
      rw (e, write_loop)
        (write_loop-bound n r (line (l.buf ++ a) [] l) (omega arith)
          (omega (arith, length-cut (c ∷ b) a r e)))
]

abbrev pub Chunks : List Text → Type 0
Chunks [] = Unit {0}
Chunks (b ∷ bs) = (length b ≤ max_line) × Chunks bs

-- However long the lines are, what is buffered stays below the limit, if no single write is longer.
pub length-write_all :
    (bs : List Text) (l : Lines)
    → length l.buf < max_line
    → Chunks bs
    → length (write_all bs l).buf < max_line
unfolding write_all write
length-write_all [] l h k = h
length-write_all (b ∷ bs) l h (short, k) =
    length-write_all bs (write b l) (write_loop-bound (length b) b l h short) k

pub without_newlines : Text → Text
without_newlines [] = []
without_newlines (c ∷ s) = if c == b'\n' then without_newlines s else c ∷ without_newlines s

concat-append : (xs ys : List Text) → concat (xs ++ ys) ≡ concat xs ++ concat ys
concat-append [] ys = refl
concat-append (x ∷ xs) ys = simp (concat-append xs ys, append_assoc)

without_newlines-append :
    (a b : Text) → without_newlines (a ++ b) ≡ without_newlines a ++ without_newlines b
unfolding without_newlines
without_newlines-append [] b = refl
without_newlines-append (c ∷ a) b = ground (arith, without_newlines-append a b)

without_newlines-none : (s : Text) → cut b'\n' s ≡ none → without_newlines s ≡ s
unfolding without_newlines cut
without_newlines-none [] h = refl
without_newlines-none (c ∷ s) h = ground (arith, without_newlines-none s)

without_newlines-some :
    (s a r : Text) → cut b'\n' s ≡ some (a, r) → without_newlines s ≡ a ++ without_newlines r
unfolding without_newlines cut
without_newlines-some [] a r h = cc
without_newlines-some (c ∷ s) [] r h = ground arith
without_newlines-some (c ∷ s) (d ∷ a) r h = ground (arith, without_newlines-some s a r)

-- The bytes so far, where the lines that were received are these, each less a carriage return at its
-- end: the lines, and then what is buffered.
abbrev pub Received : Lines → Text → Type 0
Received l b = (raw : List Text) × (l.out ≡ map trim_cr raw) × (concat raw ++ l.buf ≡ b)

line-Received :
    (s rest b : Text) (raw : List Text) (l : Lines)
    → l.out ≡ map trim_cr raw
    → concat raw ++ (s ++ rest) ≡ b
    → Received (line s rest l) b
unfolding line
line-Received s rest b raw l e h = (
  raw ++ s ∷ [],
  ap (λ o. o ++ trim_cr s ∷ []) e ∙ sym (map-append trim_cr raw (s ∷ [])),
  ap (λ o. o ++ rest) (concat-append raw (s ∷ []) ∙ ap (λ o. concat raw ++ o) (append-nil s))
      ∙ append_assoc (concat raw) s rest
      ∙ h,
)

append_rest-Received : (b c : Text) (l : Lines) → Received l c → Received (append_rest b l) (c ++ b)
unfolding append_rest
append_rest-Received b c l (raw, e, h) =
    let whole : concat raw ++ (l.buf ++ b) ≡ c ++ b =
      sym (append_assoc (concat raw) l.buf b) ∙ ap (λ o. o ++ b) h in
    elim (Bool-cases (leb max_line (length (l.buf ++ b)))) [
      | inl full ↦
          rw (full, append_rest)
            (line-Received (take max_line (l.buf ++ b)) (drop max_line (l.buf ++ b)) (c ++ b) raw l
              e (ap (λ o. concat raw ++ o) (take-append-drop max_line (l.buf ++ b)) ∙ whole))
      | inr fits ↦ rw (fits, append_rest) (raw, e, whole)
    ]

write_loop-Received :
    (n : ℕ) (b c : Text) (l : Lines)
    → length b ≤ n
    → Received l c
    → Received (write_loop n b l) (c ++ without_newlines b)
unfolding write_loop without_newlines
write_loop-Received zero [] c l h r = rw (append-nil c) r
write_loop-Received zero (x ∷ b) c l h r = absurd (omega arith)
write_loop-Received (suc n) [] c l h r = rw (append-nil c) r
write_loop-Received (suc n) (x ∷ b) c l h (raw, e, k) = elim (Option-cases (cut b'\n' (x ∷ b))) [
  | inl t ↦
      rw (t, write_loop, without_newlines-none (x ∷ b) t)
        (append_rest-Received (x ∷ b) c l (raw, e, k))
  | inr ((a, r), t) ↦
      rw
        (
          t,
          write_loop,
          without_newlines-some (x ∷ b) a r t,
          sym (append_assoc c a (without_newlines r)),
        )
        (write_loop-Received n r (c ++ a) (line (l.buf ++ a) [] l)
          (omega (arith, length-cut (x ∷ b) a r t))
          (line-Received (l.buf ++ a) [] (c ++ a) raw l e (
            ap (λ o. concat raw ++ o) (append-nil (l.buf ++ a))
            ∙ sym (append_assoc (concat raw) l.buf a)
            ∙ ap (λ o. o ++ a) k)))
]

write_all-Received_from :
    (bs : List Text) (c : Text) (l : Lines)
    → Received l c
    → Received (write_all bs l) (c ++ without_newlines (concat bs))
unfolding write_all write without_newlines
write_all-Received_from [] c l r = rw (append-nil c) r
write_all-Received_from (b ∷ bs) c l r =
    rw
      (
        without_newlines-append b (concat bs),
        sym (append_assoc c (without_newlines b) (without_newlines (concat bs))),
      )
      (write_all-Received_from bs (c ++ without_newlines b) (write b l)
        (write_loop-Received (length b) b c l (omega arith) r))

-- Whatever is written, lines that are cut included, what has been received is a list of pieces of it,
-- each less a carriage return at its end; and the pieces with what is buffered are, in order, every
-- byte written but the newlines.
pub write_all-Received :
    (bs : List Text) → Received (write_all bs no_lines) (without_newlines (concat bs))
write_all-Received bs = write_all-Received_from bs [] no_lines ([], refl, refl)
