-- ===== src/Supervise/Lines/Tests.antt =====
-- internal/supervise/supervise.go, `lines`: a stream in two pieces, and uses of the theorems.
use polyseat.Prelude.{◌<◌, ◌≡◌, refl, List, [], ◌∷◌, ◌++◌, arith, length, map}
use polyseat.Prelude.Text.{Text, codes, cut, trim_cr}
use polyseat.Supervise.Lines.{no_lines, max_line, write, write_all, flush}
use polyseat.Supervise.Lines.Whole.{scan, concat, last_part, flush-write_all}
use polyseat.Supervise.Lines.Bounds.{
  Received, without_newlines, length-write_all, write_all-Received,
}

-- "ab\r\nc" and "d\ne", cut inside a line.
abbrev pieces : List Text
pieces = (b'a' ∷ b'b' ∷ b'\r' ∷ b'\n' ∷ b'c' ∷ []) ∷ (b'd' ∷ b'\n' ∷ b'e' ∷ []) ∷ []

three_lines : (flush (write_all pieces no_lines)).out ≡ codes "ab" ∷ codes "cd" ∷ codes "e" ∷ []
unfolding flush write_all write cut
three_lines = refl

flush-write_all_example :
    (flush (write_all pieces no_lines)).out
    ≡ map trim_cr ((scan [] (concat pieces)).0 ++ last_part (scan [] (concat pieces)).1)
unfolding scan
flush-write_all_example = flush-write_all pieces (omega arith, (omega arith, tt))

length-write_all_example : length (write_all pieces no_lines).buf < max_line
length-write_all_example =
    length-write_all pieces no_lines (omega arith) (omega arith, (omega arith, tt))

write_all-Received_example : Received (write_all pieces no_lines) (without_newlines (concat pieces))
write_all-Received_example = write_all-Received pieces
