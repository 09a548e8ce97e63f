-- ===== src/Supervise/Lines.antt =====
-- internal/supervise/supervise.go, `lines`: a stream of writes is cut into lines. What
-- `OnOutput` has received is kept in `out`.
pub mod Whole
pub mod Bounds
mod Tests
use polyseat.Prelude.{
  ℕ, zero, suc, ◌*◌, Option, none, some, List, [], ◌∷◌, ◌++◌, map, leb, if◌then◌else◌, length, take,
  drop,
}
use polyseat.Prelude.Text.{Text, cut, trim_cr}

abbrev pub max_line : ℕ
max_line = 256 * 1024

pub record Lines : Type 0 where
  pub buf : Text
  pub out : List Text

abbrev pub no_lines : Lines
no_lines = record { buf = []; out = [] }

-- `l.line(...)`, which drops a carriage return at the end, and what is buffered afterwards.
pub line : Text → Text → Lines → Lines
unfolding trim_cr
line s rest l = record { buf = rest; out = l.out ++ trim_cr s ∷ [] }

-- The last part of a write, with no newline in it.
pub append_rest : Text → Lines → Lines
unfolding line
append_rest b l =
    let buf = l.buf ++ b in
    if leb max_line (length buf)
    then line (take max_line buf) (drop max_line buf) l
    else record l { buf = buf }

-- The loop of `Write`, which takes at least one byte in each round.
pub write_loop : ℕ → Text → Lines → Lines
unfolding append_rest line
write_loop zero b l = l
write_loop (suc n) [] l = l
write_loop (suc n) (c ∷ b) l = elim (cut b'\n' (c ∷ b)) [
  | none ↦ append_rest (c ∷ b) l
  | some (s, rest) ↦ write_loop n rest (line (l.buf ++ s) [] l)
]

pub write : Text → Lines → Lines
unfolding write_loop
write b l = write_loop (length b) b l

-- A last line that had no newline after it.
pub flush : Lines → Lines
unfolding line
flush l = elim l.buf [ [] ↦ l | c ∷ s ↦ line (c ∷ s) [] l ]

pub write_all : List Text → Lines → Lines
write_all [] l = l
write_all (b ∷ bs) l = write_all bs (write b l)
