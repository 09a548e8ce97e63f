-- ===== src/Seat/Ring/Tests.antt =====
-- Tests of the ring, and the witnesses of its theorems.
use polyseat.Prelude.{◌≡◌, refl, List, [], ◌∷◌}
use polyseat.Prelude.Text.{Text, codes}
use polyseat.Seat.Ring.{new_log, add_all, shown, last_of, lines-last}

abbrev three : List (Text × Text)
three =
    (codes "10:00:00", codes "a")
    ∷ (codes "10:00:01", codes "b")
    ∷ (codes "10:00:02", codes "c")
    ∷ []

three-lines : (add_all three (new_log 2)).lines ≡ codes "10:00:01  b" ∷ codes "10:00:02  c" ∷ []
unfolding new_log add_all
three-lines = refl

lines-last_example : (add_all three (new_log 2)).lines ≡ last_of 2 (shown three)
lines-last_example = lines-last three 2
