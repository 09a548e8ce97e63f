-- ===== src/Seat/Store/Kept.antt =====
-- internal/seat/seat.go: what the store's operations leave on the disk.
use polyseat.Prelude.{
  ◌≡◌, refl, ap, sym, subst, ◌∙◌, inl, inr, Bool, true, false, none, some, ◌++◌, Result, ok, err,
  if◌then◌else◌, arith, Option-cases,
}
use polyseat.Prelude.Text.{Text, codes, text_eq, text_eq_refl, text_eq_iff, Free, Free-append}
use polyseat.Seat.Record.{Seat, matches_name, is_inner, record_schema}
use polyseat.Seat.Record.Shape.{matches_name-Free}
use polyseat.Seat.Store.{
  File, holds, Disk, Error, missing, bad_name, Faults, at_path, remove, read, remove_file,
  check_name, path, load, get, write, put, delete,
}
use polyseat.Seat.Store.Reads.{
  read-remove_file, path-cases, same_file, get-same, write-cases, temp-read, moved-read,
}

slash_not_inner : is_inner b'/' ≡ false
unfolding is_inner
slash_not_inner = refl

unfoldable pub stamped : Seat → Seat
stamped seat = record seat { schema = record_schema }

-- How `put` ends: the seat can be read back as it was given, with the schema of this build, and every
-- other seat is as before; or it fails, and every seat is as before.
pub data Outcome (seat : Seat) (d : Disk) (q : Disk × Result Error Unit) : Type 0 where
  stored :
      matches_name seat.name ≡ true
      → q.1 ≡ ok tt
      → get false seat.name q.0 ≡ ok (stamped seat)
      → ((u : Bool) (name : Text) → text_eq seat.name name ≡ false → get u name q.0 ≡ get u name d)
      → Outcome seat d q
  refused :
      (e : Error)
      → q.1 ≡ err e
      → ((u : Bool) (name : Text) → get u name q.0 ≡ get u name d)
      → Outcome seat d q

stored_get :
    (seat : Seat) (d : Disk)
    → matches_name seat.name ≡ true
    → read (seat.name ++ codes ".json") d ≡ some (holds (stamped seat))
    → get false seat.name d ≡ ok (stamped seat)
unfolding get load path check_name stamped
stored_get seat d m e = ground (arith, m, e)

write-Outcome :
    (f : Faults) (seat : Seat) (d : Disk)
    → matches_name seat.name ≡ true
    → Outcome seat d (write f (seat.name ++ codes ".json") (holds (stamped seat)) d)
write-Outcome f seat d m =
    let p = seat.name ++ codes ".json" in
    elim (write-cases f p (holds (stamped seat)) d) [
      | inl e ↦ subst (Outcome seat d) (sym e) (refused Error.disk refl (λ u name. refl))
      | inr (inl (g, e)) ↦
          subst (Outcome seat d) (sym e)
            (refused Error.disk refl (λ u name. get-same u name d _ (temp-read p name g d)))
      | inr (inr e) ↦ subst (Outcome seat d) (sym e) (
          stored m refl
            (stored_get seat _ m (
              moved-read seat.name seat.name (holds (stamped seat)) d
              ∙ ground (arith, text_eq_refl seat.name)))
            (λ u name other.
              get-same u name d _
                (moved-read seat.name name (holds (stamped seat)) d ∙ ground (arith, other))))
    ]

-- Writing a seat is all or nothing: either it can be read back as it was given, with the schema of
-- this build, and no other seat changed; or the call fails, and every seat reads as before. This holds
-- whichever system call fails, and when the temporary file is cut short.
pub put-Outcome : (f : Faults) (seat : Seat) (d : Disk) → Outcome seat d (put f seat d)
unfolding put stamped
put-Outcome f seat d = elim (path-cases seat.name) [
  | inl (m, e) ↦ subst (Outcome seat d) (sym (put_at m e)) (write-Outcome f seat d m)
  | inr (m, e) ↦ subst (Outcome seat d) (sym (put_bad e)) (refused bad_name refl (λ u name. refl))
]
  where
    put_at :
        matches_name seat.name ≡ true
        → path seat.name ≡ ok (seat.name ++ codes ".json")
        → put f seat d ≡ write f (seat.name ++ codes ".json") (holds (stamped seat)) d
    put_at m e = ap (at_path (λ p. write f p (holds (stamped seat)) d) d) e

    put_bad : path seat.name ≡ err bad_name → put f seat d ≡ (d, err bad_name)
    put_bad e = ap (at_path (λ p. write f p (holds (stamped seat)) d) d) e

remove-read :
    (d : Disk) (p : Text)
    → ((remove false d p).1 ≡ ok tt)
      × ((q : Text) → read q (remove false d p).0 ≡ (if text_eq p q then none else read q d))
unfolding remove
remove-read d p = elim (Option-cases (read p d)) [
  | inl e ↦
      (ground arith, λ q. ground (arith, e, text_eq_iff p q, ap (λ t. read t d) {x = p} {y = q}))
  | inr (f, e) ↦ (ground arith, λ q. ap (λ r. read q r.0) (removed f e) ∙ read-remove_file p q d)
]
  where
    removed : (f : File) → read p d ≡ some f → remove false d p ≡ (remove_file p d, ok tt)
    removed f e = ground arith

missing_get :
    (u : Bool) (name : Text) (d : Disk)
    → matches_name name ≡ true
    → read (name ++ codes ".json") d ≡ none
    → get u name d ≡ err missing
unfolding get load path check_name
missing_get u name d m e = ground (arith, m, e)

-- Deleting a seat succeeds for every name of the right shape, where a file that is there can be
-- removed: then the seat is gone, and every other one reads as before.
pub delete-get :
    (name : Text) (d : Disk)
    → matches_name name ≡ true
    → ((delete false name d).1 ≡ ok tt)
      × ((u : Bool) → get u name (delete false name d).0 ≡ err missing)
      × ((u : Bool) (other : Text)
          → text_eq name other ≡ false
          → get u other (delete false name d).0 ≡ get u other d)
unfolding delete
delete-get name d m = (
  ap (λ r. r.1) at ∙ gone.0,
  λ u. missing_get u name _ m (ap (λ r. read p r.0) at ∙ gone.1 p ∙ ground (arith, text_eq_refl p)),
  λ u other h. get-same u other d _ (
      ap (λ r. read (other ++ codes ".json") r.0) at
      ∙ gone.1 (other ++ codes ".json")
      ∙ ground (arith, same_file name other)),
)
  where
    p : Text
    p = name ++ codes ".json"

    at : delete false name d ≡ remove false d p
    at = elim (path-cases name) [
      | inl (n, e) ↦ ap (at_path (remove false d) d) e
      | inr (n, e) ↦ ground arith
    ]

    gone :
        ((remove false d p).1 ≡ ok tt)
        × ((q : Text) → read q (remove false d p).0 ≡ (if text_eq p q then none else read q d))
    gone = remove-read d p

-- A file that the store reaches for a name, whatever the name holds, has no slash in its own name, so
-- that it lies in the directory of the seats.
pub path-Free : (name p : Text) → path name ≡ ok p → Free b'/' p
path-Free name p h = elim (path-cases name) [
  | inl (m, e) ↦
      subst (Free b'/') (ok_inj (sym e ∙ h))
        (Free-append b'/' name (codes ".json") (matches_name-Free b'/' name slash_not_inner m) ends)
  | inr (m, e) ↦ ground arith
]
  where
    ok_inj : {a b : Text} → Path (Result Error Text) (ok a) (ok b) → a ≡ b
    ok_inj e = ground arith

    ends : Free b'/' (codes ".json")
    ends = (
      λ q. ground arith,
      (λ q. ground arith, (λ q. ground arith, (λ q. ground arith, (λ q. ground arith, tt)))),
    )
