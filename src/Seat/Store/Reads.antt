-- ===== src/Seat/Store/Reads.antt =====
-- internal/seat/seat.go: what is read where a file was written or removed.
use mathlib.Core.List.{append_cancel_right}
use polyseat.Prelude.{
  ℕ, ◌≡◌, refl, ap, sym, ◌∙◌, ◌⊎◌, inl, inr, Bool, true, false, none, some, [], ◌∷◌, ◌++◌, ok, err,
  if◌then◌else◌, arith, Bool-cases,
}
use polyseat.Prelude.Text.{Text, codes, text_eq, text_eq_sound, text_eq_iff}
use polyseat.Seat.Record.{matches_name}
use polyseat.Seat.Store.{
  File, torn, Disk, Error, bad_name, Faults, whole, cut_short, untouched, Written, read, put_file,
  remove_file, path, load, get, write, move,
}

read-put_file :
    (p q : Text) (f : File) (d : Disk)
    → read q (put_file p f d) ≡ (if text_eq p q then some f else read q d)
unfolding read put_file
read-put_file p q f [] = refl
read-put_file p q f ((r, g) ∷ d) =
    ground (arith, text_eq_iff p q, text_eq_iff r p, text_eq_iff r q, read-put_file p q f d)

pub read-remove_file :
    (p q : Text) (d : Disk) → read q (remove_file p d) ≡ (if text_eq p q then none else read q d)
unfolding read remove_file
read-remove_file p q [] = ground arith
read-remove_file p q ((r, g) ∷ d) =
    ground (arith, text_eq_iff p q, text_eq_iff r p, text_eq_iff r q, read-remove_file p q d)

-- The last character of a text.
abbrev last_or : ℕ → Text → ℕ
last_or c [] = c
last_or c (d ∷ s) = last_or d s

last_or-append : (c d : ℕ) (s t : Text) → last_or c (s ++ d ∷ t) ≡ last_or d t
last_or-append c d [] t = refl
last_or-append c d (b ∷ s) t = last_or-append b d s t

-- No temporary file has a name under which a seat is looked up.
tmp-other : (p name : Text) → text_eq (p ++ codes ".tmp") (name ++ codes ".json") ≡ false
tmp-other p name = elim (Bool-cases (text_eq (p ++ codes ".tmp") (name ++ codes ".json"))) [
  | inr e ↦ e
  | inl e ↦
      let same = text_eq_sound (p ++ codes ".tmp") (name ++ codes ".json") e in
      let ends : b'p' ≡ b'n' =
        sym (last_or-append 0 b'.' p (codes "tmp"))
        ∙ ap (last_or 0) same
        ∙ last_or-append 0 b'.' name (codes "json") in
      ground (arith, ends)
]

pub path-cases :
    (name : Text)
    → ((matches_name name ≡ true) × (path name ≡ ok (name ++ codes ".json")))
      ⊎ ((matches_name name ≡ false) × (path name ≡ err bad_name))
unfolding path
path-cases name = ground arith

pub same_file : (a b : Text) → text_eq (a ++ codes ".json") (b ++ codes ".json") ≡ text_eq a b
same_file a b = ground (
  arith,
  text_eq_iff a b,
  text_eq_iff (a ++ codes ".json") (b ++ codes ".json"),
  append_cancel_right a b (codes ".json"),
  ap (λ t. t ++ codes ".json") {x = a} {y = b},
)

load-same : (u : Bool) (p : Text) (d e : Disk) → read p e ≡ read p d → load u p e ≡ load u p d
unfolding load
load-same u p d e h = ground (arith, h)

-- A seat is what its own file holds.
pub get-same :
    (u : Bool) (name : Text) (d e : Disk)
    → read (name ++ codes ".json") e ≡ read (name ++ codes ".json") d
    → get u name e ≡ get u name d
unfolding get
get-same u name d e h = elim (path-cases name) [
  | inl (m, q) ↦ ground (arith, q, load-same u (name ++ codes ".json") d e h)
  | inr (m, q) ↦ ground (arith, q)
]

Written-cases : (w : Written) → (w ≡ untouched) ⊎ (w ≡ cut_short) ⊎ (w ≡ whole)
Written-cases untouched = inl refl
Written-cases cut_short = inr (inl refl)
Written-cases whole = inr (inr refl)

pub write-cases :
    (f : Faults) (p : Text) (file : File) (d : Disk)
    → (write f p file d ≡ (d, err Error.disk))
      ⊎ ((g : File) × (write f p file d ≡ (put_file (p ++ codes ".tmp") g d, err Error.disk)))
      ⊎ (write f p file d ≡ (
        put_file p file (remove_file (p ++ codes ".tmp") (put_file (p ++ codes ".tmp") file d)),
        ok tt,
      ))
unfolding write move
write-cases f p file d = elim (Written-cases f.write) [
  | inl e ↦ inl (ground arith)
  | inr (inl e) ↦ inr (inl (torn, ground arith))
  | inr (inr e) ↦ elim (Bool-cases f.rename) [
    | inl r ↦ inr (inl (file, ground arith))
    | inr r ↦ inr (inr (ground arith))
  ]
]

-- At the path of a seat, nothing but the last step of a write is seen.
pub temp-read :
    (p b : Text) (g : File) (d : Disk)
    → read (b ++ codes ".json") (put_file (p ++ codes ".tmp") g d) ≡ read (b ++ codes ".json") d
temp-read p b g d =
    read-put_file (p ++ codes ".tmp") (b ++ codes ".json") g d ∙ ground (arith, tmp-other p b)

pub moved-read :
    (a b : Text) (g : File) (d : Disk)
    → let p = a ++ codes ".json" in
      read
        (b ++ codes ".json")
        (put_file p g (remove_file (p ++ codes ".tmp") (put_file (p ++ codes ".tmp") g d)))
      ≡ (if text_eq a b then some g else read (b ++ codes ".json") d)
moved-read a b g d =
    let p = a ++ codes ".json" in
    let made = put_file (p ++ codes ".tmp") g d in
    let e1 = read-put_file p (b ++ codes ".json") g (remove_file (p ++ codes ".tmp") made) in
    let e2 = read-remove_file (p ++ codes ".tmp") (b ++ codes ".json") made in
    ground (arith, e1, e2, temp-read p b g d, tmp-other p b, same_file a b)
