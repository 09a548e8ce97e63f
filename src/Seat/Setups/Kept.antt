-- ===== src/Seat/Setups/Kept.antt =====
-- internal/seat/foldersetup.go: the shape of the state, through a history of calls.
use polyseat.Prelude.{
  ◌≡◌, ◌≢◌, refl, ap, sym, subst, ◌∙◌, ◌⊎◌, inl, inr, none, some, List, [], ◌∷◌, String, str_eq,
  Option-cases, Bool-cases, arith,
}
use polyseat.Prelude.Dict.{Dict, lookup, insert, remove, Distinct, insert-Distinct, remove-Distinct}
use polyseat.Library.Folder.{Folder}
use polyseat.Seat.Setups.{
  State, Setups, Faults, save, folders_of, take_out, expect, drop, forget, approve, without,
}

-- What a member's map is: its keys are distinct, and there is at least one.
abbrev pub Filled : Dict Folder → Type 0
Filled fs = (fs ≢ []) × Distinct fs

-- Every value of a map is such.
abbrev pub Each {ℓ κ} : {V : Type ℓ} → (V → Type κ) → Dict V → Type κ
Each P [] = Unit
Each P ((k, v) ∷ m) = P v × Each P m

-- A tidy state: no map has one key twice, and every member that waits has a folder.
pub record IsTidy (s : State) : Type 0 where
  pub approved : Distinct s.approved
  pub pending : Distinct s.pending
  pub filled : Each Filled s.pending

-- A call of the program, with the failures of the disk meanwhile.
pub data Call : Type 0 where
  expects : Faults → String → String → Folder → Call
  drops : Faults → String → String → Call
  forgets : Faults → String → Call
  approves : Faults → String → String → Folder → Call

unfoldable pub step : Setups → Call → Setups
unfolding expect drop forget approve
step s (expects f member name version) = (expect f member name version s).0
step s (drops f member name) = (drop f member name s).0
step s (forgets f name) = (forget f name s).0
step s (approves f name script version) = (approve f name script version s).0

unfoldable pub run : Setups → List Call → Setups
unfolding step
run s [] = s
run s (c ∷ cs) = run (step s c) cs

pub save-state : (f : Faults) (s : Setups) → (save f s).0.state ≡ s.state
unfolding save
save-state f s = ground arith

module _ {ℓ κ} {V : Type ℓ} (P : V → Type κ) where
  insert-Each : (k : String) (v : V) (m : Dict V) → P v → Each P m → Each P (insert k v m)
  unfolding insert
  insert-Each k v [] p h = (p, tt)
  insert-Each k v ((j, w) ∷ m) p h = ground (arith, insert-Each k v m p h.1)

  remove-Each : (k : String) (m : Dict V) → Each P m → Each P (remove k m)
  unfolding remove
  remove-Each k [] h = h
  remove-Each k ((j, w) ∷ m) h = ground (arith, remove-Each k m h.1)

  pub lookup-Each : (k : String) (v : V) (m : Dict V) → Each P m → lookup k m ≡ some v → P v
  unfolding lookup
  lookup-Each k v [] h e = cc
  lookup-Each k v ((j, w) ∷ m) h e = elim (Bool-cases (str_eq j k)) [
    | inl b ↦ subst P (ground arith) h.0
    | inr b ↦ lookup-Each k v m h.1 (ground arith)
  ]

list_cases {ℓ} : {A : Type ℓ} (xs : List A) → (xs ≡ []) ⊎ ((x : A) × (t : List A) × (xs ≡ x ∷ t))
list_cases [] = inl refl
list_cases (x ∷ xs) = inr (x, xs, refl)

pub folders_of-cases :
    (member : String) (pending : Dict (Dict Folder))
    → ((lookup member pending ≡ none) × (folders_of member pending ≡ []))
      ⊎ ((fs : Dict Folder) × (lookup member pending ≡ some fs) × (folders_of member pending ≡ fs))
unfolding folders_of
folders_of-cases member pending = elim (Option-cases (lookup member pending)) [
  | inl e ↦ inl (e, ground arith)
  | inr (fs, e) ↦ inr (fs, e, ground arith)
]

pub folders_of-Distinct :
    (member : String) (pending : Dict (Dict Folder))
    → Each Filled pending
    → Distinct (folders_of member pending)
folders_of-Distinct member pending h = elim (folders_of-cases member pending) [
  | inl (e, f) ↦ subst Distinct (sym f) tt
  | inr (fs, e, f) ↦ subst Distinct (sym f) (lookup-Each Filled member fs pending h e).1
]

take_out-Each :
    (member : String) (fs : Dict Folder) (name : String) (pending : Dict (Dict Folder))
    → Distinct fs
    → Each Filled pending
    → Each Filled (take_out member fs name pending)
unfolding take_out
take_out-Each member fs name pending d h = elim (list_cases (remove name fs)) [
  | inl e ↦ subst (Each Filled) (sym (ground arith)) (remove-Each Filled member pending h)
  | inr (f, left, e) ↦ subst (Each Filled) (sym (ground arith)) (
      insert-Each Filled member (f ∷ left) pending
        ((λ c. ground arith), subst Distinct e (remove-Distinct name fs d)) h)
]

take_out-Distinct :
    (member : String) (fs : Dict Folder) (name : String) (pending : Dict (Dict Folder))
    → Distinct pending
    → Distinct (take_out member fs name pending)
unfolding take_out
take_out-Distinct member fs name pending d = elim (list_cases (remove name fs)) [
  | inl e ↦ subst Distinct (sym (ground arith)) (remove-Distinct member pending d)
  | inr (f, left, e) ↦
      subst Distinct (sym (ground arith)) (insert-Distinct member (f ∷ left) pending d)
]

without-cases :
    (name member : String) (fs : Dict Folder) (pending : Dict (Dict Folder))
    → ((remove name fs ≡ []) × (without name ((member, fs) ∷ pending) ≡ without name pending))
      ⊎ ((remove name fs ≢ [])
          × (without name ((member, fs) ∷ pending)
              ≡ (member, remove name fs) ∷ without name pending))
unfolding without
without-cases name member fs pending = elim (list_cases (remove name fs)) [
  | inl e ↦ inl (e, ground arith)
  | inr (f, left, e) ↦ inr ((λ c. ground arith), ground arith)
]

without-Each :
    (name : String) (pending : Dict (Dict Folder))
    → Each Filled pending
    → Each Filled (without name pending)
unfolding without
without-Each name [] h = tt
without-Each name ((member, fs) ∷ pending) h = elim (without-cases name member fs pending) [
  | inl (e, w) ↦ subst (Each Filled) (sym w) (without-Each name pending h.1)
  | inr (n, w) ↦
      subst (Each Filled) (sym w)
        ((n, remove-Distinct name fs h.0.1), without-Each name pending h.1)
]

without-absent :
    (name k : String) (pending : Dict (Dict Folder))
    → lookup k pending ≡ none
    → lookup k (without name pending) ≡ none
unfolding lookup without
without-absent name k [] h = refl
without-absent name k ((member, fs) ∷ pending) h =
    ground (arith, without-absent name k pending, without-cases name member fs pending)

without-Distinct :
    (name : String) (pending : Dict (Dict Folder))
    → Distinct pending
    → Distinct (without name pending)
unfolding without
without-Distinct name [] d = tt
without-Distinct name ((member, fs) ∷ pending) d = elim (without-cases name member fs pending) [
  | inl (e, w) ↦ subst Distinct (sym w) (without-Distinct name pending d.1)
  | inr (n, w) ↦
      subst Distinct (sym w)
        (without-absent name member pending d.0, without-Distinct name pending d.1)
]

insert_some {ℓ} : {V : Type ℓ} (k : String) (v : V) (m : Dict V) → insert k v m ≢ []
unfolding insert
insert_some k v [] e = ground arith
insert_some k v ((j, w) ∷ m) e = ground arith

pub drop-state :
    (f : Faults) (member name : String) (s : Setups)
    → ((drop f member name s).0.state ≡ s.state)
      ⊎ ((drop f member name s).0.state ≡ record s.state {
        pending = take_out member (folders_of member s.state.pending) name s.state.pending;
      })
unfolding drop
drop-state f member name s = elim (Option-cases (lookup name (folders_of member s.state.pending))) [
  | inl e ↦ inl (ground arith)
  | inr (v, e) ↦ inr (
      ap (λ r. r.0.state) {x = drop f member name s}
        {y = save f (record s {
          state = record s.state {
            pending = take_out member (folders_of member s.state.pending) name s.state.pending;
          };
        })}
        (ground arith)
      ∙ save-state f _)
]

pub step-IsTidy : (s : Setups) (c : Call) → IsTidy s.state → IsTidy (step s c).state
unfolding step expect drop forget approve
step-IsTidy s (expects f member name version) t = subst IsTidy (sym (save-state f _)) (record {
  approved = t.approved;
  pending = insert-Distinct member _ s.state.pending t.pending;
  filled =
      insert-Each Filled member _ s.state.pending
        (
          insert_some name version (folders_of member s.state.pending),
          insert-Distinct name version _ (folders_of-Distinct member s.state.pending t.filled),
        )
        t.filled;
})
step-IsTidy s (drops f member name) t = elim (drop-state f member name s) [
  | inl e ↦ subst IsTidy (sym e) t
  | inr e ↦ subst IsTidy (sym e) (record {
    approved = t.approved;
    pending = take_out-Distinct member _ name s.state.pending t.pending;
    filled =
        take_out-Each member _ name s.state.pending
          (folders_of-Distinct member s.state.pending t.filled) t.filled;
  })
]
step-IsTidy s (forgets f name) t = subst IsTidy (sym (save-state f _)) (record {
  approved = remove-Distinct name s.state.approved t.approved;
  pending = without-Distinct name s.state.pending t.pending;
  filled = without-Each name s.state.pending t.filled;
})
step-IsTidy s (approves f name script version) t = subst IsTidy (sym (save-state f _)) (record {
  approved = insert-Distinct name _ s.state.approved t.approved;
  pending = t.pending;
  filled = t.filled;
})

-- A tidy state stays tidy, whatever is called and whichever writes fail: no map has one key twice, and
-- no member is kept among those that wait once nothing waits there.
pub run-IsTidy : (s : Setups) (cs : List Call) → IsTidy s.state → IsTidy (run s cs).state
unfolding run
run-IsTidy s [] t = t
run-IsTidy s (c ∷ cs) t = run-IsTidy (step s c) cs (step-IsTidy s c t)
