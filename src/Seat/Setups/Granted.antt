-- ===== src/Seat/Setups/Granted.antt =====
-- internal/seat/foldersetup.go: the approvals in a history of calls.
use mathlib.Core.Option.{some_inj}
use polyseat.Prelude.{
  ◌≡◌, ◌≢◌, ap, sym, ◌∙◌, ◌⊎◌, inl, inr, true, Option, none, some, List, [], ◌∷◌, ◌++◌, String,
  str_eq, eq_iff, Option-cases, Bool-cases, arith,
}
use polyseat.Prelude.Dict.{lookup, lookup-insert, lookup-remove}
use polyseat.Library.Folder.{Folder}
use polyseat.Seat.Setups.{
  Approval, State, Setups, Faults, same_version, expect, forget, approve, is_approved,
}
use polyseat.Seat.Setups.Kept.{
  Call, expects, drops, forgets, approves, step, run, save-state, drop-state,
}

-- The call says nothing about whether a folder's script may run.
abbrev pub Quiet : String → Call → Type 0
Quiet name (expects f member other version) = Unit {0}
Quiet name (drops f member other) = Unit {0}
Quiet name (forgets f other) = other ≢ name
Quiet name (approves f other script version) = other ≢ name

abbrev pub AllQuiet : String → List Call → Type 0
AllQuiet name [] = Unit {0}
AllQuiet name (c ∷ cs) = Quiet name c × AllQuiet name cs

-- The approval is the last thing that the calls say about the folder.
pub record WasApproved (name : String) (a : Approval) (cs : List Call) : Type 0 where
  pub before : List Call
  pub faults : Faults
  pub after : List Call
  pub history : cs ≡ before ++ approves faults name a.script a.version ∷ after
  pub last : AllQuiet name after

abbrev pub known : String → State → Option Approval
known name t = lookup name t.approved

step-Quiet :
    (name : String) (s : Setups) (c : Call)
    → Quiet name c
    → known name (step s c).state ≡ known name s.state
unfolding step expect forget approve
step-Quiet name s (expects f member other version) q = ap (known name) (save-state f _)
step-Quiet name s (drops f member other) q = elim (drop-state f member other s) [
  | inl e ↦ ap (known name) e
  | inr e ↦ ap (known name) e
]
step-Quiet name s (forgets f other) q =
    ap (known name) (save-state f _)
    ∙ lookup-remove other name s.state.approved
    ∙ ground (arith, eq_iff other name)
step-Quiet name s (approves f other script version) q =
    ap (known name) (save-state f _)
    ∙ lookup-insert other name (record { script = script; version = version }) s.state.approved
    ∙ ground (arith, eq_iff other name)

-- What one call leaves: it was silent about the folder, or it says all that is known now.
step-cases :
    (name : String) (s : Setups) (c : Call)
    → Quiet name c
      ⊎ (known name (step s c).state ≡ none)
      ⊎ ((f : Faults) × (a : Approval) × (c ≡ approves f name a.script a.version)
          × (known name (step s c).state ≡ some a))
unfolding step forget approve
step-cases name s (expects f member other version) = inl tt
step-cases name s (drops f member other) = inl tt
step-cases name s (forgets f other) = elim (Bool-cases (str_eq other name)) [
  | inl b ↦ inr (
      inl (
        ap (known name) (save-state f _)
        ∙ lookup-remove other name s.state.approved
        ∙ ground arith))
  | inr b ↦ inl (λ e. ground (arith, eq_iff other name))
]
step-cases name s (approves f other script version) = elim (Bool-cases (str_eq other name)) [
  | inl b ↦ inr (
      inr (
        f,
        record { script = script; version = version },
        ap (λ n. approves f n script version) ((eq_iff other name).0 b),
        ap (known name) (save-state f _)
            ∙ lookup-insert other name (record { script = script; version = version })
                s.state.approved
            ∙ ground arith,
      ))
  | inr b ↦ inl (λ e. ground (arith, eq_iff other name))
]

later :
    {name : String} {a : Approval} {cs : List Call} (c : Call)
    → WasApproved name a cs
    → WasApproved name a (c ∷ cs)
later c w = record {
  before = c ∷ w.before;
  faults = w.faults;
  after = w.after;
  history = ap (λ t. c ∷ t) w.history;
  last = w.last;
}

pub run-known :
    (name : String) (a : Approval) (s : Setups) (cs : List Call)
    → known name (run s cs).state ≡ some a
    → ((known name s.state ≡ some a) × AllQuiet name cs) ⊎ WasApproved name a cs
unfolding run
run-known name a s [] h = inl (h, tt)
run-known name a s (c ∷ cs) h = elim (run-known name a (step s c) cs h) [
  | inr w ↦ inr (later c w)
  | inl (e, quiet) ↦ elim (step-cases name s c) [
    | inl q ↦ inl (sym (step-Quiet name s c q) ∙ e, (q, quiet))
    | inr (inl none_left) ↦ ground arith
    | inr (inr (f, b, e_c, e_b)) ↦ inr (record {
      before = [];
      faults = f;
      after = cs;
      history =
          ap (λ t. t ∷ cs) e_c
          ∙ ap (λ t. approves f name t.script t.version ∷ cs) (some_inj.0 (sym e_b ∙ e));
      last = quiet;
    })
  ]
]

-- A script that may run was approved: in a history that starts with nothing approved, the last thing
-- said about its folder is an approval of that very script, in a version with the same size and time.
pub is_approved-WasApproved :
    (name script : String) (version : Folder) (s : Setups) (cs : List Call)
    → lookup name s.state.approved ≡ none
    → is_approved name script version (run s cs) ≡ true
    → (a : Approval) × WasApproved name a cs
      × (a.script ≡ script)
      × (same_version a.version version ≡ true)
unfolding is_approved
is_approved-WasApproved name script version s cs fresh h =
    elim (Option-cases (known name (run s cs).state)) [
      | inl e ↦ ground arith
      | inr (a, e) ↦ elim (run-known name a s cs e) [
        | inl (old, quiet) ↦ ground arith
        | inr w ↦ (a, w, ground (arith, eq_iff a.script script), ground arith)
      ]
    ]
