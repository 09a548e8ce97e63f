-- ===== src/Seat/Setups/Due.antt =====
-- internal/seat/foldersetup.go: what is due, and what still waits for an approval.
use mathlib.Core.Bool.{false≢true}
use mathlib.Core.List.{Memᴰ}
use mathlib.Core.List.Memᴰ.{head, tail, append_left, append_right, append_cases}
use mathlib.Core.Option.{none-ne-some}
use polyseat.Prelude.{
  ◌≡◌, ◌↔◌, refl, ap, sym, subst, ◌∙◌, ◌⊎◌, inl, inr, true, false, Option, none, some, List, [],
  ◌∷◌, String, str_eq, eq_iff, Option-cases, Bool-cases, arith,
}
use polyseat.Prelude.Text.{codes}
use polyseat.Prelude.Dict.{Dict, lookup, insert, lookup-insert, lookup-mem, mem-lookup}
use polyseat.Prelude.Sort.{text_lt-asymm, sort_by-mem, sort_by-InOrder, InOrder}
use polyseat.Library.Folder.{Folder}
use polyseat.Seat.Setups.{Approval, Setups, same_version, allowed}
use polyseat.Seat.Setups.Granted.{WasApproved, run-known}
use polyseat.Seat.Setups.Kept.{Call, run, IsTidy, Filled, lookup-Each}
use polyseat.Seat.Setups.Runs.{Waiting, waits_before, due_of, due_all, scripts_of, due}

-- The entry of the pending map that a run comes from.
abbrev Pending : Waiting → Dict (Dict Folder) → Type 0
Pending w pending = (fs : Dict Folder) × Memᴰ (w.member, fs) pending × Memᴰ (w.folder, w.version) fs

module _ (approved : Dict Approval) where
  due_of-cases :
      (member name : String) (version : Folder) (fs : Dict Folder)
      → ((allowed (lookup name approved) version ≡ true)
          × (due_of approved member ((name, version) ∷ fs)
              ≡ record { member = member; folder = name; version = version }
                ∷ due_of approved member fs))
        ⊎ ((allowed (lookup name approved) version ≡ false)
            × (due_of approved member ((name, version) ∷ fs) ≡ due_of approved member fs))
  unfolding due_of
  due_of-cases member name version fs = ground arith

  due_of-mem :
      (member : String) (fs : Dict Folder) (w : Waiting)
      → Memᴰ w (due_of approved member fs)
      → (w.member ≡ member)
        × Memᴰ (w.folder, w.version) fs
        × (allowed (lookup w.folder approved) w.version ≡ true)
  unfolding due_of
  due_of-mem member [] w m = elim m [ ]
  due_of-mem member ((name, version) ∷ fs) w m = elim (due_of-cases member name version fs) [
    | inl (h, e) ↦ elim (subst (Memᴰ w) e m) [
      | head i ↦ (
        ap (λ v. v.member) i,
        head (ap (λ v. (v.folder, v.version)) i),
        subst (λ v. allowed (lookup v.folder approved) v.version ≡ true) (sym i) h,
      )
      | tail r ↦ deeper (due_of-mem member fs w r)
    ]
    | inr (h, e) ↦ deeper (due_of-mem member fs w (subst (Memᴰ w) e m))
  ]
    where
      deeper :
          (w.member ≡ member)
            × Memᴰ (w.folder, w.version) fs
            × (allowed (lookup w.folder approved) w.version ≡ true)
          → (w.member ≡ member)
            × Memᴰ (w.folder, w.version) ((name, version) ∷ fs)
            × (allowed (lookup w.folder approved) w.version ≡ true)
      deeper (a, b, c) = (a, tail b, c)

  mem-due_of :
      (fs : Dict Folder) (w : Waiting)
      → Memᴰ (w.folder, w.version) fs
      → allowed (lookup w.folder approved) w.version ≡ true
      → Memᴰ w (due_of approved w.member fs)
  unfolding due_of
  mem-due_of [] w m h = elim m [ ]
  mem-due_of ((name, version) ∷ fs) w m h = elim (due_of-cases w.member name version fs) [
    | inl (i, e) ↦ subst (Memᴰ w) (sym e) (elim m [
      | head j ↦ head (ap (λ p. record { member = w.member; folder = p.0; version = p.1 }) j)
      | tail r ↦ tail (mem-due_of fs w r h)
    ])
    | inr (i, e) ↦ subst (Memᴰ w) (sym e) (elim m [
      | head j ↦
          absurd (false≢true (sym i ∙ sym (ap (λ p. allowed (lookup p.0 approved) p.1) j) ∙ h))
      | tail r ↦ mem-due_of fs w r h
    ])
  ]

  due_all-mem :
      (pending : Dict (Dict Folder)) (w : Waiting)
      → Memᴰ w (due_all approved pending)
        ↔ (Pending w pending × (allowed (lookup w.folder approved) w.version ≡ true))
  unfolding due_all
  due_all-mem [] w = (λ m. elim m [ ], λ p. elim p.0.1 [ ])
  due_all-mem ((member, fs) ∷ pending) w = (
    λ m. elim (append_cases (due_of approved member fs) m) [
      | inl l ↦ let (e, n, h) = due_of-mem member fs w l in ((fs, head (ap (λ k. (k, fs)) e), n), h)
      | inr r ↦ let ((gs, n, k), h) = (due_all-mem pending w).0 r in ((gs, tail n, k), h)
    ],
    λ p. elim p.0.1 [
      | head e ↦
          append_left (due_all approved pending)
            (subst (λ t. Memᴰ w (due_of approved t.0 t.1)) e (mem-due_of p.0.0 w p.0.2 p.1))
      | tail r ↦
          append_right (due_of approved member fs)
            ((due_all-mem pending w).1 ((p.0.0, r, p.0.2), p.1))
    ],
  )

  mem-scripts_of :
      (ws : List Waiting) (w : Waiting) (a : Approval)
      → Memᴰ w ws
      → lookup w.folder approved ≡ some a
      → lookup w.folder (scripts_of approved ws) ≡ some a.script
  unfolding scripts_of
  mem-scripts_of [] w a m e = elim m [ ]
  mem-scripts_of (v ∷ ws) w a m e = elim (Option-cases (lookup v.folder approved)) [
    | inl n ↦ elim m [
      | head i ↦ absurd (none-ne-some _ (sym n ∙ sym (ap (λ t. lookup t.folder approved) i) ∙ e))
      | tail r ↦ ground (arith, mem-scripts_of ws w a r e)
    ]
    | inr (b, n) ↦
        ap (lookup w.folder) (kept b n)
        ∙ lookup-insert v.folder w.folder b.script (scripts_of approved ws)
        ∙ elim (Bool-cases (str_eq v.folder w.folder)) [
          | inl same ↦
              ground
                (arith, eq_iff v.folder w.folder, ap (λ (t : Approval). t.script) {x = b} {y = a})
          | inr other ↦ elim m [
            | head i ↦ ground (arith, eq_iff v.folder w.folder, ap (λ (t : Waiting). t.folder) i)
            | tail r ↦ ground (arith, mem-scripts_of ws w a r e)
          ]
        ]
  ]
    where
      kept :
          (b : Approval)
          → lookup v.folder approved ≡ some b
          → scripts_of approved (v ∷ ws) ≡ insert v.folder b.script (scripts_of approved ws)
      kept b n = ground arith

-- In a tidy state, a run is due exactly where its folder waits at its member in that version, and the
-- approval of the folder is for a version with the same size and time.
pub due_iff :
    (s : Setups) (w : Waiting)
    → IsTidy s.state
    → Memᴰ w (due s).0 ↔ (
        (fs : Dict Folder) × (lookup w.member s.state.pending ≡ some fs)
        × (lookup w.folder fs ≡ some w.version)
        × (allowed (lookup w.folder s.state.approved) w.version ≡ true))
unfolding due
due_iff s w t =
    let sorted = sort_by-mem waits_before (due_all s.state.approved s.state.pending) in
    let all = due_all-mem s.state.approved s.state.pending w in
    (
      λ m.
          let ((fs, n, k), h) = all.0 (sorted.0 m) in
          let e = mem-lookup w.member fs s.state.pending t.pending n in
          (
            fs,
            e,
            mem-lookup w.folder w.version fs
                (lookup-Each Filled w.member fs s.state.pending t.filled e).1 k,
            h,
          ),
      λ (fs, e, k, h). sorted.1 (
          all.1 (
            (fs, lookup-mem w.member fs s.state.pending e, lookup-mem w.folder w.version fs k),
            h,
          )),
    )

waits_before-asymm : (a b : Waiting) → waits_before a b ≡ true → waits_before b a ≡ false
unfolding waits_before
waits_before-asymm a b h = ground (
  arith,
  eq_iff a.member b.member,
  eq_iff b.member a.member,
  text_lt-asymm (codes a.member) (codes b.member),
  text_lt-asymm (codes a.folder) (codes b.folder),
)

-- The runs that are due stand in the order of their members, and at one member in that of the folders.
pub due-InOrder : (s : Setups) → InOrder waits_before (due s).0
unfolding due
due-InOrder s =
    sort_by-InOrder waits_before waits_before-asymm (due_all s.state.approved s.state.pending)

allowed-cases :
    (o : Option Approval) (v : Folder)
    → allowed o v ≡ true
    → (a : Approval) × (o ≡ some a) × (same_version a.version v ≡ true)
unfolding allowed
allowed-cases none v h = ground arith
allowed-cases (some a) v h = (a, refl, h)

-- A run that is due was approved: in a history that starts with nothing approved, the last thing said
-- about its folder is an approval, in a version with the same size and time as the one that waits,
-- and the script that `due` gives for the folder is the one that was approved.
pub due-WasApproved :
    (s : Setups) (cs : List Call) (w : Waiting)
    → s.state.approved ≡ []
    → Memᴰ w (due (run s cs)).0
    → (a : Approval) × WasApproved w.folder a cs
      × (same_version a.version w.version ≡ true)
      × (lookup w.folder (due (run s cs)).1 ≡ some a.script)
unfolding due lookup
due-WasApproved s cs w fresh m =
    let t = (run s cs).state in
    let all = due_all t.approved t.pending in
    let in_all = (sort_by-mem waits_before all).0 m in
    let (a, e, same) =
      allowed-cases (lookup w.folder t.approved) w.version
        ((due_all-mem t.approved t.pending w).0 in_all).1 in
    elim (run-known w.folder a s cs e) [
      | inl (old, quiet) ↦ absurd (none-ne-some a (sym (ap (lookup w.folder) fresh) ∙ old))
      | inr was ↦ (a, was, same, mem-scripts_of t.approved all w a in_all e)
    ]
