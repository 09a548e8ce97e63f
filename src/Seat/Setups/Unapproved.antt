-- ===== src/Seat/Setups/Unapproved.antt =====
-- internal/seat/foldersetup.go: the members that wait for an approval.
use mathlib.Core.Bool.{false≢true}
use mathlib.Core.List.{Memᴰ}
use mathlib.Core.List.Memᴰ.{head, tail, append_left, append_right, append_cases}
use polyseat.Prelude.{
  ◌≡◌, ◌↔◌, refl, ap, sym, subst, ◌∙◌, ◌⊎◌, inl, inr, true, false, none, some, List, [], ◌∷◌, ◌++◌,
  String, str_eq, eq_iff, Option-cases, Bool-cases, if◌then◌else◌, arith, map,
}
use polyseat.Prelude.Text.{codes}
use polyseat.Prelude.Dict.{Dict, lookup, lookup-insert, lookup-mem, mem-lookup}
use polyseat.Prelude.Sort.{text_lt, sort_by-mem}
use polyseat.Library.Folder.{Folder}
use polyseat.Seat.Setups.{Approval, Setups, allowed}
use polyseat.Seat.Setups.Kept.{IsTidy, Filled, lookup-Each}
use polyseat.Seat.Setups.Runs.{
  append_member, unapproved_of, unapproved_all, unapproved, sort_strings,
}

-- The members that are listed for a folder.
unfoldable pub members_of : String → Dict (List String) → List String
unfolding lookup
members_of name out = elim (lookup name out) [ none ↦ [] | some ms ↦ ms ]

nobody : (n m : String) → Memᴰ m (members_of n []) → ⊥
unfolding members_of lookup
nobody n m k = elim k [ ]

members_of-append_member :
    (n name member : String) (out : Dict (List String))
    → members_of n (append_member name member out)
      ≡ (if str_eq name n then members_of n out ++ (member ∷ []) else members_of n out)
unfolding members_of append_member
members_of-append_member n name member out = elim (Option-cases (lookup name out)) [
  | inl e ↦ ground (arith, e, lookup-insert name n (member ∷ []) out, eq_iff name n)
  | inr (ms, e) ↦ ground (arith, e, lookup-insert name n (ms ++ (member ∷ [])) out, eq_iff name n)
]

-- What one folder of one member adds.
abbrev listed : Dict Approval → String → String → Folder → Dict (List String) → Dict (List String)
listed approved member name v out =
    if allowed (lookup name approved) v then out else append_member name member out

module _ (approved : Dict Approval) (n m : String) where
  -- The member waits with a version of the folder that is not allowed.
  abbrev Waits : Dict Folder → Type 0
  Waits fs = (v : Folder) × Memᴰ (n, v) fs × (allowed (lookup n approved) v ≡ false)

  listed-cases :
      (member name : String) (v : Folder) (out : Dict (List String))
      → (members_of n (listed approved member name v out) ≡ members_of n out)
          × (n ≡ name → allowed (lookup name approved) v ≡ true)
        ⊎ (members_of n (listed approved member name v out) ≡ members_of n out ++ (member ∷ []))
          × (name ≡ n)
          × (allowed (lookup name approved) v ≡ false)
  listed-cases member name v out = elim (Bool-cases (allowed (lookup name approved) v)) [
    | inl a ↦ inl (ground arith, λ e. a)
    | inr a ↦ elim (Bool-cases (str_eq name n)) [
      | inl b ↦ inr (
        ap (members_of n) (appended a) ∙ members_of-append_member n name member out ∙ ground arith,
        (eq_iff name n).0 b,
        a,
      )
      | inr b ↦ inl (
        ap (members_of n) (appended a) ∙ members_of-append_member n name member out ∙ ground arith,
        λ e. ground (arith, eq_iff name n),
      )
    ]
  ]
    where
      appended :
          allowed (lookup name approved) v ≡ false
          → listed approved member name v out ≡ append_member name member out
      appended a = ground arith

  listed-mem :
      (member name : String) (v : Folder) (out : Dict (List String))
      → Memᴰ m (members_of n (listed approved member name v out)) ↔ (
          Memᴰ m (members_of n out)
          ⊎ ((m ≡ member) × (n ≡ name) × (allowed (lookup name approved) v ≡ false)))
  listed-mem member name v out = elim (listed-cases member name v out) [
    | inl (e, ok) ↦ (
      λ k. inl (subst (Memᴰ m) e k),
      λ k. elim k [
        | inl k ↦ subst (Memᴰ m) (sym e) k
        | inr (i, j, no_leave) ↦ absurd (false≢true (sym no_leave ∙ ok j))
      ],
    )
    | inr (e, i, a) ↦ (
      λ k. elim (append_cases (members_of n out) (subst (Memᴰ m) e k)) [
        | inl k ↦ inl k
        | inr k ↦ elim k [ head j ↦ inr (j, sym i, a) | tail r ↦ elim r [ ] ]
      ],
      λ k. subst (Memᴰ m) (sym e) (elim k [
        | inl k ↦ append_left (member ∷ []) k
        | inr (j, i, b) ↦ append_right (members_of n out) (head j)
      ]),
    )
  ]

  unapproved_of-mem :
      (member : String) (fs : Dict Folder) (out : Dict (List String))
      → Memᴰ m (members_of n (unapproved_of approved member fs out))
        ↔ (Memᴰ m (members_of n out) ⊎ ((m ≡ member) × Waits fs))
  unfolding unapproved_of
  unapproved_of-mem member [] out = (λ k. inl k, λ k. elim k [ inl k ↦ k | inr w ↦ elim w.1.1 [ ] ])
  unapproved_of-mem member ((name, v) ∷ fs) out =
      let rest = unapproved_of-mem member fs (listed approved member name v out) in
      let here = listed-mem member name v out in
      (
        λ k. elim (rest.0 k) [
          | inl k ↦ elim (here.0 k) [
            | inl k ↦ inl k
            | inr (i, j, a) ↦ inr (
              i,
              (
                v,
                head (ap (λ t. (t, v)) j),
                subst (λ t. allowed (lookup t approved) v ≡ false) (sym j) a,
              ),
            )
          ]
          | inr (i, (u, r, a)) ↦ inr (i, (u, tail r, a))
        ],
        λ k. elim k [
          | inl k ↦ rest.1 (inl (here.1 (inl k)))
          | inr (i, (u, r, a)) ↦ elim r [
            | head e ↦ rest.1 (
                inl (
                  here.1 (
                    inr (
                      i,
                      ap (λ t. t.0) e,
                      subst (λ t. allowed (lookup t.0 approved) t.1 ≡ false) e a,
                    ))))
            | tail r ↦ rest.1 (inr (i, (u, r, a)))
          ]
        ],
      )

  unapproved_all-mem :
      (pending : Dict (Dict Folder)) (out : Dict (List String))
      → Memᴰ m (members_of n (unapproved_all approved pending out))
        ↔ (Memᴰ m (members_of n out) ⊎ ((fs : Dict Folder) × Memᴰ (m, fs) pending × Waits fs))
  unfolding unapproved_all
  unapproved_all-mem [] out = (λ k. inl k, λ k. elim k [ inl k ↦ k | inr w ↦ elim w.1 [ ] ])
  unapproved_all-mem ((member, fs) ∷ pending) out =
      let rest = unapproved_all-mem pending (unapproved_of approved member fs out) in
      let here = unapproved_of-mem member fs out in
      (
        λ k. elim (rest.0 k) [
          | inl k ↦ elim (here.0 k) [
            | inl k ↦ inl k
            | inr (i, w) ↦ inr (fs, head (ap (λ t. (t, fs)) i), w)
          ]
          | inr (gs, r, w) ↦ inr (gs, tail r, w)
        ],
        λ k. elim k [
          | inl k ↦ rest.1 (inl (here.1 (inl k)))
          | inr (gs, r, w) ↦ elim r [
            | head e ↦
                rest.1 (inl (here.1 (inr (ap (λ t. t.0) e, subst Waits (ap (λ t. t.1) e) w))))
            | tail r ↦ rest.1 (inr (gs, r, w))
          ]
        ],
      )

sort_strings-nil : sort_strings [] ≡ []
unfolding sort_strings
sort_strings-nil = refl

members_of-cons :
    (n name : String) (ms : List String) (out : Dict (List String))
    → members_of n ((name, ms) ∷ out) ≡ (if str_eq name n then ms else members_of n out)
unfolding members_of lookup
members_of-cons n name ms out = ground arith

members_of-sorted :
    (n : String) (out : Dict (List String))
    → members_of n (map (λ e. (e.0, sort_strings e.1)) out) ≡ sort_strings (members_of n out)
unfolding members_of
members_of-sorted n [] = sym sort_strings-nil
members_of-sorted n ((name, ms) ∷ out) =
    let sorted_out = map (λ (e : String × List String). (e.0, sort_strings e.1)) out in
    members_of-cons n name (sort_strings ms) sorted_out ∙ elim (Bool-cases (str_eq name n)) [
      | inl b ↦ ground (arith, members_of-cons n name ms out)
      | inr b ↦ ground (arith, members_of-cons n name ms out, members_of-sorted n out)
    ]

-- In a tidy state, a member is listed for a folder exactly where that folder waits there in a version
-- that the approval of the folder, if there is one, is not for.
pub unapproved_iff :
    (s : Setups) (n m : String)
    → IsTidy s.state
    → Memᴰ m (members_of n (unapproved s)) ↔ (
        (fs : Dict Folder) × (v : Folder) × (lookup m s.state.pending ≡ some fs)
        × (lookup n fs ≡ some v)
        × (allowed (lookup n s.state.approved) v ≡ false))
unfolding unapproved sort_strings
unapproved_iff s n m t =
    let out = unapproved_all s.state.approved s.state.pending [] in
    let sorted = members_of-sorted n out in
    let same = sort_by-mem (λ a b. text_lt (codes a) (codes b)) {a = m} (members_of n out) in
    let all = unapproved_all-mem s.state.approved n m s.state.pending [] in
    (
      λ k. elim (all.0 (same.0 (subst (Memᴰ m) sorted k))) [
        | inl none_yet ↦ absurd (nobody n m none_yet)
        | inr (fs, r, (v, q, a)) ↦
            let e = mem-lookup m fs s.state.pending t.pending r in
            (
              fs,
              v,
              e,
              mem-lookup n v fs (lookup-Each Filled m fs s.state.pending t.filled e).1 q,
              a,
            )
      ],
      λ (fs, v, e, q, a). subst (Memᴰ m) (sym sorted) (
          same.1
            (all.1 (inr (fs, lookup-mem m fs s.state.pending e, (v, lookup-mem n v fs q, a))))),
    )
