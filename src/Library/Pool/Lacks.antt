-- ===== src/Library/Pool/Lacks.antt =====
-- internal/library/pool.go: a library that lacks a title, and titles that were declined.
use mathlib.Core.List.{Memᴰ}
use mathlib.Core.List.Memᴰ.{head, tail}
use polyseat.Prelude.{
  ℕ, ◌≡◌, refl, ap, sym, subst, ◌∙◌, ◌⊎◌, inl, inr, true, false, not, ◌&&◌, Option, none, some,
  List, [], ◌∷◌, map, if◌then◌else◌, arith, Bool-cases,
}
use polyseat.Prelude.Text.{Text, text_eq, text_eq_iff}
use polyseat.Prelude.Sort.{sort_by-mem}
use polyseat.Prelude.Table.{Table, find, put, find-put, is_some}
use polyseat.Library.Manifest.{App, is_installed}
use polyseat.Library.Pool.{
  giving, Tree, Status, declined, State, Steam, Member, Env, status, marks_of, mark, marked,
  read_apps, copy_of, Done,
}
use polyseat.Library.Pool.Loops.{each-keeps}
use polyseat.Library.Pool.Harvest.{Pass}
use polyseat.Library.Pool.Distribute.{
  Giving, Verdict, skip, wait, refuse, give, settle_verdict, verdict, present, give_app,
  app_verdict, carry_out, distribute_app, distribute,
}

marks_of-mark :
    (seat key n : Text) (m : Status) (s : State)
    → find n (mark seat key m s).delivered ≡ (
        if text_eq seat n
        then some (put key (marked (status seat key s) m) (marks_of seat s))
        else find n s.delivered)
unfolding mark
marks_of-mark seat key n m s = find-put seat n _ s.delivered

status-marks_of : (n id : Text) (s : State) → status n id s ≡ find id (marks_of n s)
unfolding status marks_of
status-marks_of n id s = ground arith

pub status-mark :
    (seat key n id : Text) (m : Status) (s : State)
    → status n id (mark seat key m s) ≡ (
        if text_eq seat n && text_eq key id
        then some (marked (status seat key s) m)
        else status n id s)
unfolding status
status-mark seat key n id m s = ground (
  arith,
  marks_of-mark seat key n m s,
  text_eq_iff seat n,
  find-put key id (marked (status seat key s) m) (marks_of seat s),
  status-marks_of n id s,
  status-marks_of seat id s,
)

-- A title that was declined stays declined, whatever is recorded.
pub declined-mark :
    (n id seat key : Text) (m : Status) (s : State)
    → status n id s ≡ some declined
    → status n id (mark seat key m s) ≡ some declined
declined-mark n id seat key m s h = elim (Bool-cases (text_eq seat n && text_eq key id)) [
  | inr k ↦ ground (arith, status-mark seat key n id m s)
  | inl k ↦
      ground (arith, status-mark seat key n id m s, text_eq_iff seat n, text_eq_iff key id, same k)
]
  where
    same : (text_eq seat n && text_eq key id) ≡ true → status seat key s ≡ some declined
    same k =
        ap (λ t. status t key s) ((text_eq_iff seat n).0 (ground arith))
        ∙ ap (λ t. status n t s) ((text_eq_iff key id).0 (ground arith))
        ∙ h

-- No manifest of the library is the title's.
abbrev pub Lacks : Text → Table App → Type 0
Lacks id ms = (x : Text × App) → Memᴰ x ms → text_eq x.1.fields.app_id id ≡ false

pub put-mem {ℓ} :
    {V : Type ℓ} (k : Text) (v : V) (m : Table V) (x : Text × V)
    → Memᴰ x (put k v m)
    → (x ≡ (k, v)) ⊎ Memᴰ x m
unfolding put
put-mem k v [] x (head e) = inl e
put-mem k v [] x (tail r) = elim r [ ]
put-mem k v ((j, w) ∷ m) x h = elim (Bool-cases (text_eq j k)) [
  | inl e ↦ replaced (subst (Memᴰ x) (ground arith) h)
  | inr e ↦ behind (λ r. put-mem k v m x r) (subst (Memᴰ x) (ground arith) h)
]
  where
    replaced : Memᴰ x ((k, v) ∷ m) → (x ≡ (k, v)) ⊎ Memᴰ x ((j, w) ∷ m)
    replaced (head e) = inl e
    replaced (tail r) = inr (tail r)

    behind :
        (Memᴰ x (put k v m) → (x ≡ (k, v)) ⊎ Memᴰ x m)
        → Memᴰ x ((j, w) ∷ put k v m)
        → (x ≡ (k, v)) ⊎ Memᴰ x ((j, w) ∷ m)
    behind f (head e) = inr (head e)
    behind f (tail r) = elim (f r) [ inl e ↦ inl e | inr s ↦ inr (tail s) ]

pub Lacks-put :
    (id k : Text) (a : App) (ms : Table App)
    → text_eq a.fields.app_id id ≡ false
    → Lacks id ms
    → Lacks id (put k a ms)
Lacks-put id k a ms other lacks x h = elim (put-mem k a ms x h) [
  | inl e ↦ subst (λ (y : Text × App). text_eq y.1.fields.app_id id ≡ false) (sym e) other
  | inr r ↦ lacks x r
]

pub map-mem :
    (ms : Table App) (a : App)
    → Memᴰ a (map (λ (e : Text × App). e.1) ms)
    → (x : Text × App) × Memᴰ x ms × (a ≡ x.1)
map-mem [] a m = elim m [ ]
map-mem ((k, b) ∷ ms) a (head e) = ((k, b), head refl, e)
map-mem ((k, b) ∷ ms) a (tail r) = let (x, h, e) = map-mem ms a r in (x, tail h, e)

present-none :
    (id : Text) (apps : List App)
    → ((a : App) → Memᴰ a apps → text_eq a.fields.app_id id ≡ false)
    → present id apps ≡ none
unfolding present
present-none id [] h = refl
present-none id (app ∷ apps) h =
    ground (arith, present-none id apps (λ a m. h a (tail m)), h app (head refl))

pub Lacks-present : (id : Text) (ms : Table App) → Lacks id ms → present id (read_apps ms) ≡ none
unfolding read_apps
Lacks-present id ms lacks = present-none id (read_apps ms) (λ a m.
    let (x, h, e) = map-mem ms a ((sort_by-mem _ _).0 m) in
    subst (λ (b : App). text_eq b.fields.app_id id ≡ false) (sym e) (lacks x h))

-- A declined title that the member lacks is passed over.
pub declined-verdict :
    (m : Member) (before : List App) (app : App) (s : Pass)
    → present app.fields.app_id before ≡ none
    → status m.name app.fields.app_id s.pool.state ≡ some declined
    → app_verdict m before app s ≡ skip
unfolding app_verdict verdict
declined-verdict m before app s h k = ground arith

give_app-manifests :
    (e : Env) (m : Member) (app : App) (tree : Tree) (g : Giving Steam)
    → ((give_app e m app tree g).0.home.manifests ≡ g.home.manifests)
      ⊎ ((give_app e m app tree g).0.home.manifests
          ≡ put app.fields.app_id (copy_of e.now app) g.home.manifests)
unfolding give_app
give_app-manifests e m app tree g =
    elim (Bool-cases (not (is_some g.home.common) && e.common_fails m.name)) [
      | inl h ↦ inl (ground arith)
      | inr h ↦ elim (Bool-cases (e.clone_fails giving m.name app.fields.install_dir)) [
        | inl i ↦ inl (ground arith)
        | inr i ↦ elim (Bool-cases (e.manifest_fails giving m.name app.fields.app_id)) [
          | inl j ↦ inl (ground arith)
          | inr j ↦ inr (ground arith)
        ]
      ]
    ]

carry_out-home {ℓ} :
    {L : Type ℓ} (v : Verdict) (t : Option Tree) (act : Tree → Giving L → Done (Giving L))
    (left : Pass) (g : Giving L)
    → ((carry_out v t act left g).0.home ≡ g.home)
      ⊎ ((v ≡ give) × ((tree : Tree) × (carry_out v t act left g ≡ act tree g)))
carry_out-home give none act left g = inl refl
carry_out-home give (some tree) act left g = inr (refl, (tree, refl))
carry_out-home skip t act left g = inl refl
carry_out-home wait t act left g = inl refl
carry_out-home refuse t act left g = inl refl

-- A round leaves the member's manifests, or adds the app's where the switch gives it.
pub distribute_app-manifests :
    (e : Env) (m : Member) (before : List App) (app : App) (g : Giving Steam)
    → ((distribute_app e m before app g).0.home.manifests ≡ g.home.manifests)
      ⊎ ((app_verdict m before app g.pass ≡ give)
          × ((distribute_app e m before app g).0.home.manifests
              ≡ put app.fields.app_id (copy_of e.now app) g.home.manifests))
unfolding distribute_app
distribute_app-manifests e m before app g = elim (Bool-cases (is_installed app.fields)) [
  | inr h ↦ inl (ground arith)
  | inl h ↦
      elim (carry_out-home (app_verdict m before app g.pass)
        (find app.fields.install_dir g.pass.pool.common) (give_app e m app)
        (settle_verdict m.name app.fields.app_id app.fields.name (app_verdict m before app g.pass)
          g.pass)
        g) [
          | inl k ↦ inl (ground arith)
          | inr (v, (tree, k)) ↦ elim (give_app-manifests e m app tree g) [
            | inl j ↦ inl (ground arith)
            | inr j ↦ inr (v, ground arith)
          ]
        ]
]

-- What giving a title keeps of the manifests, offering the pool's titles keeps.
pub distribute-manifests {μ} :
    (M : Table App → Type μ)
    → ((now : ℕ) (app : App) (ms : Table App)
        → M ms
        → M (put app.fields.app_id (copy_of now app) ms))
    → (e : Env) (m : Member) (pool : List App) (lib : Steam) (s : Pass) → M lib.manifests
    → M (distribute e m pool lib s).0.home.manifests
unfolding distribute
distribute-manifests M puts e m pool lib s had =
    each-keeps (λ (g : Giving Steam). M g.home.manifests)
      (distribute_app e m (read_apps lib.manifests))
      (λ app g h. elim (distribute_app-manifests e m (read_apps lib.manifests) app g) [
        | inl k ↦ subst M (sym k) h
        | inr (v, k) ↦ subst M (sym k) (puts e.now app g.home.manifests h)
      ])
      pool (record { pass = s; home = lib }) had
