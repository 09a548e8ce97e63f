-- ===== src/Library/Pool/Offers.antt =====
-- internal/library/pool.go: offering the titles of the pool to a member.
use mathlib.Core.List.{Memᴰ}
use mathlib.Core.List.Memᴰ.{head, tail}
use polyseat.Prelude.{
  ◌≡◌, refl, ap, sym, subst, ◌∙◌, ◌⊎◌, inl, inr, Bool, true, false, Option, none, some, List, [],
  ◌∷◌, arith,
}
use polyseat.Prelude.Text.{Text, text_eq_refl}
use polyseat.Prelude.Table.{Table, find, put, is_some}
use polyseat.Library.Manifest.{App, is_installed}
use polyseat.Library.Pool.{
  Way, giving, Tree, Status, delivered, declined, State, Steam, Pool, Member, Env, status, mark,
  marked, read_apps, copy_of, Done, each,
}
use polyseat.Library.Pool.Loops.{each-keeps}
use polyseat.Library.Pool.Harvest.{Pass, mark_pass}
use polyseat.Library.Pool.Distribute.{
  Giving, Verdict, skip, wait, refuse, give, settle_verdict, verdict, present, give_app,
  app_verdict, app_offer, carry_out, distribute_app, distribute,
}
use polyseat.Library.Pool.Ahead.{is_some-put, is_some-put_same}
use polyseat.Library.Pool.Keyed.{IsKeyed, IsKeyed-put, present-found}
use polyseat.Library.Pool.Lacks.{status-mark, declined-mark, distribute_app-manifests}
use polyseat.Library.Pool.Sync.Offered.{distribute_app-keeps}

-- No copy and no directory fails.
abbrev pub IsCalm : Env → Type 0
IsCalm e =
    ((way : Way) (n k : Text) → e.clone_fails way n k ≡ false)
    × ((way : Way) (n k : Text) → e.manifest_fails way n k ≡ false)
    × ((n : Text) → e.common_fails n ≡ false)

-- The member has the title, or declined it.
abbrev pub Has : Text → Text → Giving Steam → Type 0
Has n id g =
    (is_some (find id g.home.manifests) ≡ true) ⊎ (status n id g.pass.pool.state ≡ some declined)

verdict-cases :
    (o : Option Bool) (u : Bool) (st : Option Status)
    → (verdict o u st ≡ give)
      ⊎ (verdict o u st ≡ refuse)
      ⊎ (is_some o ≡ true)
      ⊎ (st ≡ some declined)
unfolding verdict is_some
verdict-cases (some false) u st = inr (inr (inl refl))
verdict-cases (some true) u st = inr (inr (inl refl))
verdict-cases none u (some declined) = inr (inr (inr refl))
verdict-cases none u (some delivered) = inr (inl refl)
verdict-cases none u none = inl refl

app_offer-present :
    (o : Option App) (app : App) → is_some (app_offer o app) ≡ true → (a : App) × (o ≡ some a)
unfolding is_some
app_offer-present none app h = ground arith
app_offer-present (some a) app h = (a, refl)

give_app-calm :
    (e : Env) (m : Member) (app : App) (tree : Tree) (g : Giving Steam)
    → IsCalm e
    → ((give_app e m app tree g).0.home.manifests
        ≡ put app.fields.app_id (copy_of e.now app) g.home.manifests)
      × ((give_app e m app tree g).1 ≡ false)
unfolding give_app
give_app-calm e m app tree g (clone, manifest, common) = (
  ground (
    arith,
    clone giving m.name app.fields.install_dir,
    manifest giving m.name app.fields.app_id,
    common m.name,
  ),
  ground (
    arith,
    clone giving m.name app.fields.install_dir,
    manifest giving m.name app.fields.app_id,
    common m.name,
  ),
)

carry_out-calm {ℓ} :
    {L : Type ℓ} (v : Verdict) (t : Option Tree) (act : Tree → Giving L → Done (Giving L))
    (left : Pass) (g : Giving L)
    → ((tree : Tree) → (act tree g).1 ≡ false)
    → (carry_out v t act left g).1 ≡ false
carry_out-calm give none act left g k = refl
carry_out-calm give (some tree) act left g k = k tree
carry_out-calm skip t act left g k = refl
carry_out-calm wait t act left g k = refl
carry_out-calm refuse t act left g k = refl

-- A round in which nothing fails goes on.
distribute_app-calm :
    (e : Env) (m : Member) (before : List App) (app : App) (g : Giving Steam)
    → IsCalm e
    → (distribute_app e m before app g).1 ≡ false
unfolding distribute_app
distribute_app-calm e m before app g calm = ground (
  arith,
  carry_out-calm (app_verdict m before app g.pass) (find app.fields.install_dir g.pass.pool.common)
      (give_app e m app)
      (settle_verdict m.name app.fields.app_id app.fields.name (app_verdict m before app g.pass)
        g.pass)
      g (λ tree. (give_app-calm e m app tree g calm).1),
)

distribute_app-installed :
    (e : Env) (m : Member) (before : List App) (app : App) (g : Giving Steam) (tree : Tree)
    → is_installed app.fields ≡ true
    → find app.fields.install_dir g.pass.pool.common ≡ some tree
    → distribute_app e m before app g
      ≡ carry_out
          (app_verdict m before app g.pass)
          (some tree)
          (give_app e m app)
          (settle_verdict m.name app.fields.app_id app.fields.name
            (app_verdict m before app g.pass)
            g.pass)
          g
unfolding distribute_app
distribute_app-installed e m before app g tree i t = ground arith

-- A round keeps what the member has, and what it declined.
distribute_app-Has :
    (e : Env) (m : Member) (before : List App) (app : App) (g : Giving Steam) (n id : Text)
    → Has n id g
    → Has n id (distribute_app e m before app g).0
unfolding mark
distribute_app-Has e m before app g n id (inr d) = inr (
    distribute_app-keeps (λ (p : Pool). status n id p.state ≡ some declined)
      (λ seat key s q h. declined-mark n id seat key s q.state h) e m before app g d)
distribute_app-Has e m before app g n id (inl h) =
    elim (distribute_app-manifests e m before app g) [
      | inl k ↦ inl (subst (λ (ms : Table App). is_some (find id ms) ≡ true) (sym k) h)
      | inr (v, k) ↦ inl (
          subst (λ (ms : Table App). is_some (find id ms) ≡ true) (sym k)
            (is_some-put app.fields.app_id id (copy_of e.now app) g.home.manifests h))
    ]

marked-declined : (st : Option Status) → marked st declined ≡ declined
marked-declined none = refl
marked-declined (some delivered) = refl
marked-declined (some declined) = refl

refused : (n id : Text) (s : State) → status n id (mark n id declined s) ≡ some declined
refused n id s = ground (
  arith,
  status-mark n id n id declined s,
  text_eq_refl n,
  text_eq_refl id,
  marked-declined (status n id s),
)

is_some-cases {ℓ} : {A : Type ℓ} (o : Option A) → is_some o ≡ true → (a : A) × (o ≡ some a)
unfolding is_some
is_some-cases none h = ground arith
is_some-cases (some a) h = (a, refl)

-- The app is installed and has its tree.
abbrev pub CanGive : Table Tree → App → Type 0
CanGive common app =
    (is_installed app.fields ≡ true) × (is_some (find app.fields.install_dir common) ≡ true)

module _ (e : Env) (m : Member) (lib : Steam) (common : Table Tree) where
  -- What a round may rely on: the library has what it had, under the same ids, and the pool its trees.
  abbrev Going : Giving Steam → Type 0
  Going g =
      ((k : Text)
        → is_some (find k lib.manifests) ≡ true
        → is_some (find k g.home.manifests) ≡ true)
      × (g.pass.pool.common ≡ common)
      × IsKeyed g.home.manifests

  distribute_app-Going :
      (app : App) (g : Giving Steam)
      → Going g
      → Going (distribute_app e m (read_apps lib.manifests) app g).0
  unfolding mark
  distribute_app-Going app g (had, same, keyed) = (
    λ k h. elim (distribute_app-manifests e m (read_apps lib.manifests) app g) [
      | inl r ↦ subst (λ (ms : Table App). is_some (find k ms) ≡ true) (sym r) (had k h)
      | inr (v, r) ↦
          subst (λ (ms : Table App). is_some (find k ms) ≡ true) (sym r)
            (is_some-put app.fields.app_id k (copy_of e.now app) g.home.manifests (had k h))
    ],
    distribute_app-keeps (λ (p : Pool). p.common ≡ common) (λ seat key s q h. h) e m
        (read_apps lib.manifests) app g same,
    elim (distribute_app-manifests e m (read_apps lib.manifests) app g) [
      | inl r ↦ subst IsKeyed (sym r) keyed
      | inr (v, r) ↦ subst IsKeyed (sym r) (IsKeyed-put e.now app g.home.manifests keyed)
    ],
  )

  module _ (calm : IsCalm e) (keyed : IsKeyed lib.manifests) where
    -- After the round of an installed title with a tree, the member has it or declined it.
    distribute_app-offers :
        (app : App) (g : Giving Steam) (tree : Tree)
        → is_installed app.fields ≡ true
        → find app.fields.install_dir common ≡ some tree
        → Going g
        → Has m.name app.fields.app_id (distribute_app e m (read_apps lib.manifests) app g).0
    unfolding settle_verdict mark_pass app_verdict mark
    distribute_app-offers app g tree i t (had, same, k) =
        let before = read_apps lib.manifests in
        let id = app.fields.app_id in
        let carried : Verdict → Done (Giving Steam) = λ v.
          carry_out v (some tree) (give_app e m app)
            (settle_verdict m.name id app.fields.name v g.pass) g in
        let round : distribute_app e m before app g ≡ carried (app_verdict m before app g.pass) =
          distribute_app-installed e m before app g tree i
            (ap (find app.fields.install_dir) same ∙ t) in
        elim (verdict-cases (app_offer (present id before) app) m.is_updatable
          (status m.name id g.pass.pool.state)) [
            | inl v ↦ inl (
                subst (λ (ms : Table App). is_some (find id ms) ≡ true)
                  (sym (
                    ap (λ (d : Done (Giving Steam)). d.0.home.manifests) (round ∙ ap carried v)
                    ∙ (give_app-calm e m app tree g calm).0))
                  (is_some-put_same id (copy_of e.now app) g.home.manifests))
            | inr (inl v) ↦ inr (
                ap (λ (d : Done (Giving Steam)). status m.name id d.0.pass.pool.state)
                  (round ∙ ap carried v)
                ∙ refused m.name id g.pass.pool.state)
            | inr (inr (inl o)) ↦
                let (a, h) = app_offer-present (present id before) app o in
                distribute_app-Has e m before app g m.name id
                  (inl (had id (present-found id lib.manifests a keyed h)))
            | inr (inr (inr d)) ↦ distribute_app-Has e m before app g m.name id (inr d)
          ]

    offered : List App → Giving Steam → Giving Steam
    offered apps g = (each (distribute_app e m (read_apps lib.manifests)) apps g).0

    offered-next :
        (x : App) (xs : List App) (g : Giving Steam)
        → offered (x ∷ xs) g ≡ offered xs (distribute_app e m (read_apps lib.manifests) x g).0
    unfolding offered each
    offered-next x xs g = ground (arith, distribute_app-calm e m (read_apps lib.manifests) x g calm)

    -- After the rounds the member has each of the titles, or declined it.
    each-offers :
        (apps : List App) (g : Giving Steam)
        → ((app : App) → Memᴰ app apps → CanGive common app)
        → Going g
        → (app : App) → Memᴰ app apps
        → Has m.name app.fields.app_id (offered apps g)
    unfolding offered
    each-offers [] g ready going app h = elim h [ ]
    each-offers (x ∷ xs) g ready going app (head h) =
        let (i, t) = ready x (head refl) in
        let (tree, found) = is_some-cases (find x.fields.install_dir common) t in
        subst (Has m.name app.fields.app_id) (sym (offered-next x xs g)) (
          each-keeps (Has m.name app.fields.app_id) (distribute_app e m (read_apps lib.manifests))
            (λ y k. distribute_app-Has e m (read_apps lib.manifests) y k m.name app.fields.app_id)
            xs (distribute_app e m (read_apps lib.manifests) x g).0
            (subst
              (λ (y : App).
                Has m.name y.fields.app_id (distribute_app e m (read_apps lib.manifests) x g).0)
              (sym h) (distribute_app-offers x g tree i found going)))
    each-offers (x ∷ xs) g ready going app (tail r) =
        subst (Has m.name app.fields.app_id) (sym (offered-next x xs g)) (
          each-offers xs (distribute_app e m (read_apps lib.manifests) x g).0
            (λ y k. ready y (tail k)) (distribute_app-Going x g going) app r)

    pub distribute-offers :
        (apps : List App) (s : Pass)
        → ((app : App) → Memᴰ app apps → CanGive common app)
        → s.pool.common ≡ common
        → (app : App) → Memᴰ app apps
        → Has m.name app.fields.app_id (distribute e m apps lib s).0
    unfolding distribute offered
    distribute-offers apps s ready same app h =
        each-offers apps (record { pass = s; home = lib }) ready (λ k f. f, same, keyed) app h
