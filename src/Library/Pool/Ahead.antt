-- ===== src/Library/Pool/Ahead.antt =====
-- internal/library/pool.go: the pool before and after a harvest.
use mathlib.Core.Bool.{false≢true}
use mathlib.Core.Option.{some_inj}
use polyseat.Prelude.{
  ℕ, ◌≡◌, refl, ap, sym, subst, ◌∙◌, ◌⊎◌, inl, inr, true, false, some, if◌then◌else◌, arith,
  Bool-cases, Option-cases,
}
use polyseat.Prelude.Text.{Text, text_eq, text_eq_iff}
use polyseat.Prelude.Table.{Table, find, put, find-put, is_some}
use polyseat.Library.Manifest.{App, newer_build, is_installed}
use polyseat.Library.Pool.{taking, Tree, State, Pool, Env, Done, is_settled_app, copy_of}
use polyseat.Library.Pool.Harvest.{Pass, take_app, harvest_app, is_current}

-- The second build is the first, or newer.
abbrev pub NotBehind : Text → Text → Type 0
NotBehind a b = (a ≡ b) ⊎ (newer_build b a ≡ true)

newer_build_trans :
    (a b c : Text) → newer_build b a ≡ true → newer_build c b ≡ true → newer_build c a ≡ true
unfolding newer_build
newer_build_trans a b c h k = ground arith

NotBehind-trans : (a b c : Text) → NotBehind a b → NotBehind b c → NotBehind a c
NotBehind-trans a b c (inl e) k = subst (λ t. NotBehind t c) (sym e) k
NotBehind-trans a b c (inr h) (inl e) = inr (subst (λ t. newer_build t a ≡ true) e h)
NotBehind-trans a b c (inr h) (inr k) = inr (newer_build_trans a b c h k)

-- Each app of the pool has its tree.
abbrev pub IsWhole : Pool → Type 0
IsWhole p =
    (id : Text) (a : App)
    → find id p.apps ≡ some a
    → is_some (find a.fields.install_dir p.common) ≡ true

-- What the second pool has of the first.
pub record Ahead (p q : Pool) : Type 0 where
  pub builds :
      (id : Text) (a : App)
      → find id p.apps ≡ some a
      → (b : App) × (find id q.apps ≡ some b) × NotBehind a.fields.build_id b.fields.build_id
  pub trees :
      (name : Text) → is_some (find name p.common) ≡ true → is_some (find name q.common) ≡ true
  pub folders :
      (name : Text) → is_some (find name p.shared) ≡ true → is_some (find name q.shared) ≡ true

pub Ahead-refl : (p : Pool) → Ahead p p
Ahead-refl p = record { builds = λ id a e. (a, e, inl refl); trees = λ n h. h; folders = λ n h. h }

pub Ahead-trans : (p q r : Pool) → Ahead p q → Ahead q r → Ahead p r
Ahead-trans p q r h k = record {
  builds = λ id a e.
      let (b, f, n) = h.builds id a e in
      let (c, g, m) = k.builds id b f in
      (c, g, NotBehind-trans a.fields.build_id b.fields.build_id c.fields.build_id n m);
  trees = λ n s. k.trees n (h.trees n s);
  folders = λ n s. k.folders n (h.folders n s);
}

pub is_some-put {ℓ} :
    {V : Type ℓ} (key k : Text) (v : V) (m : Table V)
    → is_some (find k m) ≡ true
    → is_some (find k (put key v m)) ≡ true
unfolding is_some
is_some-put key k v m h = ground (arith, find-put key k v m)

pub is_some-put_same {ℓ} :
    {V : Type ℓ} (k : Text) (v : V) (m : Table V) → is_some (find k (put k v m)) ≡ true
unfolding is_some
is_some-put_same k v m = ground (arith, find-put k k v m, text_eq_iff k k)

-- The pool with one more tree, and with the app too.
abbrev pub with_tree : Text → Tree → Pool → Pool
with_tree name t p = record p { common = put name t p.common }

abbrev pub with_app : App → App → Pool → Pool
with_app app c p = record p { apps = put app.fields.app_id c p.apps }

with_tree-IsWhole : (name : Text) (t : Tree) (p : Pool) → IsWhole p → IsWhole (with_tree name t p)
with_tree-IsWhole name t p w id a e = is_some-put name a.fields.install_dir t p.common (w id a e)

with_tree-Ahead : (name : Text) (t : Tree) (p : Pool) → Ahead p (with_tree name t p)
with_tree-Ahead name t p = record {
  builds = λ id a e. (a, e, inl refl);
  trees = λ n h. is_some-put name n t p.common h;
  folders = λ n h. h;
}

-- An app that is not current is newer than the one that a whole pool has.
not_current :
    (app : App) (p : Pool)
    → IsWhole p
    → is_current app p ≡ false
    → (a : App) → find app.fields.app_id p.apps ≡ some a
    → newer_build app.fields.build_id a.fields.build_id ≡ true
unfolding is_current
not_current app p w h a e = ground (arith, w app.fields.app_id a e)

module _ (app : App) (now : ℕ) (tree : Tree) (p : Pool) where
  abbrev pub taken : Pool
  taken = with_app app (copy_of now app) (with_tree app.fields.install_dir tree p)

  pub taken-app :
      (id : Text)
      → find id taken.apps
        ≡ (if text_eq app.fields.app_id id then some (copy_of now app) else find id p.apps)
  taken-app id = find-put app.fields.app_id id (copy_of now app) p.apps

  pub taken-IsWhole : IsWhole p → IsWhole taken
  unfolding copy_of
  taken-IsWhole w id a e = elim (Bool-cases (text_eq app.fields.app_id id)) [
    | inl h ↦
        subst (λ (b : App). is_some (find b.fields.install_dir taken.common) ≡ true)
          {x = copy_of now app} {y = a} (some_inj.0 (ground (arith, taken-app id)))
          (is_some-put_same app.fields.install_dir tree p.common)
    | inr h ↦
        is_some-put app.fields.install_dir a.fields.install_dir tree p.common
          (w id a (ground (arith, taken-app id)))
  ]

  taken-Ahead : IsWhole p → is_current app p ≡ false → Ahead p taken
  unfolding copy_of
  taken-Ahead w c = record {
    builds = λ id a e. elim (Bool-cases (text_eq app.fields.app_id id)) [
      | inl h ↦ (
        copy_of now app,
        ground (arith, taken-app id),
        inr (
            not_current app p w c a (
              subst (λ t. find t p.apps ≡ some a) (sym ((text_eq_iff app.fields.app_id id).0 h))
                e)),
      )
      | inr h ↦ (a, ground (arith, taken-app id), inl refl)
    ];
    trees = λ n h. is_some-put app.fields.install_dir n tree p.common h;
    folders = λ n h. h;
  }

-- What a pass keeps of the pool that it started with.
pub record Grown (p q : Pool) : Type 0 where
  pub whole : IsWhole q
  pub ahead : Ahead p q
  pub withheld : q.state.withheld ≡ p.state.withheld
  pub held :
      (id : Text) → is_some (find id p.state.withheld) ≡ true → find id q.apps ≡ find id p.apps

pub Grown-refl : (p : Pool) → IsWhole p → Grown p p
Grown-refl p w = record { whole = w; ahead = Ahead-refl p; withheld = refl; held = λ id h. refl }

pub take_app-cases :
    (e : Env) (from : Text) (app : App) (tree : Tree) (s : Pass)
    → ((take_app e from app tree s).0.pool ≡ s.pool)
      ⊎ ((take_app e from app tree s).0.pool ≡ with_tree app.fields.install_dir tree s.pool)
      ⊎ ((take_app e from app tree s).0.pool ≡ taken app e.now tree s.pool)
unfolding take_app
take_app-cases e from app tree s =
    elim (Bool-cases (e.clone_fails taking from app.fields.install_dir)) [
      | inl h ↦ inl (ground arith)
      | inr h ↦ elim (Bool-cases (e.manifest_fails taking from app.fields.app_id)) [
        | inl k ↦ inr (inl (ground arith))
        | inr k ↦ inr (inr (ground arith))
      ]
    ]

-- A round takes nothing, or a title that is installed, and neither withheld nor current.
pub harvest_app-cases :
    (e : Env) (from : Text) (common : Table Tree) (app : App) (s : Pass)
    → ((harvest_app e from common app s).0 ≡ s)
      ⊎ ((is_some (find app.fields.app_id s.pool.state.withheld) ≡ false)
          × (is_current app s.pool ≡ false)
          × (is_installed app.fields ≡ true)
          × ((tree : Tree) × (harvest_app e from common app s ≡ take_app e from app tree s)))
unfolding harvest_app
harvest_app-cases e from common app s = elim (Option-cases (find app.fields.install_dir common)) [
  | inl h ↦ inl (ground arith)
  | inr (tree, h) ↦ elim (Bool-cases (is_current app s.pool)) [
    | inl k ↦ inl (ground arith)
    | inr k ↦ elim (Bool-cases (is_some (find app.fields.app_id s.pool.state.withheld))) [
      | inl j ↦ inl (ground arith)
      | inr j ↦ elim (Bool-cases (is_installed app.fields)) [
        | inr i ↦ inl (ground arith)
        | inl i ↦ elim (Bool-cases (is_settled_app e app)) [
          | inr t ↦ inl (ground arith)
          | inl t ↦ inr (j, k, i, (tree, ground arith))
        ]
      ]
    ]
  ]
]

-- Taking a title changes nothing that the daemon remembers.
pub harvest_app-state :
    (e : Env) (from : Text) (common : Table Tree) (app : App) (s : Pass)
    → (harvest_app e from common app s).0.pool.state ≡ s.pool.state
harvest_app-state e from common app s = elim (harvest_app-cases e from common app s) [
  | inl h ↦ ap (λ (t : Pass). t.pool.state) h
  | inr (free, old, whole, (tree, h)) ↦
      ap (λ (r : Done Pass). r.0.pool.state) h ∙ elim (take_app-cases e from app tree s) [
        | inl k ↦ ap (λ (p : Pool). p.state) k
        | inr (inl k) ↦ ap (λ (p : Pool). p.state) k
        | inr (inr k) ↦ ap (λ (p : Pool). p.state) k
      ]
]

module _ (p : Pool) where
  Grown-tree : (name : Text) (t : Tree) (q : Pool) → Grown p q → Grown p (with_tree name t q)
  Grown-tree name t q g = record {
    whole = with_tree-IsWhole name t q g.whole;
    ahead = Ahead-trans p q _ g.ahead (with_tree-Ahead name t q);
    withheld = g.withheld;
    held = g.held;
  }

  Grown-taken :
      (app : App) (now : ℕ) (t : Tree) (q : Pool)
      → is_some (find app.fields.app_id q.state.withheld) ≡ false
      → is_current app q ≡ false
      → Grown p q
      → Grown p (taken app now t q)
  Grown-taken app now t q free old g = record {
    whole = taken-IsWhole app now t q g.whole;
    ahead = Ahead-trans p q _ g.ahead (taken-Ahead app now t q g.whole old);
    withheld = g.withheld;
    held = λ id h.
        taken-app app now t q id
        ∙ ground (arith, g.held id h, text_eq_iff app.fields.app_id id, other id h);
  }
    where
      other :
          (id : Text)
          → is_some (find id p.state.withheld) ≡ true
          → text_eq app.fields.app_id id ≡ false
      other id h = elim (Bool-cases (text_eq app.fields.app_id id)) [
        | inr n ↦ n
        | inl k ↦ absurd (
            false≢true (
              sym free
              ∙ ap (λ w. is_some (find app.fields.app_id w)) g.withheld
              ∙ ap (λ i. is_some (find i p.state.withheld)) ((text_eq_iff app.fields.app_id id).0 k)
              ∙ h))
      ]

  pub harvest_app-Grown :
      (e : Env) (from : Text) (common : Table Tree) (app : App) (s : Pass)
      → Grown p s.pool
      → Grown p (harvest_app e from common app s).0.pool
  harvest_app-Grown e from common app s g = elim (harvest_app-cases e from common app s) [
    | inl h ↦ subst (λ (t : Pass). Grown p t.pool) (sym h) g
    | inr (free, old, whole, (tree, h)) ↦
        subst (λ (r : Done Pass). Grown p r.0.pool) (sym h)
          (elim (take_app-cases e from app tree s) [
            | inl k ↦ subst (Grown p) (sym k) g
            | inr (inl k) ↦
                subst (Grown p) (sym k) (Grown-tree app.fields.install_dir tree s.pool g)
            | inr (inr k) ↦ subst (Grown p) (sym k) (Grown-taken app e.now tree s.pool free old g)
          ])
  ]

  -- The daemon's memory may change, but for the titles that are withheld.
  pub Grown-state :
      (q : Pool) (t : State)
      → t.withheld ≡ q.state.withheld
      → Grown p q
      → Grown p (record q { state = t })
  Grown-state q t e g = record {
    whole = g.whole;
    ahead = record { builds = g.ahead.builds; trees = g.ahead.trees; folders = g.ahead.folders };
    withheld = e ∙ g.withheld;
    held = g.held;
  }

  pub Grown-folder :
      (name : Text) (t : Tree) (q : Pool)
      → Grown p q
      → Grown p (record q { shared = put name t q.shared })
  Grown-folder name t q g = record {
    whole = g.whole;
    ahead = record {
      builds = g.ahead.builds;
      trees = g.ahead.trees;
      folders = λ n h. is_some-put name n t q.shared (g.ahead.folders n h);
    };
    withheld = g.withheld;
    held = g.held;
  }
