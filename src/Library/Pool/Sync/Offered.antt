-- ===== src/Library/Pool/Sync/Offered.antt =====
-- internal/library/pool.go: predicates of the pool, through the offers to the members.
use polyseat.Prelude.{
  sym, subst, inl, inr, not, ◌&&◌, Option, none, some, List, arith, Bool-cases, Option-cases,
}
use polyseat.Prelude.Text.{Text}
use polyseat.Prelude.Table.{Table, find, is_some}
use polyseat.Library.Folder.{Folder}
use polyseat.Library.Manifest.{App, is_installed}
use polyseat.Library.Pool.{
  giving, Tree, Status, delivered, declined, Steam, Pool, Member, Env, folder_key, read_apps, Done,
}
use polyseat.Library.Pool.Loops.{each-keeps}
use polyseat.Library.Pool.Harvest.{Pass, mark_pass}
use polyseat.Library.Pool.Distribute.{
  Giving, Verdict, skip, wait, refuse, give, settle_verdict, mark_given, give_app, app_verdict,
  carry_out, distribute_app, distribute, give_folder, folder_verdict, distribute_folder,
  distribute_folders,
}
use polyseat.Library.Pool.Sync.Kept.{with_mark}

module _ {μ} (Q : Pool → Type μ)
    (marks : (seat key : Text) (m : Status) (q : Pool) → Q q → Q (with_mark seat key m q)) where
  settle_verdict-keeps :
      (seat key name : Text) (v : Verdict) (s : Pass)
      → Q s.pool
      → Q (settle_verdict seat key name v s).pool
  unfolding settle_verdict mark_pass
  settle_verdict-keeps seat key name skip s q = q
  settle_verdict-keeps seat key name give s q = q
  settle_verdict-keeps seat key name wait s q = q
  settle_verdict-keeps seat key name refuse s q = marks seat key declined s.pool q

  carry_out-keeps {ℓ} :
      {L : Type ℓ} (v : Verdict) (t : Option Tree) (act : Tree → Giving L → Done (Giving L))
      (left : Pass) (g : Giving L)
      → ((tree : Tree) → Q (act tree g).0.pass.pool)
      → Q left.pool
      → Q g.pass.pool
      → Q (carry_out v t act left g).0.pass.pool
  carry_out-keeps give none act left g k l q = q
  carry_out-keeps give (some tree) act left g k l q = k tree
  carry_out-keeps skip t act left g k l q = l
  carry_out-keeps wait t act left g k l q = l
  carry_out-keeps refuse t act left g k l q = l

  give_app-keeps :
      (e : Env) (m : Member) (app : App) (tree : Tree) (g : Giving Steam)
      → Q g.pass.pool
      → Q (give_app e m app tree g).0.pass.pool
  unfolding give_app mark_given mark_pass
  give_app-keeps e m app tree g q =
      elim (Bool-cases (not (is_some g.home.common) && e.common_fails m.name)) [
        | inl h ↦ subst Q (sym (ground arith)) q
        | inr h ↦ elim (Bool-cases (e.clone_fails giving m.name app.fields.install_dir)) [
          | inl i ↦ subst Q (sym (ground arith)) q
          | inr i ↦ elim (Bool-cases (e.manifest_fails giving m.name app.fields.app_id)) [
            | inl j ↦ subst Q (sym (ground arith)) q
            | inr j ↦
                subst Q (sym (ground arith))
                  (marks m.name app.fields.app_id delivered g.pass.pool q)
          ]
        ]
      ]

  pub distribute_app-keeps :
      (e : Env) (m : Member) (before : List App) (app : App) (g : Giving Steam)
      → Q g.pass.pool
      → Q (distribute_app e m before app g).0.pass.pool
  unfolding distribute_app
  distribute_app-keeps e m before app g q = elim (Bool-cases (is_installed app.fields)) [
    | inr h ↦ subst Q (sym (ground arith)) q
    | inl h ↦ subst Q (sym (ground arith)) (
        carry_out-keeps (app_verdict m before app g.pass)
          (find app.fields.install_dir g.pass.pool.common) (give_app e m app)
          (settle_verdict m.name app.fields.app_id app.fields.name (app_verdict m before app g.pass)
            g.pass)
          g (λ tree. give_app-keeps e m app tree g q)
          (settle_verdict-keeps m.name app.fields.app_id app.fields.name
            (app_verdict m before app g.pass) g.pass q)
          q)
  ]

  pub distribute-keeps :
      (e : Env) (m : Member) (pool : List App) (lib : Steam) (s : Pass)
      → Q s.pool
      → Q (distribute e m pool lib s).0.pass.pool
  unfolding distribute
  distribute-keeps e m pool lib s q =
      each-keeps (λ (g : Giving Steam). Q g.pass.pool)
        (distribute_app e m (read_apps lib.manifests))
        (distribute_app-keeps e m (read_apps lib.manifests)) pool (record { pass = s; home = lib })
        q

  give_folder-keeps :
      (e : Env) (m : Member) (name : Text) (tree : Tree) (g : Giving (Table Tree))
      → Q g.pass.pool
      → Q (give_folder e m name tree g).0.pass.pool
  unfolding give_folder mark_given mark_pass
  give_folder-keeps e m name tree g q = elim (Bool-cases (e.clone_fails giving m.name name)) [
    | inl h ↦ subst Q (sym (ground arith)) q
    | inr h ↦ subst Q (sym (ground arith)) (marks m.name (folder_key name) delivered g.pass.pool q)
  ]

  distribute_folder-keeps :
      (e : Env) (m : Member) (before : List Folder) (f : Text × Folder) (g : Giving (Table Tree))
      → Q g.pass.pool
      → Q (distribute_folder e m before f g).0.pass.pool
  unfolding distribute_folder
  distribute_folder-keeps e m before (name, f) g q =
      elim (Option-cases (find name g.pass.pool.shared)) [
        | inl h ↦ subst Q (sym (ground arith)) q
        | inr (tree, h) ↦ subst Q (sym (ground arith)) (
            carry_out-keeps (folder_verdict m before (name, f) g.pass) (some tree)
              (give_folder e m name)
              (settle_verdict m.name (folder_key name) name
                (folder_verdict m before (name, f) g.pass) g.pass)
              g (λ t. give_folder-keeps e m name t g q)
              (settle_verdict-keeps m.name (folder_key name) name
                (folder_verdict m before (name, f) g.pass) g.pass q)
              q)
      ]

  pub distribute_folders-keeps :
      (e : Env) (m : Member) (before : List Folder) (trees : Table Tree) (s : Pass)
      → Q s.pool
      → Q (distribute_folders e m before trees s).0.pass.pool
  unfolding distribute_folders
  distribute_folders-keeps e m before trees s q =
      each-keeps (λ (g : Giving (Table Tree)). Q g.pass.pool) (distribute_folder e m before)
        (distribute_folder-keeps e m before) _ (record { pass = s; home = trees }) q
