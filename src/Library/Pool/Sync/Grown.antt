-- ===== src/Library/Pool/Sync/Grown.antt =====
-- internal/library/pool.go: what `Sync` does to the pool.
use polyseat.Prelude.{refl, List}
use polyseat.Library.Pool.{Pool, Member, Env, mark}
use polyseat.Library.Pool.Ahead.{
  IsWhole, Grown, Grown-refl, harvest_app-Grown, Grown-state, Grown-folder,
}
use polyseat.Library.Pool.Sync.{World, sync}
use polyseat.Library.Pool.Sync.Kept.{Keeps}
use polyseat.Library.Pool.Sync.Whole.{sync-keeps}

Grown-Keeps : (p : Pool) → Keeps (Grown p)
unfolding mark
Grown-Keeps p = record {
  stays = record {
    marks = λ seat key m q g. Grown-state p q (mark seat key m q.state) refl g;
    shares = λ name t q g. Grown-folder p name t q g;
    records = λ name f q g. Grown-state p q _ refl g;
  };
  takes = harvest_app-Grown p;
}

-- A pass over the libraries, whatever fails in it, only adds to the pool: each title of a pool in which
-- every title has its tree is still there, at the same build or a newer one, with its tree, and so is
-- each folder; every title there is has its tree; and the titles that are withheld stay withheld,
-- each with the manifest in the pool that it had, or with none if it had none. Its files may be
-- replaced by those of another title that has the same directory.
pub sync-Grown :
    (e : Env) (members : List Member) (w : World)
    → IsWhole w.pool
    → Grown w.pool (sync e members w).0.pool
sync-Grown e members w h =
    sync-keeps (Grown w.pool) (Grown-Keeps w.pool) e members w (Grown-refl w.pool h)
