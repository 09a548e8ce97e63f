-- ===== src/Update/Check/Kept.antt =====
-- internal/update/update.go: the release that the checker holds.
use polyseat.Prelude.{
  ℕ, String, ◌≡◌, ◌≢◌, ◌⊎◌, refl, inl, inr, true, Option, none, some, List, [], ◌∷◌, Result, ok,
  err, arith, eq_iff, if◌then◌else◌, Bool-cases,
}
use polyseat.Prelude.Text.{Text}
use polyseat.Update.Version.{newer}
use polyseat.Update.Check.{
  Asset, Release, Listed, Response, no_answer, answer, Error, Checker, Call, ticks, asks,
  pick_asset, fetch, keep, check, check_now, answered, step, run,
}

-- An asset that a host may be offered: there is a name to look for, and it is the asset's.
abbrev pub Fits : String → Option Asset → Type 0
Fits wanted none = Unit {0}
Fits wanted (some a) = (wanted ≢ "") × (a.name ≡ wanted)

pick_asset-Fits : (wanted : String) (ls : List Listed) → Fits wanted (pick_asset wanted ls)
unfolding pick_asset
pick_asset-Fits wanted [] = tt
pick_asset-Fits wanted (l ∷ ls) =
    ground (arith, pick_asset-Fits wanted ls, eq_iff wanted "", eq_iff l.asset.name wanted)

-- A release that may be offered: newer than the build, with a package for this host or none.
abbrev pub IsOffer : Checker → Option Release → Type 0
IsOffer c none = Unit {0}
IsOffer c (some r) = (newer c.current r.version ≡ true) × Fits c.asset r.offered

pub record IsKept (current : Text) (asset : String) (c : Checker) : Type 0 where
  pub same_build : c.current ≡ current
  pub same_asset : c.asset ≡ asset
  pub offers : IsOffer c c.latest

fetch-Fits :
    (wanted : String) (r : Response) (rel : Release)
    → fetch wanted r ≡ ok rel
    → Fits wanted rel.offered
unfolding fetch
fetch-Fits wanted no_answer rel h = cc
fetch-Fits wanted (answer status none) rel h = absurd (ground arith)
fetch-Fits wanted (answer status (some b)) rel h = ground (arith, pick_asset-Fits wanted b.assets)

snd-answered : (q : Result Error Unit × Checker) → (answered q).1 ≡ q.1
unfolding answered
snd-answered (ok u, c) = refl
snd-answered (err e, c) = refl

module _ (now : ℕ) (r : Response) (c : Checker) where
  ticks-cases : (step c (ticks now r) ≡ c) ⊎ (step c (ticks now r) ≡ (check now r c).1)
  unfolding step
  ticks-cases = ground arith

  asks-cases : (step c (asks now r) ≡ c) ⊎ (step c (asks now r) ≡ (check now r c).1)
  unfolding step check_now
  asks-cases = ground (arith, snd-answered (check now r c))

module _ {b : Text} {a : String} where
  keep-IsKept :
      (now : ℕ) (f : Result Error Release) (c : Checker)
      → ((rel : Release) → f ≡ ok rel → Fits c.asset rel.offered)
      → IsKept b a c
      → IsKept b a (keep now f c).1
  unfolding keep
  keep-IsKept now (err e) c fits v = v
  keep-IsKept now (ok rel) c fits v = elim (Bool-cases (newer c.current rel.version)) [
    | inl new ↦ record {
      same_build = v.same_build;
      same_asset = v.same_asset;
      offers = rw new (new, fits rel refl);
    }
    | inr old ↦ record { same_build = v.same_build; same_asset = v.same_asset; offers = rw old tt }
  ]

  check-IsKept :
      (now : ℕ) (r : Response) (c : Checker) → IsKept b a c → IsKept b a (check now r c).1
  unfolding check
  check-IsKept now r c = keep-IsKept now (fetch c.asset r) c (fetch-Fits c.asset r)

  step-IsKept : (c : Checker) (k : Call) → IsKept b a c → IsKept b a (step c k)
  step-IsKept c (ticks now r) v = elim (ticks-cases now r c) [
    | inl e ↦ rw e v
    | inr e ↦ rw e (check-IsKept now r c v)
  ]
  step-IsKept c (asks now r) v = elim (asks-cases now r c) [
    | inl e ↦ rw e v
    | inr e ↦ rw e (check-IsKept now r c v)
  ]

  -- Whatever GitHub answers, a checker that starts without a release only ever holds one that is
  -- newer than its build, whose package, if it has one, is the one for this host.
  pub run-IsKept : (c : Checker) (ks : List Call) → IsKept b a c → IsKept b a (run c ks)
  unfolding run
  run-IsKept c [] v = v
  run-IsKept c (k ∷ ks) v = run-IsKept (step c k) ks (step-IsKept c k v)

-- A check either fails and changes nothing, or keeps the time, and a release exactly when the one
-- that is published is newer than the build.
pub check-cases :
    (now : ℕ) (r : Response) (c : Checker)
    → ((e : Error) × (check now r c ≡ (err e, c)))
      ⊎ ((rel : Release) × (fetch c.asset r ≡ ok rel)
          × (check now r c ≡ (
            ok tt,
            record c {
              latest = if newer c.current rel.version then some rel else none;
              checked = some now;
            },
          )))
unfolding check keep
check-cases now r c = elim (cases (fetch c.asset r)) [
  | inl (e, h) ↦ inl (e, rw (h, check))
  | inr (rel, h) ↦ inr (rel, h, rw (h, check))
]
  where
    cases :
        (f : Result Error Release) → ((e : Error) × (f ≡ err e)) ⊎ ((rel : Release) × (f ≡ ok rel))
    cases (err e) = inl (e, refl)
    cases (ok rel) = inr (rel, refl)
