-- ===== src/Library/Pool/Sync/Homes.antt =====
-- internal/library/pool.go: the members' directories, and what their libraries lack.
use polyseat.Prelude.{
  ◌≡◌, ap, sym, subst, ◌∙◌, inl, inr, true, Option, none, some, [], arith, if◌then◌else◌,
  Bool-cases, Option-cases,
}
use polyseat.Prelude.Text.{Text, text_eq, text_eq_iff}
use polyseat.Prelude.Table.{Table, put, find-put}
use polyseat.Library.Manifest.{App}
use polyseat.Library.Pool.{Steam, Home, Member}
use polyseat.Library.Pool.Lacks.{Lacks}
use polyseat.Library.Pool.Sync.{ensured, home_of}

abbrev pub manifests_of : Option Steam → Table App
manifests_of none = []
manifests_of (some lib) = lib.manifests

-- The member's library lacks the title.
abbrev pub HomeLacks : Text → Home → Type 0
HomeLacks id h = Lacks id (manifests_of h.steam)

pub home_of-put :
    (key n : Text) (h : Home) (homes : Table Home)
    → home_of n (put key h homes) ≡ (if text_eq key n then h else home_of n homes)
unfolding home_of
home_of-put key n h homes = ground (arith, find-put key n h homes)

pub ensured-manifests :
    (m : Member) (h : Home) → manifests_of (ensured m h).steam ≡ manifests_of h.steam
unfolding ensured
ensured-manifests m h = elim (Option-cases m.external_apps) [
  | inr (apps, k) ↦ ground arith
  | inl k ↦ elim (Option-cases h.steam) [ inl j ↦ ground arith | inr (l, j) ↦ ground arith ]
]

pub put_home {μ} :
    (P : Home → Type μ) (n key : Text) (h : Home) (homes : Table Home)
    → (text_eq key n ≡ true → P h)
    → P (home_of n homes)
    → P (home_of n (put key h homes))
put_home P n key h homes new old = elim (Bool-cases (text_eq key n)) [
  | inl e ↦
      subst P {x = h} {y = home_of n (put key h homes)}
        (sym (ground (arith, home_of-put key n h homes))) (new e)
  | inr e ↦
      subst P {x = home_of n homes} {y = home_of n (put key h homes)}
        (sym (ground (arith, home_of-put key n h homes))) old
]

module _ (n id : Text) where
  -- What is left as it was, or stored for the member with the same manifests.
  pub same_home :
      (key : Text) (h : Home) (homes : Table Home)
      → manifests_of h.steam ≡ manifests_of (home_of key homes).steam
      → HomeLacks id (home_of n homes)
      → HomeLacks id (home_of n (put key h homes))
  same_home key h homes same old =
      put_home (HomeLacks id) n key h homes
        (λ e.
          subst (Lacks id)
            (sym (same ∙ ap (λ k. manifests_of (home_of k homes).steam) ((text_eq_iff key n).0 e)))
            old)
        old
